-- ===== src/Capidrv/Safety/Finds.antt =====
-- Looking a PLCI or an NCCI up in linux/drivers/isdn/capi/capidrv.c.
use capi4linux.Prelude.{
  ℕ, ◌≡◌, refl, sym, ap, ◌∙◌, ◌⊎◌, inl, inr, Bool, true, false, Option, none, some, List, [], ◌∷◌,
  ◌==◌, ◌>>=◌, if◌then◌else◌, among, arith, Bool-cases, some-injective, ==_iff, ◌%◌,
}
use mathlib.Core.Bool.{false≢true}
use capi4linux.Capidrv.Card.{PlciNode, NcciNode, Card}
use capi4linux.Capidrv.Nodes.{find_plci, find_node, find_below, find_ncci, find_ncci_by_msgid}
use capi4linux.Capidrv.Links.{Good, Safe}
use capi4linux.Capidrv.Links.Changes.{Live}
use capi4linux.Capidrv.Handlers.{when_found}

-- What a search in a chain finds: nothing, and then no node of the chain passes the test, or a node
-- of the chain that passes it.
abbrev pub Finds : {A : Type 0} → (A → Bool) → (ℕ → Option A) → List ℕ → Option (Option ℕ) → Type 0
Finds {A} test nodes l r =
    ((r ≡ some none) × ((p : ℕ) (q : A) → among p l ≡ true → nodes p ≡ some q → test q ≡ false))
    ⊎ ((p : ℕ) × (q : A) × (r ≡ some (some p))
        × (among p l ≡ true)
        × (nodes p ≡ some q)
        × (test q ≡ true))

-- All nodes of a chain are there.
abbrev pub Whole : {A : Type 0} → (ℕ → Option A) → List ℕ → Type 0
Whole {A} nodes l = (p : ℕ) → among p l ≡ true → (q : A) × (nodes p ≡ some q)

-- The step of both searches.
search_step :
    {A : Type 0} (test : A → Bool) (nodes : ℕ → Option A) (p : ℕ) (ps : List ℕ)
    (rest : Option (Option ℕ))
    → Whole nodes (p ∷ ps)
    → Finds test nodes ps rest
    → Finds test nodes (p ∷ ps) (nodes p >>= λ q. if test q then some (some p) else rest)
search_step {A} test nodes p ps rest whole found =
    let (q, at) = whole p here in
    elim (Bool-cases (test q)) [
      | inl passes ↦ inr (p, q, rw (at, passes) refl, here, at, passes)
      | inr fails ↦ rw (at, fails) (later q at fails found)
    ]
  where
    here : among p (p ∷ ps) ≡ true
    here = ground arith

    later :
        (q : A)
        → nodes p ≡ some q
        → test q ≡ false
        → Finds test nodes ps rest
        → Finds test nodes (p ∷ ps) rest
    later q at fails (inr (x, y, e, inside, ex, passes)) = inr (x, y, e, (ground arith), ex, passes)
    later q at fails (inl (e, all)) = inl (
      e,
      λ x y inside ex. elim (Bool-cases (x == p)) [
        | inl same ↦
            let it : y ≡ q = some-injective y q (sym ex ∙ ap nodes ((==_iff x p).0 same) ∙ at) in
            ap test it ∙ fails
        | inr other ↦ all x y (ground arith) ex
      ],
    )

pub find_plci-Finds :
    (test : PlciNode → Bool) (nodes : ℕ → Option PlciNode) (l : List ℕ)
    → Whole nodes l
    → Finds test nodes l (find_plci test nodes l)
unfolding find_plci
find_plci-Finds test nodes [] whole = inl (refl, λ p q inside e. absurd (false≢true inside))
find_plci-Finds test nodes (p ∷ ps) whole =
    search_step test nodes p ps (find_plci test nodes ps) whole
      (find_plci-Finds test nodes ps (λ x inside. whole x (ground arith)))

pub find_node-Finds :
    (test : NcciNode → Bool) (nodes : ℕ → Option NcciNode) (l : List ℕ)
    → Whole nodes l
    → Finds test nodes l (find_node test nodes l)
unfolding find_node
find_node-Finds test nodes [] whole = inl (refl, λ p q inside e. absurd (false≢true inside))
find_node-Finds test nodes (p ∷ ps) whole =
    search_step test nodes p ps (find_node test nodes ps) whole
      (find_node-Finds test nodes ps (λ x inside. whole x (ground arith)))

-- A handler for a PLCI that is found is safe when it is safe for every PLCI that is there.
pub found_plci-Safe :
    (test : PlciNode → Bool) (s : Card) (f : Option ℕ → Option Card)
    → Good s
    → Safe (f none)
    → ((p : ℕ) (q : PlciNode) → s.plcis p ≡ some q → Safe (f (some p)))
    → Safe (find_plci test s.plcis s.plci_list >>= f)
found_plci-Safe test s f g missing there = go (find_plci-Finds test s.plcis s.plci_list g.live)
  where
    go :
        Finds test s.plcis s.plci_list (find_plci test s.plcis s.plci_list)
        → Safe (find_plci test s.plcis s.plci_list >>= f)
    go (inl (e, all)) = rw e missing
    go (inr (p, q, e, inside, at, passes)) = rw e (there p q at)

-- The same for an NCCI, whose PLCI is there, too.
found_below-Safe :
    (test : PlciNode → Bool) (test' : NcciNode → Bool) (s : Card) (f : Option ℕ → Option Card)
    → Good s
    → Safe (f none)
    → ((n : ℕ) → Live s n → Safe (f (some n)))
    → Safe (find_plci test s.plcis s.plci_list >>= find_below test' s >>= f)
found_below-Safe test test' s f g missing there =
    go (find_plci-Finds test s.plcis s.plci_list g.live)
  where
    below :
        (p : ℕ) (q : PlciNode)
        → s.plcis p ≡ some q
        → Finds test' s.nccis q.ncci_list (find_node test' s.nccis q.ncci_list)
        → Safe (find_node test' s.nccis q.ncci_list >>= f)
    below p q at (inl (e, all)) = rw e missing
    below p q at (inr (n, k, e, inside, here, passes)) =
        let (k1, e1, up, on) = g.below p q n at inside in
        rw e (there n (k1, q, e1, ap s.plcis up ∙ at))

    go :
        Finds test s.plcis s.plci_list (find_plci test s.plcis s.plci_list)
        → Safe (find_plci test s.plcis s.plci_list >>= find_below test' s >>= f)
    go (inl (e, all)) = rw e missing
    go (inr (p, q, e, inside, at, passes)) =
        rw (e, at)
          (below p q at (
            find_node-Finds test' s.nccis q.ncci_list
              (λ n h. let (k, e1, up, on) = g.below p q n at h in (k, e1))))

pub found_ncci-Safe :
    (ncci : ℕ) (s : Card) (f : ℕ → Card → Option Card)
    → Good s
    → ((n : ℕ) → Live s n → Safe (f n s))
    → Safe (find_ncci ncci s >>= when_found f s)
unfolding find_ncci
found_ncci-Safe ncci s f g there =
    found_below-Safe (λ q. q.plci == ncci % 65536) (λ k. k.ncci == ncci) s (when_found f s) g
      (s, refl, g) there

pub found_ncci_by_msgid-Safe :
    (ncci msgid : ℕ) (s : Card) (f : ℕ → Card → Option Card)
    → Good s
    → ((n : ℕ) → Live s n → Safe (f n s))
    → Safe (find_ncci_by_msgid ncci msgid s >>= when_found f s)
unfolding find_ncci_by_msgid
found_ncci_by_msgid-Safe ncci msgid s f g there =
    found_below-Safe (λ q. q.plci == ncci % 65536) (λ k. k.msgid == msgid) s (when_found f s) g
      (s, refl, g) there
