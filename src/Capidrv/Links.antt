-- ===== src/Capidrv/Links.antt =====
-- How the channels, PLCIs and NCCIs of a controller in linux/drivers/isdn/capi/capidrv.c hang together.
pub mod Writes
pub mod Chains
pub mod NewPlci
pub mod FreePlci
pub mod NewNcci
pub mod FreeNcci
pub mod Changes
use capi4linux.Prelude.{
  ℕ, zero, suc, ◌<◌, ◌≤◌, ◌≡◌, refl, sym, ap, ◌∙◌, ◌⊎◌, inl, inr, Bool, true, false, Option, none,
  some, List, [], ◌∷◌, ◌==◌, Bool-cases, ==_iff, among, NoTwice, ◌>>=◌, if◌then◌else◌, arith,
}
use mathlib.Core.Path.{subst}
use capi4linux.Cmsg.Struct.{update, update_self, update_other}
use capi4linux.Capidrv.Card.{PlciNode, NcciNode, Bchan, Card}

-- The chain of PLCIs has all nodes that there are, each once. A PLCI and the channel that it is on
-- point at each other; the NCCIs of a PLCI are there and are on its channel; the NCCI of a channel is
-- there and on that channel. The controller has a channel, and the kernel a buffer for every message.
pub record Links (plci_list : List ℕ) (plcis : ℕ → Option PlciNode) (nccis : ℕ → Option NcciNode)
    (bchans : ℕ → Bchan) (nbchan fresh : ℕ) (alloc_skb : ℕ → Bool) : Type 0 where
  pub live : (p : ℕ) → among p plci_list ≡ true → (q : PlciNode) × (plcis p ≡ some q)
  pub chained : (p : ℕ) (q : PlciNode) → plcis p ≡ some q → among p plci_list ≡ true
  pub once : NoTwice plci_list
  pub owner :
      (p : ℕ) (q : PlciNode)
      → plcis p ≡ some q
      → (q.chan < nbchan) × ((bchans q.chan).plcip ≡ some p)
  pub on_chan :
      (c p : ℕ) → (bchans c).plcip ≡ some p → (q : PlciNode) × (plcis p ≡ some q) × (q.chan ≡ c)
  pub ncci_on_chan :
      (c n : ℕ) → (bchans c).nccip ≡ some n → (k : NcciNode) × (nccis n ≡ some k) × (k.chan ≡ c)
  pub below :
      (p : ℕ) (q : PlciNode) (n : ℕ)
      → plcis p ≡ some q
      → among n q.ncci_list ≡ true
      → (k : NcciNode) × (nccis n ≡ some k) × (k.plcip ≡ p) × (k.chan ≡ q.chan)
  pub once_below : (p : ℕ) (q : PlciNode) → plcis p ≡ some q → NoTwice q.ncci_list
  pub some_chan : 0 < nbchan
  pub buffers : (n : ℕ) → alloc_skb n ≡ true
  pub old_plci : (p : ℕ) (q : PlciNode) → plcis p ≡ some q → p < fresh
  pub old_ncci : (n : ℕ) (k : NcciNode) → nccis n ≡ some k → (n < fresh) × (k.chan < nbchan)

abbrev pub Good : Card → Type 0
Good s = Links s.plci_list s.plcis s.nccis s.bchans s.nbchan s.fresh s.alloc_skb

-- The links alone, whatever the kernel's buffers.
abbrev pub Linked : Card → Type 0
Linked s = Links s.plci_list s.plcis s.nccis s.bchans s.nbchan s.fresh (λ _. true)

-- The links, with other buffers.
pub rebuffered :
    (l : List ℕ) (ps : ℕ → Option PlciNode) (ns : ℕ → Option NcciNode) (b : ℕ → Bchan) (n f : ℕ)
    (o o' : ℕ → Bool)
    → ((j : ℕ) → o' j ≡ true)
    → Links l ps ns b n f o
    → Links l ps ns b n f o'
rebuffered l ps ns b n f o o' h g = record {
  live = g.live;
  chained = g.chained;
  once = g.once;
  owner = g.owner;
  on_chan = g.on_chan;
  ncci_on_chan = g.ncci_on_chan;
  below = g.below;
  once_below = g.once_below;
  some_chan = g.some_chan;
  buffers = h;
  old_plci = g.old_plci;
  old_ncci = g.old_ncci;
}

-- The nodes stay, on their channels.
pub record Stay (s s' : Card) : Type 0 where
  pub plci :
      (p : ℕ) (q : PlciNode)
      → s.plcis p ≡ some q
      → (q' : PlciNode) × (s'.plcis p ≡ some q') × (q'.chan ≡ q.chan)
  pub ncci :
      (n : ℕ) (k : NcciNode)
      → s.nccis n ≡ some k
      → (k' : NcciNode) × (s'.nccis n ≡ some k') × (k'.plcip ≡ k.plcip) × (k'.chan ≡ k.chan)
  pub nbchan : s'.nbchan ≡ s.nbchan

-- No bad pointer is met, and the links hold afterwards.
abbrev pub Safe : Option Card → Type 0
Safe m = (s' : Card) × (m ≡ some s') × Good s'

-- And the nodes stay.
abbrev pub Steady : Card → Option Card → Type 0
Steady s m = (s' : Card) × (m ≡ some s') × Good s' × Stay s s'

pub Stay-refl : (s : Card) → Stay s s
Stay-refl s = record {
  plci = λ p q e. (q, e, refl);
  ncci = λ n k e. (k, e, refl, refl);
  nbchan = refl;
}

pub Stay-trans : (s t u : Card) → Stay s t → Stay t u → Stay s u
Stay-trans s t u a b = record {
  plci = λ p q e.
      let (q1, e1, c1) = a.plci p q e in let (q2, e2, c2) = b.plci p q1 e1 in (q2, e2, c2 ∙ c1);
  ncci = λ n k e.
      let (k1, e1, p1, c1) = a.ncci n k e in
      let (k2, e2, p2, c2) = b.ncci n k1 e1 in (k2, e2, p2 ∙ p1, c2 ∙ c1);
  nbchan = b.nbchan ∙ a.nbchan;
}

pub Safe-bind :
    (s : Card) (m : Option Card) (f : Card → Option Card)
    → Steady s m
    → ((s' : Card) → Good s' → Stay s s' → Safe (f s'))
    → Safe (m >>= f)
Safe-bind s m f (s1, e, g, stay) h =
    let (s2, e2, g2) = h s1 g stay in (s2, ap (λ x. x >>= f) e ∙ e2, g2)

-- The same, where the rest relies on the card it gets.
pub Safe-after :
    (s : Card) (m : Option Card) (f : Card → Option Card)
    → Steady s m
    → ((s' : Card) → m ≡ some s' → Good s' → Stay s s' → Safe (f s'))
    → Safe (m >>= f)
Safe-after s m f (s1, e, g, stay) h =
    let (s2, e2, g2) = h s1 e g stay in (s2, ap (λ x. x >>= f) e ∙ e2, g2)

pub Steady-bind :
    (s : Card) (m : Option Card) (f : Card → Option Card)
    → Steady s m
    → ((s' : Card) → Good s' → Stay s s' → Steady s' (f s'))
    → Steady s (m >>= f)
Steady-bind s m f (s1, e, g, stay) h =
    let (s2, e2, g2, stay2) = h s1 g stay in
    (s2, ap (λ x. x >>= f) e ∙ e2, g2, Stay-trans s s1 s2 stay stay2)

pub Steady-Safe : (s : Card) (m : Option Card) → Steady s m → Safe m
Steady-Safe s m (s', e, g, stay) = (s', e, g)

pub Steady-some : (s : Card) → Good s → Steady s (some s)
Steady-some s g = (s, refl, g, Stay-refl s)

-- After a look that gives a value.
pub look :
    {A B : Type 0} (P : Option B → Type 0) (m : Option A) (a : A) (f : A → Option B)
    → m ≡ some a
    → P (f a)
    → P (m >>= f)
look P m a f e h = subst P (sym (ap (λ x. x >>= f) e)) h

-- Both sides of a test.
pub if-Safe :
    (b : Bool) (x y : Option Card) → (b ≡ true → Safe x) → Safe y → Safe (if b then x else y)
if-Safe true x y h k = h refl
if-Safe false x y h k = k

-- A look at a written place.
pub update-cases :
    {A : Type 0} (k j : ℕ) (v : A) (f : ℕ → A)
    → ((j ≡ k) × (update k v f j ≡ v)) ⊎ (((j == k) ≡ false) × (update k v f j ≡ f j))
update-cases k j v f = elim (Bool-cases (j == k)) [
  | inl same ↦ let e : j ≡ k = (==_iff j k).0 same in inl (e, rw e (update_self k v f))
  | inr other ↦ inr (other, update_other k j v f other)
]
