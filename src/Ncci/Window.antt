-- ===== src/Ncci/Window.antt =====
-- The data window of an NCCI of linux/drivers/isdn/capi/capilib.c.
use capi4linux.Prelude.{
  among, ℕ, zero, suc, ◌+◌, ◌-◌, ◌<◌, ◌≡◌, refl, sym, ap, ◌∙◌, Bool, true, false, Option, none,
  some, List, [], ◌∷◌, ◌++◌, length, arith, map, append_snoc, append_nil,
}
use mathlib.Core.Path.{subst}
use capi4linux.Cmsg.Struct.{update, update_self}
use capi4linux.Ncci.{Ncci, mq_enqueue, init_loop, mq_init}
use capi4linux.Ncci.Queue.{Chain, Rep, Chain-update, mq_enqueue-Rep, mq_enqueue-full}

AllBelow : ℕ → List ℕ → Type 0
AllBelow i [] = Unit {0}
AllBelow i (x ∷ xs) = (x < i) × AllBelow i xs

AllBelow-among : (i : ℕ) (xs : List ℕ) → AllBelow i xs → among i xs ≡ false
unfolding AllBelow
AllBelow-among i [] h = refl
AllBelow-among i (x ∷ xs) h = ground (arith, h.0, AllBelow-among i xs h.1)

AllBelow-suc : (i : ℕ) (xs : List ℕ) → AllBelow i xs → AllBelow (suc i) xs
unfolding AllBelow
AllBelow-suc i [] h = tt
AllBelow-suc i (x ∷ xs) h = (omega (arith, h.0), AllBelow-suc i xs h.1)

init_loop-Rep :
    (n i : ℕ) (np : Ncci) (fr : List ℕ)
    → Rep np [] fr
    → AllBelow i fr
    → (fr' : List ℕ) × Rep (init_loop n i np) [] fr' × (length fr' ≡ n + length fr)
unfolding init_loop AllBelow
init_loop-Rep zero i np fr r below = (fr, r, omega arith)
init_loop-Rep (suc n) i np fr r below =
    let out = AllBelow-among i fr below in
    let step : Rep (record np { next = update i np.msgidfree np.next; msgidfree = some i }) []
        (i ∷ fr) =
      record {
        queue = r.queue;
        free = (
          refl,
          subst (λ from. Chain (update i np.msgidfree np.next) from fr)
              (sym (update_self i np.msgidfree np.next))
              (Chain-update np.next np.msgidfree np.msgidfree i fr out r.free),
        );
        last = r.last;
        count = r.count;
        once = (out, r.once);
      } in
    let (fr', r', many) =
      init_loop-Rep n (suc i)
        (record np { next = update i np.msgidfree np.next; msgidfree = some i }) (i ∷ fr) step
        (omega arith, AllBelow-suc i fr below) in
    (fr', r', omega arith)

-- `mq_init` leaves an empty queue and all the window's nodes free.
mq_init-Rep :
    (np : Ncci) → (fr : List ℕ) × Rep (mq_init np) [] fr × (length fr ≡ np.winsize - 1 + 1)
unfolding mq_init AllBelow
mq_init-Rep np =
    init_loop-Rep (np.winsize - 1) 1 _ (0 ∷ [])
      (record { queue = refl; free = (refl, refl); last = refl; count = refl; once = (refl, tt) })
      (omega arith, tt)

-- Requests one after the other; `none` if one of them is refused.
unfoldable pub enqueue_all : List ℕ → Ncci → Option Ncci
enqueue_all [] np = some np
enqueue_all (id ∷ ids) np =
    let (ok, np') = mq_enqueue np id in
    let rest = enqueue_all ids np' in elim ok [ false ↦ none | true ↦ rest ]

enqueue_all-cons :
    (id : ℕ) (ids : List ℕ) (np np' : Ncci)
    → mq_enqueue np id ≡ (true, np')
    → enqueue_all (id ∷ ids) np ≡ enqueue_all ids np'
unfolding enqueue_all
enqueue_all-cons id ids np np' e =
    ap (λ (r : Bool × Ncci). elim r.0 [ false ↦ none | true ↦ enqueue_all ids r.1 ]) e

enqueue_all-Rep :
    (ids : List ℕ) (np : Ncci) (q fr : List ℕ)
    → Rep np q fr
    → length ids ≡ length fr
    → (np' : Ncci) × (q' : List ℕ) × (enqueue_all ids np ≡ some np')
      × Rep np' q' []
      × (map np'.msgid q' ≡ map np.msgid q ++ ids)
unfolding enqueue_all
enqueue_all-Rep [] np q [] r same = (np, q, refl, r, sym (append_nil (map np.msgid q)))
enqueue_all-Rep [] np q (x ∷ fr) r same = absurd (omega arith)
enqueue_all-Rep (id ∷ ids) np q [] r same = absurd (omega arith)
enqueue_all-Rep (id ∷ ids) np q (x ∷ fr) r same =
    let (np1, e, r1, ids1) = mq_enqueue-Rep np id x q fr r in
    let (np', q', run, r', all) = enqueue_all-Rep ids np1 (q ++ x ∷ []) fr r1 (omega arith) in
    (
      np',
      q',
      enqueue_all-cons id ids np np1 e ∙ run,
      r',
      all ∙ ap (λ k. k ++ ids) ids1 ∙ append_snoc (map np.msgid q) id ids,
    )

-- A queue that mq_init has set up accepts as many message numbers as its window has places (one
-- for a window of size 0), holds them in the order of the requests, and refuses every further
-- one, which changes nothing.
pub mq_enqueue-window :
    (np : Ncci) (ids : List ℕ)
    → length ids ≡ np.winsize - 1 + 1
    → (np' : Ncci) × (q : List ℕ) × (enqueue_all ids (mq_init np) ≡ some np')
      × Rep np' q []
      × (map np'.msgid q ≡ ids)
      × ((id : ℕ) → mq_enqueue np' id ≡ (false, np'))
mq_enqueue-window np ids many =
    let (fr, r, places) = mq_init-Rep np in
    let (np', q, run, r', all) = enqueue_all-Rep ids (mq_init np) [] fr r (omega arith) in
    (np', q, run, r', all, λ id. mq_enqueue-full np' id q r')
