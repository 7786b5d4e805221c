-- ===== src/Ncci/Tail.antt =====
-- Confirmations in linux/drivers/isdn/capi/capilib.c: of the oldest message, and of the newest one.
use capi4linux.Prelude.{
  among, NoTwice, ℕ, zero, suc, ◌<◌, ◌≤◌, ◌≡◌, ◌≢◌, refl, sym, ap, ◌∙◌, true, false, Option, none,
  some, List, [], ◌∷◌, ◌++◌, ◌==◌, if◌then◌else◌, arith,
}
use mathlib.Core.Path.{subst}
use capi4linux.Cmsg.Struct.{update, update_self, update_other}
use capi4linux.Ncci.{
  Ncci, enqueue_node, mq_enqueue, dequeue_node, dequeue_loop, mq_dequeue, unlink, link_last,
  is_last, first_of,
}
use capi4linux.Ncci.Queue.{
  Chain, last_of, Rep, Chain-update, among-append, among-last_of, last_of-cons, not_last,
}

NoTwice-insert :
    (x : ℕ) (q fr : List ℕ) → among x (q ++ fr) ≡ false → NoTwice (q ++ fr) → NoTwice (q ++ x ∷ fr)
NoTwice-insert x [] fr out o = (out, o)
NoTwice-insert x (y ∷ q) fr out o = (
  ground (arith, o.0, out, among-append y q fr, among-append y q (x ∷ fr)),
  NoTwice-insert x q fr (ground arith) o.1,
)

dequeue_loop-found :
    (n : ℕ) (pp start : Option ℕ) (id x : ℕ) (np : Ncci)
    → start ≡ some x
    → (np.msgid x == id) ≡ true
    → dequeue_loop (suc n) pp start id np ≡ some (true, dequeue_node pp x np)
unfolding dequeue_loop
dequeue_loop-found n pp start id x np e h =
    ap (λ s. dequeue_loop (suc n) pp s id np) e ∙ (rw (h, dequeue_loop) refl)

dequeue_loop-next :
    (n : ℕ) (pp start : Option ℕ) (id x : ℕ) (np : Ncci)
    → start ≡ some x
    → (np.msgid x == id) ≡ false
    → dequeue_loop (suc n) pp start id np ≡ dequeue_loop n (some x) (np.next x) id np
unfolding dequeue_loop
dequeue_loop-next n pp start id x np e h =
    ap (λ s. dequeue_loop (suc n) pp s id np) e ∙ (rw (h, dequeue_loop) refl)

dequeue_loop-end :
    (n : ℕ) (pp start : Option ℕ) (id : ℕ) (np : Ncci)
    → start ≡ none
    → dequeue_loop n pp start id np ≡ some (false, np)
unfolding dequeue_loop
dequeue_loop-end n pp start id np e = ap (λ s. dequeue_loop n pp s id np) e ∙ refl

last-kept :
    (x : ℕ) (q : List ℕ)
    → among x q ≡ false
    → (if is_last (last_of (x ∷ q)) x then none else last_of (x ∷ q)) ≡ last_of q
last-kept x [] out = ground arith
last-kept x (y ∷ q) out =
    let (l, e) = last_of-cons y q in
    let other = not_last x l (y ∷ q) out (among-last_of l (y ∷ q) e) in
    let other' : (l == x) ≡ false = ground arith in
    ap (λ k. if is_last k x then none else k) e ∙ (rw other' refl) ∙ sym e

-- In a window of at least one place, a confirmation of the oldest message takes it out of the
-- queue and gives its node back.
pub mq_dequeue-first :
    (max_window : ℕ) (np : Ncci) (x : ℕ) (q fr : List ℕ)
    → 0 < max_window
    → Rep np (x ∷ q) fr
    → (np' : Ncci) × (mq_dequeue max_window np (np.msgid x) ≡ some (true, np'))
      × Rep np' q (x ∷ fr)
      × (np'.msgid ≡ np.msgid)
unfolding mq_dequeue dequeue_node unlink
mq_dequeue-first zero np x q fr room r = absurd (omega arith)
mq_dequeue-first (suc w) np x q fr room r =
    let out : among x q ≡ false = ground (arith, r.once.0, among-append x q fr) in
    let out' : among x fr ≡ false = ground (arith, r.once.0, among-append x q fr) in
    (
      dequeue_node none x np,
      dequeue_loop-found w none np.msgidqueue (np.msgid x) x np r.queue.0 (ground arith),
      record {
        queue = Chain-update np.next (np.next x) np.msgidfree x q out r.queue.1;
        free = (
          refl,
          subst (λ from. Chain (update x np.msgidfree np.next) from fr)
              (sym (update_self x np.msgidfree np.next))
              (Chain-update np.next np.msgidfree np.msgidfree x fr out' r.free),
        );
        last = ap (λ l. if is_last l x then none else l) r.last ∙ last-kept x q out;
        count = omega (arith, r.count);
        once = NoTwice-insert x q fr r.once.0 r.once.1;
      },
      refl,
    )

-- The state after a confirmation of the newest message `y` of two.
module _ (np : Ncci) (x y : ℕ) (fr : List ℕ) (r : Rep np (x ∷ y ∷ []) fr) where
  abbrev confirmed : Ncci
  confirmed = dequeue_node (some x) y np

  apart : (x == y) ≡ false
  apart = ground (arith, r.once.0)

  confirmed-last : confirmed.msgidlast ≡ none
  unfolding dequeue_node unlink
  confirmed-last = ap (λ l. if is_last l y then none else l) r.last ∙ ground arith

  confirmed-next : confirmed.next y ≡ np.msgidfree
  unfolding dequeue_node unlink
  confirmed-next = update_self y np.msgidfree (update x (np.next y) np.next)

  -- The next request takes the node `y` and links nothing to it.
  abbrev requested : ℕ → Ncci
  requested b = enqueue_node confirmed b y

  requested-next : (b : ℕ) → (requested b).next x ≡ none
  unfolding enqueue_node link_last dequeue_node unlink
  requested-next b =
      ap (λ k. link_last k y (update y none confirmed.next) x) confirmed-last
      ∙ update_other y x none confirmed.next apart
      ∙ update_other y x np.msgidfree (update x (np.next y) np.next) apart
      ∙ update_self x (np.next y) np.next
      ∙ r.queue.1.1

  -- With two messages in the queue, a window of at least two, and the older message's number
  -- different from the two numbers in question, a confirmation of the newer message and then a
  -- further request succeed, but the new message is not in the queue: its confirmation is not
  -- found, although two messages are counted.
  pub mq_dequeue-tail :
      (max_window a b : ℕ)
      → 2 ≤ max_window
      → np.msgid y ≡ a
      → np.msgid x ≢ a
      → np.msgid x ≢ b
      → (np1 np2 : Ncci) × (mq_dequeue max_window np a ≡ some (true, np1))
        × (mq_enqueue np1 b ≡ (true, np2))
        × (mq_dequeue max_window np2 b ≡ some (false, np2))
        × (np2.nmsg ≡ 2)
  unfolding mq_dequeue mq_enqueue enqueue_node dequeue_node unlink
  mq_dequeue-tail zero a b room ya xa xb = absurd (omega arith)
  mq_dequeue-tail (suc zero) a b room ya xa xb = absurd (omega arith)
  mq_dequeue-tail (suc (suc w)) a b room ya xa xb =
      let hit : (np.msgid y == a) ≡ true = ground arith in
      let miss : (np.msgid x == a) ≡ false = ground arith in
      let kept : (requested b).msgid x ≡ np.msgid x = update_other y x b np.msgid apart in
      let miss' : ((requested b).msgid x == b) ≡ false = ground arith in
      let head : (requested b).msgidqueue ≡ some x = ap (λ s. first_of s y) r.queue.0 in
      (
        confirmed,
        requested b,
        dequeue_loop-next (suc w) none np.msgidqueue a x np r.queue.0 miss
            ∙ dequeue_loop-found w (some x) (np.next x) a y np r.queue.1.0 hit,
        refl,
        dequeue_loop-next (suc w) none (requested b).msgidqueue b x (requested b) head miss'
            ∙ dequeue_loop-end (suc w) (some x) ((requested b).next x) b (requested b)
                (requested-next b),
        omega (arith, r.count),
      )
