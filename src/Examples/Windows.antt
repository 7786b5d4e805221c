-- ===== src/Examples/Windows.antt =====
-- NCCIs for linux/drivers/isdn/capi/capilib.c.
use capi4linux.Prelude.{
  ℕ, ◌≡◌, refl, ap, true, false, none, some, List, [], ◌∷◌, ◌==◌, if◌then◌else◌, map, ltb→lt,
  leb→le, sym,
}
use mathlib.Core.Bool.{false≢true}
use capi4linux.Cmsg.Struct.{update}
use capi4linux.Ncci.{Ncci, init_loop, mq_init, mq_enqueue, mq_dequeue, capilib_release_appl}
use capi4linux.Ncci.Queue.{Rep, mq_enqueue-Rep}
use capi4linux.Ncci.Window.{enqueue_all, mq_enqueue-window}
use capi4linux.Ncci.Tail.{mq_dequeue-first, mq_dequeue-tail}
use capi4linux.Ncci.Heads.{find_ncci, find_ncci-capilib_release_appl}

-- An NCCI of application 1 with two messages, 10 and 11, and no free node.
abbrev two : Ncci
two = record {
  applid = 1;
  ncci = 0x101;
  winsize = 2;
  nmsg = 2;
  msgidqueue = some 0;
  msgidlast = some 1;
  msgidfree = none;
  next = λ k. if k == 0 then some 1 else none;
  msgid = λ k. if k == 0 then 10 else 11;
}

two-Rep : Rep two (0 ∷ 1 ∷ []) []
two-Rep = record {
  queue = (refl, (refl, refl));
  free = refl;
  last = refl;
  count = refl;
  once = (refl, (refl, tt));
}

empty-Rep : Rep (mq_init two) [] (1 ∷ 0 ∷ [])
unfolding mq_init init_loop update
empty-Rep = record {
  queue = refl;
  free = (refl, (refl, refl));
  last = refl;
  count = refl;
  once = (refl, (refl, tt));
}

mq_enqueue-Rep_example :
    (np' : Ncci) × (mq_enqueue (mq_init two) 7 ≡ (true, np'))
    × Rep np' (1 ∷ []) (0 ∷ [])
    × (map np'.msgid (1 ∷ []) ≡ 7 ∷ [])
mq_enqueue-Rep_example = mq_enqueue-Rep (mq_init two) 7 1 [] (0 ∷ []) empty-Rep

mq_enqueue-window_example :
    (np' : Ncci) × (q : List ℕ) × (enqueue_all (7 ∷ 8 ∷ []) (mq_init two) ≡ some np')
    × Rep np' q []
    × (map np'.msgid q ≡ 7 ∷ 8 ∷ [])
    × ((id : ℕ) → mq_enqueue np' id ≡ (false, np'))
mq_enqueue-window_example = mq_enqueue-window two (7 ∷ 8 ∷ []) refl

mq_dequeue-first_example :
    (np' : Ncci) × (mq_dequeue 8 two 10 ≡ some (true, np'))
    × Rep np' (1 ∷ []) (0 ∷ [])
    × (np'.msgid ≡ two.msgid)
mq_dequeue-first_example = mq_dequeue-first 8 two 0 (1 ∷ []) [] (ltb→lt 0 8 refl) two-Rep

mq_dequeue-tail_example :
    (np1 np2 : Ncci) × (mq_dequeue 8 two 11 ≡ some (true, np1))
    × (mq_enqueue np1 12 ≡ (true, np2))
    × (mq_dequeue 8 np2 12 ≡ some (false, np2))
    × (np2.nmsg ≡ 2)
mq_dequeue-tail_example =
    mq_dequeue-tail two 0 1 [] two-Rep 8 11 12 (leb→le 2 8 refl) refl
      (λ e. false≢true (ap (λ k. k == 10) (sym e))) (λ e. false≢true (ap (λ k. k == 10) (sym e)))

find_ncci-capilib_release_appl_example :
    find_ncci 1 0x101 (capilib_release_appl 1 (two ∷ [])) ≡ none
find_ncci-capilib_release_appl_example = find_ncci-capilib_release_appl 1 1 0x101 (two ∷ [])
