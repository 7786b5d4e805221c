-- ===== src/Ncci.antt =====
-- The message-number queues of active NCCIs: linux/drivers/isdn/capi/capilib.c. A node of an NCCI's
-- pool is named by its position in `msgidpool`, and a list head is the list of its entries, by NCCI.
-- An allocation succeeds. `CAPI_MAXDATAWINDOW`, of a kernel header that is not in the repository, is
-- a parameter.
pub mod Queue
pub mod Window
pub mod Tail
pub mod Heads
use capi4linux.Prelude.{
  ℕ, zero, suc, ◌+◌, ◌-◌, Bool, true, false, ◌&&◌, Option, none, some, List, [], ◌∷◌, ◌++◌, ltb,
  ◌==◌, if◌then◌else◌, ◌>>=◌,
}
use capi4linux.Cmsg.Struct.{update}

-- `struct capilib_ncci`, with the members of the pool's `struct capilib_msgidqueue` by node.
pub record Ncci : Type 0 where
  pub applid : ℕ
  pub ncci : ℕ
  pub winsize : ℕ
  pub nmsg : ℕ
  pub msgidqueue : Option ℕ
  pub msgidlast : Option ℕ
  pub msgidfree : Option ℕ
  pub next : ℕ → Option ℕ
  pub msgid : ℕ → ℕ

-- The loop of `mq_init` from node `i` on, for `n` nodes: each is put before the free chain.
unfoldable pub init_loop : ℕ → ℕ → Ncci → Ncci
unfolding update
init_loop zero i np = np
init_loop (suc n) i np =
    init_loop n (suc i) (record np { next = update i np.msgidfree np.next; msgidfree = some i })

-- `mq_init`.
unfoldable pub mq_init : Ncci → Ncci
unfolding init_loop
mq_init np = init_loop (np.winsize - 1) 1 (record np {
  msgidqueue = none;
  msgidlast = none;
  nmsg = 0;
  next = λ _. none;
  msgid = λ _. 0;
  msgidfree = some 0;
})

-- The store to `np->msgidlast->next`, if there is a last node.
unfoldable pub link_last : Option ℕ → ℕ → (ℕ → Option ℕ) → ℕ → Option ℕ
unfolding update
link_last none mq next = next
link_last (some l) mq next = update l (some mq) next

abbrev pub first_of : Option ℕ → ℕ → Option ℕ
first_of none mq = some mq
first_of (some q) mq = some q

-- `mq_enqueue` for the free node `mq`.
unfoldable pub enqueue_node : Ncci → ℕ → ℕ → Ncci
unfolding link_last update
enqueue_node np msgid mq = record np {
  msgidfree = np.next mq;
  msgid = update mq msgid np.msgid;
  next = link_last np.msgidlast mq (update mq none np.next);
  msgidlast = some mq;
  msgidqueue = first_of np.msgidqueue mq;
  nmsg = np.nmsg + 1;
}

-- `mq_enqueue`, with its result, 0 or 1, as a Boolean.
unfoldable pub mq_enqueue : Ncci → ℕ → Bool × Ncci
unfolding enqueue_node
mq_enqueue np msgid = elim np.msgidfree [
  | none ↦ (false, np)
  | some mq ↦ (true, enqueue_node np msgid mq)
]

-- `*pp = mq->next`, where `pp` is the head, or the `next` of a node.
unfoldable pub unlink : Option ℕ → Option ℕ → Ncci → Ncci
unfolding update
unlink none rest np = record np { msgidqueue = rest }
unlink (some p) rest np = record np { next = update p rest np.next }

abbrev pub is_last : Option ℕ → ℕ → Bool
is_last none mq = false
is_last (some l) mq = l == mq

-- What `mq_dequeue` does with the node `mq` that it finds behind `pp`.
unfoldable pub dequeue_node : Option ℕ → ℕ → Ncci → Ncci
unfolding unlink update
dequeue_node pp mq np =
    let np1 = unlink pp (np.next mq) np in
    record np1 {
      msgidlast = if is_last np.msgidlast mq then none else np.msgidlast;
      next = update mq np.msgidfree np1.next;
      msgidfree = some mq;
      nmsg = np.nmsg - 1;
    }

-- The loop of `mq_dequeue`, at the node `*pp`; `none` is fuel that ran out.
unfoldable pub dequeue_loop : ℕ → Option ℕ → Option ℕ → ℕ → Ncci → Option (Bool × Ncci)
unfolding dequeue_node
dequeue_loop fuel pp none msgid np = some (false, np)
dequeue_loop zero pp (some mq) msgid np = none
dequeue_loop (suc fuel) pp (some mq) msgid np =
    let rest = dequeue_loop fuel (some mq) (np.next mq) msgid np in
    if np.msgid mq == msgid then some (true, dequeue_node pp mq np) else rest

-- `mq_dequeue`, with a round for each node of the pool.
unfoldable pub mq_dequeue : ℕ → Ncci → ℕ → Option (Bool × Ncci)
unfolding dequeue_loop
mq_dequeue max_window np msgid = dequeue_loop max_window none np.msgidqueue msgid np

-- `capilib_new_ncci`.
unfoldable pub capilib_new_ncci : ℕ → ℕ → ℕ → ℕ → List Ncci → List Ncci
unfolding mq_init
capilib_new_ncci max_window applid ncci winsize head =
    head
    ++ mq_init (record {
      applid = applid;
      ncci = ncci;
      winsize = if ltb max_window winsize then max_window else winsize;
      nmsg = 0;
      msgidqueue = none;
      msgidlast = none;
      msgidfree = none;
      next = λ _. none;
      msgid = λ _. 0;
    })
      ∷ []

abbrev pub is_ncci : ℕ → ℕ → Ncci → Bool
is_ncci applid ncci np = (np.applid == applid) && (np.ncci == ncci)

-- `capilib_free_ncci`.
unfoldable pub capilib_free_ncci : ℕ → ℕ → List Ncci → List Ncci
capilib_free_ncci applid ncci [] = []
capilib_free_ncci applid ncci (np ∷ head) =
    if is_ncci applid ncci np then head else np ∷ capilib_free_ncci applid ncci head

-- `capilib_release_appl`.
unfoldable pub capilib_release_appl : ℕ → List Ncci → List Ncci
capilib_release_appl applid [] = []
capilib_release_appl applid (np ∷ head) =
    let rest = capilib_release_appl applid head in if np.applid == applid then rest else np ∷ rest

-- `capilib_release`: all entries are freed.
unfoldable pub capilib_release : List Ncci → List Ncci
capilib_release head = []

-- The answer of `capilib_data_b3_req`.
pub data Answer : Type 0 where
  noerror sendqueuefull : Answer

abbrev pub answer : Bool → Answer
answer true = noerror
answer false = sendqueuefull

-- `capilib_data_b3_req`.
unfoldable pub capilib_data_b3_req : ℕ → ℕ → ℕ → List Ncci → Answer × List Ncci
unfolding mq_enqueue
capilib_data_b3_req applid ncci msgid [] = (noerror, [])
capilib_data_b3_req applid ncci msgid (np ∷ head) =
    let (a, rest) = capilib_data_b3_req applid ncci msgid head in
    let (ok, np') = mq_enqueue np msgid in
    if is_ncci applid ncci np then (answer ok, np' ∷ head) else (a, np ∷ rest)

-- `capilib_data_b3_conf`; `none` is fuel that ran out.
unfoldable pub capilib_data_b3_conf : ℕ → ℕ → ℕ → ℕ → List Ncci → Option (List Ncci)
unfolding mq_dequeue
capilib_data_b3_conf max_window applid ncci msgid [] = some []
capilib_data_b3_conf max_window applid ncci msgid (np ∷ head) =
    let rest = capilib_data_b3_conf max_window applid ncci msgid head in
    if is_ncci applid ncci np
    then (mq_dequeue max_window np msgid >>= λ (ok, np'). some (np' ∷ head))
    else (rest >>= λ head'. some (np ∷ head'))
