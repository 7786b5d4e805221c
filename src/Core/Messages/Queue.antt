-- ===== src/Core/Messages/Queue.antt =====
-- The message queue of an application, of linux/include/linux/isdn/capiappl.h.
use capi4linux.Prelude.{
  ℕ, zero, suc, ◌≡◌, ◌<◌, length, append_nil, append_snoc, sym, refl, ◌∙◌, ap, inl, inr, true,
  false, Option, none, some, List, [], ◌∷◌, ◌++◌, ◌==◌, if◌then◌else◌, arith, Bool-cases,
}
use capi4linux.Core.State.{Message, Appl}
use capi4linux.Core.Messages.{
  take_message, capi_get_message, capi_unget_message, capi_peek_message, capi_appl_enqueue_message,
  capi_appl_signal, capi_appl_signal_error, queue_empty,
}

-- The messages that drivers enqueue, one after the other.
abbrev pub enqueue_all : Appl → List Message → Appl
enqueue_all a [] = a
enqueue_all a (m ∷ ms) = enqueue_all (capi_appl_enqueue_message a m) ms

-- The messages that an application fetches until the queue is empty, at most `n`.
abbrev pub fetch_all : ℕ → Appl → List Message
fetch_all zero a = []
fetch_all (suc n) a =
    let (answer, msg, a') = capi_get_message a in
    let rest = fetch_all n a' in elim msg [ none ↦ [] | some m ↦ m ∷ rest ]

take-cons :
    (a : Appl) (m : Message) (ms : List Message)
    → a.info ≡ 0
    → a.msg_queue ≡ m ∷ ms
    → capi_get_message a ≡ (0, some m, record a { msg_queue = ms })
unfolding capi_get_message take_message
take-cons a m ms fine e =
    let ok : (a.info == 0) ≡ true = ground arith in rw (ok, e, capi_get_message, take_message) refl

fetch_all-step :
    (n : ℕ) (a : Appl) (m : Message) (a' : Appl)
    → capi_get_message a ≡ (0, some m, a')
    → fetch_all (suc n) a ≡ m ∷ fetch_all n a'
fetch_all-step n a m a' e =
    ap (λ (r : ℕ × Option Message × Appl). elim r.1 [ none ↦ [] | some x ↦ x ∷ fetch_all n r.2 ]) e

fetch_all-queue :
    (ms : List Message) (a : Appl) → a.info ≡ 0 → a.msg_queue ≡ ms → fetch_all (length ms) a ≡ ms
fetch_all-queue [] a fine e = refl
fetch_all-queue (m ∷ ms) a fine e =
    fetch_all-step (length ms) a m (record a { msg_queue = ms }) (take-cons a m ms fine e)
    ∙ ap (λ q. m ∷ q) (fetch_all-queue ms (record a { msg_queue = ms }) fine refl)

enqueue_all-queue :
    (ms : List Message) (a : Appl)
    → ((enqueue_all a ms).msg_queue ≡ a.msg_queue ++ ms) × ((enqueue_all a ms).info ≡ a.info)
unfolding capi_appl_enqueue_message
enqueue_all-queue [] a = (sym (append_nil a.msg_queue), refl)
enqueue_all-queue (m ∷ ms) a =
    let (q, i) = enqueue_all-queue ms (capi_appl_enqueue_message a m) in
    (q ∙ append_snoc a.msg_queue m ms, i)

-- First in, first out: an error-free application fetches what its queue held and then what the
-- drivers enqueued, each message once, in order.
pub fetch_all-enqueue_all :
    (a : Appl) (ms : List Message)
    → a.info ≡ 0
    → fetch_all (length (a.msg_queue ++ ms)) (enqueue_all a ms) ≡ a.msg_queue ++ ms
fetch_all-enqueue_all a ms fine =
    let (q, i) = enqueue_all-queue ms a in
    fetch_all-queue (a.msg_queue ++ ms) (enqueue_all a ms) (i ∙ fine) q

-- Without an error, a message that is put back is the next one fetched, and fetching it restores
-- the application; a message is then pending.
capi_get_message-unget :
    (a : Appl) (m : Message)
    → a.info ≡ 0
    → (capi_get_message (capi_unget_message a m) ≡ (0, some m, a))
      × (capi_peek_message (capi_unget_message a m) ≡ 0)
unfolding capi_unget_message capi_peek_message
capi_get_message-unget a m fine =
    let ok : (a.info == 0) ≡ true = ground arith in
    (take-cons (capi_unget_message a m) m a.msg_queue fine refl, (rw (ok, capi_peek_message) refl))

peek-take :
    (a : Appl) (ms : List Message) → (if queue_empty ms then 0x1104 else 0) ≡ (take_message a ms).0
unfolding take_message
peek-take a [] = refl
peek-take a (m ∷ ms) = refl

-- capi_peek_message answers what capi_get_message would.
capi_peek_message-get : (a : Appl) → capi_peek_message a ≡ (capi_get_message a).0
unfolding capi_peek_message capi_get_message take_message
capi_peek_message-get a = elim (Bool-cases (a.info == 0)) [
  | inr error ↦ rw (error, capi_peek_message, capi_get_message) refl
  | inl fine ↦ rw (fine, capi_peek_message, capi_get_message) (peek-take a a.msg_queue)
]

-- After a call of capi_appl_signal_error with an error, a later call changes nothing, so that the
-- first error stays, and signals the handler all the same.
pub capi_appl_signal_error-first :
    (a : Appl) (e f : ℕ)
    → 0 < e
    → capi_appl_signal_error (capi_appl_signal_error a e).0 f
      ≡ ((capi_appl_signal_error a e).0, (a.sig, a.sig_param))
unfolding capi_appl_signal_error capi_appl_signal
capi_appl_signal_error-first a e f h = elim (Bool-cases (a.info == 0)) [
  | inl fine ↦ let kept : (e == 0) ≡ false = ground arith in rw (fine, kept) refl
  | inr error ↦ rw (error, error) refl
]
