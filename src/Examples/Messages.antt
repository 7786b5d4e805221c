-- ===== src/Examples/Messages.antt =====
-- Messages and queries for linux/drivers/isdn/capi/core.c, in the registry with one device and one
-- application.
use capi4linux.Prelude.{
  ℕ, ◌≡◌, refl, true, false, Option, some, List, [], ◌∷◌, ◌++◌, length, ◌⊎◌, ltb→lt, leb→le,
}
use capi4linux.Core.State.{Message, Device}
use capi4linux.Core.Registry.{slot_at, listed}
use capi4linux.Core.Messages.{capi_put_message, capi_appl_signal_error}
use capi4linux.Core.Messages.Delivery.{Transfer, capi_put_message-Transfer, capi_put_message-listed}
use capi4linux.Core.Messages.Queue.{
  enqueue_all, fetch_all, fetch_all-enqueue_all, capi_appl_signal_error-first,
}
use capi4linux.Core.Queries.{capi_isinstalled}
use capi4linux.Core.Queries.Listed.{Answers, queries-listed, capi_isinstalled-listed}
use capi4linux.Examples.Registry.{appl1, one_of_each, one_of_each-Inv, willing}

-- A message for the first controller.
abbrev to_first : Message
to_first = record { len = 12; body = λ _. 1 }

capi_put_message-Transfer_example :
    (r : ℕ × Option ℕ) × (capi_put_message willing appl1 (some to_first) one_of_each ≡ some r)
    × Transfer willing appl1 to_first one_of_each r
capi_put_message-Transfer_example =
    capi_put_message-Transfer willing 8 appl1 to_first one_of_each one_of_each-Inv refl

capi_put_message-listed_example :
    capi_put_message willing appl1 (some to_first) one_of_each ≡ some (0, some 0)
capi_put_message-listed_example =
    capi_put_message-listed willing 8 appl1 to_first one_of_each one_of_each-Inv refl 0 refl
      (leb→le 12 12 refl) refl refl refl

queries-listed_example :
    (d : Device) × (slot_at one_of_each.table 0 ≡ some d) × Answers one_of_each 1 d
queries-listed_example = queries-listed 8 one_of_each one_of_each-Inv 0 refl

capi_isinstalled-listed_example :
    (capi_isinstalled one_of_each ≡ 0) × ((i : ℕ) × (listed i one_of_each.devs_list ≡ true))
    ⊎ (capi_isinstalled one_of_each ≡ 0x1109) × ((i : ℕ) → listed i one_of_each.devs_list ≡ false)
capi_isinstalled-listed_example = capi_isinstalled-listed 8 one_of_each one_of_each-Inv

abbrev two_messages : List Message
two_messages = to_first ∷ record to_first { len = 20 } ∷ []

fetch_all-enqueue_all_example :
    fetch_all (length (appl1.msg_queue ++ two_messages)) (enqueue_all appl1 two_messages)
    ≡ appl1.msg_queue ++ two_messages
fetch_all-enqueue_all_example = fetch_all-enqueue_all appl1 two_messages refl

capi_appl_signal_error-first_example :
    capi_appl_signal_error (capi_appl_signal_error appl1 0x1108).0 0x1107
    ≡ ((capi_appl_signal_error appl1 0x1108).0, (5, 6))
capi_appl_signal_error-first_example =
    capi_appl_signal_error-first appl1 0x1108 0x1107 (ltb→lt 0 0x1108 refl)
