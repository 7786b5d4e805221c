-- ===== src/Capidrv/Handlers/Calls.antt =====
-- Incoming calls in linux/drivers/isdn/capi/capidrv.c.
pub mod Free
use capi4linux.Prelude.{
  ℕ, zero, suc, ◌+◌, ◌-◌, Bool, true, false, ◌&&◌, ◌||◌, Option, none, some, List, [], ◌∷◌, ltb,
  leb, ◌==◌, if◌then◌else◌, ◌>>=◌,
}
use capi4linux.Memory.{Mem}
use capi4linux.Cmsg.Struct.{Cmsg, CStruct}
use capi4linux.Cmsg.Fields.{set_num, reject, called_party_number, calling_party_number, cip_value}
use capi4linux.Cmsg.Fill.{capi_cmsg_answer}
use capi4linux.Cmsg.Fill.Requests.{fill_alert_req}
use capi4linux.Capidrv.Tables.{st_plci_incoming, ev_plci_connect_ind, ev_plci_connect_reject}
use capi4linux.Capidrv.Card.{
  Bchan, Card, icall, emit, next_msgid, set_bchan, set_plci, send_message,
}
use capi4linux.Capidrv.Nodes.{new_plci}
use capi4linux.Capidrv.Change.{plci_change_state}
use capi4linux.Capidrv.Handlers.{Isdn, adr, when_found}

-- The entry at a place of an array, and 0 behind its end.
abbrev pub entry : ℕ → List ℕ → ℕ
entry i [] = 0
entry zero (x ∷ xs) = x
entry (suc i) (x ∷ xs) = entry i xs

-- `cip2si1`.
unfoldable pub cip2si1 : ℕ → ℕ
cip2si1 cipval = entry (if ltb 31 cipval then 0 else cipval) (
    7 ∷ 1 ∷ 7 ∷ 7 ∷ 1 ∷ 1 ∷ 7 ∷ 7 ∷ 7 ∷ 1 ∷ 0 ∷ 0 ∷ 0 ∷ 0 ∷ 0 ∷ 0 ∷ 1 ∷ 2 ∷ 4 ∷ 10 ∷ 9 ∷ 9 ∷ 15 ∷ 7
    ∷ 7 ∷ 7 ∷ 1 ∷ 16 ∷ 16 ∷ 0 ∷ 0 ∷ 0 ∷ [])

-- `cip2si2`.
unfoldable pub cip2si2 : ℕ → ℕ
cip2si2 cipval = entry (if ltb 31 cipval then 0 else cipval) (
    0 ∷ 0 ∷ 0 ∷ 0 ∷ 2 ∷ 3 ∷ 0 ∷ 0 ∷ 0 ∷ 3 ∷ 0 ∷ 0 ∷ 0 ∷ 0 ∷ 0 ∷ 0 ∷ 1 ∷ 2 ∷ 0 ∷ 0 ∷ 9 ∷ 0 ∷ 0 ∷ 0
    ∷ 0 ∷ 0 ∷ 3 ∷ 2 ∷ 3 ∷ 0 ∷ 0 ∷ 0 ∷ [])

abbrev pub has_plci : Bchan → Bool
has_plci b = elim b.plcip [ none ↦ false | some _ ↦ true ]

-- The loop of `new_bchan`, with the channels that are left, from channel `i`; `none` for -1.
unfoldable pub free_chan : (ℕ → Bchan) → ℕ → ℕ → Option ℕ
free_chan bchans zero i = none
free_chan bchans (suc left) i =
    let rest = free_chan bchans left (i + 1) in if has_plci (bchans i) then rest else some i

-- The end of `new_bchan`: the channel, or `none` for -1.
unfoldable pub found_chan : Card → Option ℕ → Option (Option ℕ × Card)
unfolding set_bchan
found_chan s none = some (none, s)
found_chan s (some chan) =
    set_bchan chan (λ b. record b { disconnecting = false }) s >>= λ s'. some (some chan, s')

-- `new_bchan`.
unfoldable pub new_bchan : Card → Option (Option ℕ × Card)
unfolding free_chan found_chan
new_bchan s = found_chan s (free_chan s.bchans s.nbchan 0)

-- A copy of a number, from the place `skip` of a structure on, with `strncpy`. It has `bytes[0] - less`
-- characters, which a `size_t` holds: less than 0 is a huge length.
abbrev pub copy_number : ℕ → ℕ → CStruct → Option Mem
copy_number less size none = none
copy_number less size (some m) = if leb less (m 0) && leb (m 0) (less + size) then some m else none

-- The second service indicator that ISDN4Linux is told, patched for VBOX.
unfoldable pub setup_si2 : ℕ → ℕ
unfolding cip2si1 cip2si2
setup_si2 cipval = if cip2si1 cipval == 1 then 0 else cip2si2 cipval

-- A call that is refused.
unfoldable pub refuse_call : ℕ → Cmsg → ℕ → Card → Option Card
unfolding capi_cmsg_answer set_num send_message plci_change_state
refuse_call why c p s =
    send_message (set_num reject why (capi_cmsg_answer c)) s
    >>= plci_change_state p ev_plci_connect_reject

-- A call that a device may take: alert, unless it was taken already.
unfoldable pub alert_call : ℕ → Card → Option Card
unfolding fill_alert_req next_msgid set_plci send_message
alert_call p s = s.plcis p >>= λ q.
    if q.state == st_plci_incoming
    then set_plci p (λ q. record q { msgid = s.msgid }) (next_msgid s)
      >>= send_message (fill_alert_req s.ap_id s.msgid q.plci none none none none)
    else some s

-- `switch (card->interface.statcallb(&cmd))`.
unfoldable pub take_answer : Cmsg → ℕ → ℕ × Card → Option Card
unfolding refuse_call alert_call
take_answer c p (answer, s) =
    if (answer == 0) || (answer == 3)
    then refuse_call 1 c p s
    else if answer == 1
    then alert_call p s
    else if answer == 2
    then refuse_call 2 c p s
    else refuse_call 8 c p s

-- What ISDN4Linux is told of a call: the two numbers as copied, with plan and screen, and the
-- service.
unfoldable pub tell_call : Isdn → Cmsg → ℕ → Card → Option (ℕ × Card)
unfolding emit cip2si1 setup_si2
tell_call i c chan s = copy_number 2 i.phone_size (c.structs calling_party_number) >>= λ calling.
    copy_number 1 i.eazmsn_size (c.structs called_party_number) >>= λ called. i.ring chan (
      emit
        (icall chan (some calling) (some called) (cip2si1 (c.nums cip_value))
          (setup_si2 (c.nums cip_value)))
        s)

-- `handle_incoming_call` with a channel and memory for its PLCI.
unfoldable pub offer_call : Isdn → Cmsg → ℕ → Card → Option Card
unfolding set_bchan new_plci set_plci plci_change_state tell_call take_answer
offer_call i c chan s = new_plci chan s >>= λ s1.
    set_bchan chan (λ b. record b { incoming = true }) s1 >>= λ s2.
    set_plci s.fresh (λ q. record q { plci = adr c }) s2 >>= λ s3.
    plci_change_state s.fresh ev_plci_connect_ind s3 >>= λ s4.
    tell_call i c chan s4 >>= take_answer c s.fresh

-- `handle_incoming_call`, when `new_bchan` has answered.
abbrev pub incoming_on : Isdn → Cmsg → Option ℕ × Card → Option Card
incoming_on i c (none, s) = some s
incoming_on i c (some chan, s) = if i.memory then offer_call i c chan s else some s

-- `handle_incoming_call`.
unfoldable pub handle_incoming_call : Isdn → Cmsg → Card → Option Card
unfolding new_bchan offer_call
handle_incoming_call i c s = new_bchan s >>= incoming_on i c
