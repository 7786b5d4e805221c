-- ===== src/Capidrv/Handlers/Plcis.antt =====
-- `handle_plci` of linux/drivers/isdn/capi/capidrv.c.
use capi4linux.Prelude.{ℕ, ◌+◌, ◌*◌, true, Option, none, some, ◌==◌, if◌then◌else◌, ◌>>=◌}
use capi4linux.Memory.{Mem}
use capi4linux.Cmsg.Struct.{Cmsg}
use capi4linux.Cmsg.Fields.{info, info_number, info_element}
use capi4linux.Cmsg.Fill.{capi_cmsg_answer}
use capi4linux.Cmsg.Fill.Requests.{fill_connect_b3_req}
use capi4linux.Capidrv.Tables.{
  ev_plci_disconnect_ind, ev_plci_disconnect_resp, ev_plci_connect_conf_error,
  ev_plci_connect_conf_ok, ev_plci_connect_active_ind, ev_ncci_connect_b3_req,
}
use capi4linux.Capidrv.Card.{
  Card, dconn, cinf, emit, next_msgid, bchan_at, set_bchan, set_plci, set_ncci, send_message,
}
use capi4linux.Capidrv.Nodes.{find_plci, find_plci_by_plci, find_plci_by_msgid, new_ncci}
use capi4linux.Capidrv.Change.{plci_change_state, ncci_change_state}
use capi4linux.Capidrv.Handlers.{Isdn, is, adr, when_found, send_answer}
use capi4linux.Capidrv.Handlers.Calls.{handle_incoming_call}

abbrev pub set_disconnecting : ℕ → Card → Option Card
set_disconnecting chan s = set_bchan chan (λ b. record b { disconnecting = true }) s

-- `CAPI_DISCONNECT_IND`, for the PLCI `p`.
unfoldable pub disconnect_ind : Cmsg → ℕ → Card → Option Card
unfolding set_bchan plci_change_state capi_cmsg_answer send_message
disconnect_ind c p s = s.plcis p >>= λ q. set_disconnecting q.chan s >>= λ s1.
    plci_change_state p ev_plci_disconnect_ind s1 >>= λ s2.
    send_answer c s2 >>= plci_change_state p ev_plci_disconnect_resp

-- `CAPI_DISCONNECT_IND`; the message is answered also when there is no such PLCI.
abbrev pub disconnect_ind_or_not : Cmsg → Card → Option ℕ → Option Card
disconnect_ind_or_not c s none = send_answer c s
disconnect_ind_or_not c s (some p) = disconnect_ind c p s

-- `CAPI_DISCONNECT_CONF`.
unfoldable pub disconnect_conf : ℕ → Card → Option Card
unfolding set_bchan
disconnect_conf p s = s.plcis p >>= λ q. set_disconnecting q.chan s

-- `CAPI_CONNECT_CONF`.
unfoldable pub connect_conf : Cmsg → ℕ → Card → Option Card
unfolding set_plci plci_change_state
connect_conf c p s =
    set_plci p (λ q. record q { plci = adr c }) s
    >>= plci_change_state p
        (if c.nums info == 0 then ev_plci_connect_conf_ok else ev_plci_connect_conf_error)

-- `CAPI_CONNECT_ACTIVE_IND` for a call that came in.
unfoldable pub active_incoming : Cmsg → ℕ → Card → Option Card
unfolding capi_cmsg_answer send_message plci_change_state
active_incoming c p s = send_answer c s >>= plci_change_state p ev_plci_connect_active_ind

-- A B channel for the PLCI `p`, where there is memory. The new NCCI has the number of the PLCI for
-- now.
unfoldable pub connect_b3 : Cmsg → ℕ → Card → Option Card
unfolding send_message new_ncci set_ncci next_msgid fill_connect_b3_req emit plci_change_state
    ncci_change_state
connect_b3 c p s = new_ncci p (adr c) s >>= λ s1. s1.plcis p >>= λ q.
    set_ncci s.fresh (λ k. record k { msgid = s1.msgid }) (next_msgid s1) >>= λ s2.
    send_message (fill_connect_b3_req s1.ap_id s1.msgid q.plci none) s2 >>= λ s3.
    plci_change_state p ev_plci_connect_active_ind (emit (dconn q.chan) s3)
    >>= ncci_change_state s.fresh ev_ncci_connect_b3_req

-- `CAPI_CONNECT_ACTIVE_IND` for a call of the driver's own.
unfoldable pub active_outgoing : Isdn → Cmsg → ℕ → Card → Option Card
unfolding capi_cmsg_answer send_message connect_b3
active_outgoing i c p s = send_answer c s >>= λ s1. if i.memory then connect_b3 c p s1 else some s1

-- `CAPI_CONNECT_ACTIVE_IND`.
unfoldable pub connect_active_ind : Isdn → Cmsg → ℕ → Card → Option Card
unfolding bchan_at active_incoming active_outgoing
connect_active_ind i c p s = s.plcis p >>= λ q.
    bchan_at q.chan s >>= λ b. if b.incoming then active_incoming c p s else active_outgoing i c p s

-- The charge of an information element.
abbrev pub tell_charge : ℕ → Mem → Card → Card
tell_charge chan m s =
    if m 0 == 4 then emit (cinf chan (m 1 + m 2 * 256 + m 3 * 65536 + m 4 * 16777216)) s else s

-- `CAPI_INFO_IND`.
unfoldable pub info_ind : Cmsg → ℕ → Card → Option Card
unfolding emit
info_ind c p s = s.plcis p >>= λ q.
    if c.nums info_number == 0x4000
    then (c.structs info_element >>= λ m. some (tell_charge q.chan m s))
    else some s

-- `handle_plci`.
unfoldable pub handle_plci : Isdn → Cmsg → Card → Option Card
unfolding find_plci disconnect_ind disconnect_conf handle_incoming_call connect_conf
    connect_active_ind info_ind send_message
handle_plci i c s =
    if is 0x04 0x82 c
    then find_plci_by_plci (adr c) s >>= disconnect_ind_or_not c s
    else if is 0x04 0x81 c
    then find_plci_by_plci (adr c) s >>= when_found disconnect_conf s
    else if is 0x02 0x82 c
    then handle_incoming_call i c s
    else if is 0x02 0x81 c
    then find_plci_by_msgid c.messagenumber s >>= when_found (connect_conf c) s
    else if is 0x03 0x82 c
    then find_plci_by_plci (adr c) s >>= when_found (connect_active_ind i c) s
    else if is 0x08 0x82 c
    then find_plci_by_plci (adr c) s >>= when_found (info_ind c) s
    else some s
