-- ===== src/Capidrv/Handlers/Nccis.antt =====
-- `handle_ncci` and `handle_data` of linux/drivers/isdn/capi/capidrv.c.
use capi4linux.Prelude.{ℕ, true, Option, none, some, List, ◌==◌, if◌then◌else◌, ◌>>=◌}
use capi4linux.Memory.{Mem}
use capi4linux.Cmsg.Struct.{Cmsg}
use capi4linux.Cmsg.Fields.{info, data_handle}
use capi4linux.Cmsg.Fill.{capi_cmsg_answer}
use capi4linux.Cmsg.Fill.Responses.{fill_connect_b3_resp}
use capi4linux.Capidrv.Tables.{
  ev_ncci_connect_b3_active_ind, ev_ncci_connect_b3_ind, ev_ncci_connect_b3_resp,
  ev_ncci_connect_b3_conf_error, ev_ncci_connect_b3_conf_ok, ev_ncci_disconnect_b3_ind,
  ev_ncci_disconnect_b3_resp, ev_ncci_disconnect_b3_conf_error, ev_ncci_reset_b3_ind,
}
use capi4linux.Capidrv.Card.{
  Card, bconn, bsent, received, emit, next_msgid, set_bchan, set_ncci, send_message,
}
use capi4linux.Capidrv.Nodes.{
  find_plci, find_plci_by_ncci, find_ncci, find_ncci_by_msgid, new_ncci, capidrv_del_ack,
}
use capi4linux.Capidrv.Change.{ncci_change_state}
use capi4linux.Capidrv.Handlers.{Isdn, is, adr, when_found, send_answer}

-- `CAPI_CONNECT_B3_ACTIVE_IND`.
unfoldable pub connect_b3_active_ind : Cmsg → ℕ → Card → Option Card
unfolding capi_cmsg_answer send_message ncci_change_state emit
connect_b3_active_ind c n s = send_answer c s >>= λ s1.
    ncci_change_state n ev_ncci_connect_b3_active_ind s1 >>= λ s2.
    s2.nccis n >>= λ k. some (emit (bconn k.chan) s2)

-- `CAPI_CONNECT_B3_IND` for the PLCI `p`.
unfoldable pub accept_b3 : Cmsg → ℕ → Card → Option Card
unfolding new_ncci ncci_change_state fill_connect_b3_resp next_msgid send_message
accept_b3 c p s = new_ncci p (adr c) s >>= λ s1.
    ncci_change_state s.fresh ev_ncci_connect_b3_ind s1 >>= λ s2. s2.nccis s.fresh >>= λ k.
    send_message (fill_connect_b3_resp s2.ap_id s2.msgid k.ncci 0 none) (next_msgid s2)
    >>= ncci_change_state s.fresh ev_ncci_connect_b3_resp

-- `CAPI_CONNECT_B3_IND` with no PLCI, or no memory.
unfoldable pub reject_b3 : Cmsg → Card → Option Card
unfolding fill_connect_b3_resp next_msgid send_message
reject_b3 c s = send_message (fill_connect_b3_resp s.ap_id s.msgid (adr c) 2 none) (next_msgid s)

-- `CAPI_CONNECT_B3_IND`.
abbrev pub connect_b3_ind : Isdn → Cmsg → Card → Option ℕ → Option Card
connect_b3_ind i c s none = reject_b3 c s
connect_b3_ind i c s (some p) = if i.memory then accept_b3 c p s else reject_b3 c s

-- `CAPI_CONNECT_B3_CONF`.
unfoldable pub connect_b3_conf : Cmsg → ℕ → Card → Option Card
unfolding set_ncci ncci_change_state
connect_b3_conf c n s =
    set_ncci n (λ k. record k { ncci = adr c }) s
    >>= ncci_change_state n
        (if c.nums info == 0 then ev_ncci_connect_b3_conf_ok else ev_ncci_connect_b3_conf_error)

-- Data that ISDN4Linux asked to be told of has left; nothing is told for -1.
abbrev pub tell_sent : ℕ → Option ℕ → Card → Card
tell_sent chan none s = s
tell_sent chan (some len) s = emit (bsent chan len) s

-- The queue without the acknowledgement, and what ISDN4Linux is told.
unfoldable pub sent_on : ℕ → ℕ → Option ℕ × List (ℕ × Option ℕ) → Card → Option Card
unfolding set_ncci emit
sent_on n chan (len, rest) s =
    set_ncci n (λ k. record k { ackqueue = rest }) s >>= λ s1. some (tell_sent chan len s1)

-- `CAPI_DATA_B3_CONF`.
unfoldable pub data_b3_conf : Cmsg → ℕ → Card → Option Card
unfolding capidrv_del_ack sent_on
data_b3_conf c n s =
    s.nccis n >>= λ k. sent_on n k.chan (capidrv_del_ack (c.nums data_handle) k.ackqueue) s

-- `CAPI_DISCONNECT_B3_IND`.
unfoldable pub disconnect_b3_ind : Cmsg → ℕ → Card → Option Card
unfolding set_bchan ncci_change_state capi_cmsg_answer send_message
disconnect_b3_ind c n s = s.nccis n >>= λ k.
    set_bchan k.chan (λ b. record b { disconnecting = true }) s >>= λ s1.
    ncci_change_state n ev_ncci_disconnect_b3_ind s1 >>= λ s2.
    send_answer c s2 >>= ncci_change_state n ev_ncci_disconnect_b3_resp

-- `CAPI_DISCONNECT_B3_CONF`.
unfoldable pub disconnect_b3_conf : Cmsg → ℕ → Card → Option Card
unfolding ncci_change_state
disconnect_b3_conf c n s =
    if c.nums info == 0 then some s else ncci_change_state n ev_ncci_disconnect_b3_conf_error s

-- `CAPI_RESET_B3_IND`.
unfoldable pub reset_b3_ind : Cmsg → ℕ → Card → Option Card
unfolding ncci_change_state capi_cmsg_answer send_message
reset_b3_ind c n s = ncci_change_state n ev_ncci_reset_b3_ind s >>= send_answer c

-- `handle_ncci`.
unfoldable pub handle_ncci : Isdn → Cmsg → Card → Option Card
unfolding find_plci find_ncci find_ncci_by_msgid connect_b3_active_ind accept_b3 reject_b3
    connect_b3_conf data_b3_conf disconnect_b3_ind disconnect_b3_conf reset_b3_ind capi_cmsg_answer
    send_message
handle_ncci i c s =
    if is 0x83 0x82 c
    then find_ncci (adr c) s >>= when_found (connect_b3_active_ind c) s
    else if is 0x82 0x82 c
    then find_plci_by_ncci (adr c) s >>= connect_b3_ind i c s
    else if is 0x82 0x81 c
    then find_ncci_by_msgid (adr c) c.messagenumber s >>= when_found (connect_b3_conf c) s
    else if is 0x88 0x82 c
    then send_answer c s
    else if is 0x86 0x81 c
    then find_ncci (adr c) s >>= when_found (data_b3_conf c) s
    else if is 0x84 0x82 c
    then find_ncci (adr c) s >>= when_found (disconnect_b3_ind c) s
    else if is 0x84 0x81 c
    then find_ncci (adr c) s >>= when_found (disconnect_b3_conf c) s
    else if is 0x87 0x82 c
    then find_ncci (adr c) s >>= when_found (reset_b3_ind c) s
    else some s

-- `handle_data` for an NCCI that is found: the `len` bytes of data behind the message go to
-- ISDN4Linux, and the message is answered.
unfoldable pub take_data : Cmsg → Mem → ℕ → ℕ → Card → Option Card
unfolding emit capi_cmsg_answer send_message
take_data c bytes len n s = s.nccis n >>= λ k. send_answer c (emit (received k.chan bytes len) s)

-- `handle_data`.
unfoldable pub handle_data : Cmsg → Mem → ℕ → Card → Option Card
unfolding find_ncci take_data
handle_data c bytes len s = find_ncci (adr c) s >>= when_found (take_data c bytes len) s
