-- ===== src/Capidrv/Handlers/Commands.antt =====
-- `capidrv_command` of linux/drivers/isdn/capi/capidrv.c: the commands of ISDN4Linux.
use capi4linux.Prelude.{
  ℕ, zero, suc, ◌+◌, ◌%◌, Bool, true, false, Option, none, some, List, [], ◌∷◌, ltb, ◌==◌,
  if◌then◌else◌, ◌>>=◌, length,
}
use capi4linux.Cmsg.Struct.{Cmsg, CStruct}
use capi4linux.Cmsg.Fill.Requests.{fill_connect_req, fill_disconnect_req, fill_disconnect_b3_req}
use capi4linux.Cmsg.Fill.Responses.{fill_connect_resp}
use capi4linux.Capidrv.Tables.{
  st_plci_incoming, ev_plci_connect_req, ev_plci_connect_resp, ev_plci_disconnect_req,
  ev_ncci_disconnect_b3_req,
}
use capi4linux.Capidrv.Card.{
  Layer2, Bchan, Card, dhup, emit, next_msgid, bchan_at, set_bchan, set_plci, send_message,
}
use capi4linux.Capidrv.Nodes.{new_plci}
use capi4linux.Capidrv.Change.{plci_change_state, ncci_change_state}
use capi4linux.Capidrv.Handlers.{Isdn}
use capi4linux.Capidrv.Handlers.Plcis.{set_disconnecting}
use capi4linux.Capidrv.Handlers.Protocols.{b1prot, b2prot, b3prot, b1config, si2cip, structure}
use capi4linux.Capidrv.Handlers.Leased.{
  Leased, not_leased, refused, channels, decode_fv_teln, additional_info_of,
}

-- `isdn_ctrl`, by `ISDN_CMD_`, with the channel and the parameters that are read; the argument of
-- SETL2 and SETL3 is split into its channel and the protocol. A text is its characters, without the
-- NUL.
pub data Command : Type 0 where
  ioctl : ℕ → Command
  dial : ℕ → List ℕ → ℕ → ℕ → List ℕ → Command
  acceptd : ℕ → Command
  acceptb : Command
  hangup : ℕ → Command
  setl2 : ℕ → Layer2 → Command
  setl3 : ℕ → ℕ → Command
  seteaz : ℕ → List ℕ → Command
  clreaz : ℕ → Command
  other_command : Command

-- What a command returns: 0, `-EINVAL`, `-ENOSYS`, or -1.
pub data Reply : Type 0 where
  fine einval enosys failed : Reply

abbrev pub reply : Reply → Option Card → Option (Reply × Card)
reply r m = m >>= λ s. some (r, s)

-- `c->arg % card->nbchan`.
abbrev pub chan_of : ℕ → Card → ℕ
chan_of arg s = arg % s.nbchan

-- A copy of a text with `strncpy` and its use as a text: one that fills its place has no end.
abbrev pub copy_text : ℕ → List ℕ → Option (List ℕ)
copy_text size text = if ltb (length text) size then some text else none

-- The number to call, and the own one, with their types of number.
abbrev pub called_number : List ℕ → CStruct
called_number num = structure ((length num + 1) ∷ 0x80 ∷ num)

abbrev pub calling_number : List ℕ → CStruct
calling_number mynum = structure ((length mynum + 2) ∷ 0 ∷ 0x80 ∷ mynum)

-- The `CONNECT_REQ` for a channel: numbers, or the channels of a leased line.
unfoldable pub connect_req : Card → Bchan → CStruct → CStruct → CStruct → Cmsg
unfolding fill_connect_req b1prot b2prot b3prot b1config si2cip
connect_req s b called calling line =
    fill_connect_req s.ap_id s.msgid s.contrnr (si2cip b.si1 b.si2) called calling none none
      (b1prot b.l2) (b2prot b.l2) (b3prot b.l2) (b1config b.l2) none none none none none line none
      none none

-- The message of a call, and whether the line is leased.
unfoldable pub dial_message : Card → Bchan → Leased → Cmsg × Bool
unfolding connect_req additional_info_of
dial_message s b (channels bmask active) = (
  connect_req s b (structure (0 ∷ [])) (structure (0 ∷ [])) (additional_info_of bmask active),
  true,
)
dial_message s b not_leased =
    (connect_req s b (called_number b.num) (calling_number b.mynum) none, false)
dial_message s b (refused _) =
    (connect_req s b (called_number b.num) (calling_number b.mynum) none, false)

-- A PLCI for the message of a call, and sending it.
unfoldable pub dial_plci : ℕ → Cmsg × Bool → Card → Option Card
unfolding new_plci set_plci plci_change_state send_message
dial_plci chan (c, leased) s = new_plci chan s >>= λ s1.
    set_plci s.fresh (λ q. record q { msgid = c.messagenumber; leasedline = leased }) s1 >>= λ s2.
    plci_change_state s.fresh ev_plci_connect_req s2 >>= send_message c

unfoldable pub dial_send : Isdn → ℕ → Cmsg × Bool → Card → Option (Reply × Card)
unfolding dial_plci emit
dial_send i chan c s =
    if i.memory then reply fine (dial_plci chan c s) else some (failed, emit (dhup chan) s)

-- `ISDN_CMD_DIAL` on a channel that is free, with the sizes of `num` and `mynum`.
unfoldable pub dial_free : Isdn → ℕ → List ℕ → ℕ → ℕ → List ℕ → Card → Option (Reply × Card)
unfolding set_bchan bchan_at decode_fv_teln dial_message dial_send next_msgid
dial_free i chan phone si1 si2 eazmsn s = copy_text i.msnlen phone >>= λ num.
    copy_text i.msnlen eazmsn >>= λ mynum.
    set_bchan chan (λ b. record b { si1 = si1; si2 = si2; num = num; mynum = mynum }) s >>= λ s1.
    bchan_at chan s1 >>= λ b.
    dial_send i chan (dial_message s1 b (decode_fv_teln i.shl1 num)) (next_msgid s1)

-- `ISDN_CMD_DIAL`; a channel that is in use stays as it is.
abbrev pub dial_on : Isdn → ℕ → List ℕ → ℕ → ℕ → List ℕ → Card → Option ℕ → Option (Reply × Card)
dial_on i chan phone si1 si2 eazmsn s (some p) = some (fine, s)
dial_on i chan phone si1 si2 eazmsn s none = dial_free i chan phone si1 si2 eazmsn s

-- `ISDN_CMD_ACCEPTD`.
unfoldable pub accept_call : ℕ → Card → Option Card
unfolding bchan_at fill_connect_resp b1prot b2prot b3prot b1config next_msgid plci_change_state
    send_message
accept_call chan s = bchan_at chan s >>= λ b. b.plcip >>= λ p. s.plcis p >>= λ q.
    plci_change_state p ev_plci_connect_resp (next_msgid s)
    >>= send_message (
        fill_connect_resp s.ap_id s.msgid q.plci 0 (b1prot b.l2) (b2prot b.l2) (b3prot b.l2)
          (b1config b.l2) none none none none none none none none none)

-- `ISDN_CMD_HANGUP` on a channel with an NCCI.
unfoldable pub hangup_ncci : ℕ → ℕ → Card → Option Card
unfolding set_bchan next_msgid fill_disconnect_b3_req ncci_change_state send_message
hangup_ncci chan n s = set_disconnecting chan s >>= λ s1. s1.nccis n >>= λ k.
    ncci_change_state n ev_ncci_disconnect_b3_req (next_msgid s1)
    >>= send_message (fill_disconnect_b3_req s1.ap_id s1.msgid k.ncci none)

-- And on a channel with a PLCI whose number is known.
unfoldable pub hangup_known : ℕ → ℕ → ℕ → Card → Option Card
unfolding set_bchan next_msgid fill_disconnect_req plci_change_state send_message
hangup_known chan p plci s = set_disconnecting chan s >>= λ s1.
    plci_change_state p ev_plci_disconnect_req (next_msgid s1)
    >>= send_message (fill_disconnect_req s1.ap_id s1.msgid plci none none none none)

-- A call that comes in is left to its handler.
unfoldable pub hangup_plci : ℕ → ℕ → Card → Option (Reply × Card)
unfolding set_bchan hangup_known
hangup_plci chan p s = s.plcis p >>= λ q.
    if q.state == st_plci_incoming
    then reply fine (set_disconnecting chan s)
    else if q.plci == 0
    then some (einval, s)
    else reply fine (hangup_known chan p q.plci s)

abbrev pub hangup_nodes : ℕ → Card → Option ℕ → Option ℕ → Option (Reply × Card)
hangup_nodes chan s (some n) _ = reply fine (hangup_ncci chan n s)
hangup_nodes chan s none (some p) = hangup_plci chan p s
hangup_nodes chan s none none = some (einval, s)

-- `ISDN_CMD_HANGUP`.
unfoldable pub hangup_call : ℕ → Card → Option (Reply × Card)
unfolding bchan_at hangup_ncci hangup_plci
hangup_call chan s = bchan_at chan s >>= λ b.
    if b.disconnecting then some (fine, s) else hangup_nodes chan s b.nccip b.plcip

-- The first characters of a text.
abbrev pub first_bytes : ℕ → List ℕ → List ℕ
first_bytes zero xs = []
first_bytes (suc n) [] = []
first_bytes (suc n) (x ∷ xs) = x ∷ first_bytes n xs

-- `capidrv_command`.
unfoldable pub capidrv_command : Isdn → Command → Card → Option (Reply × Card)
unfolding set_bchan bchan_at dial_free accept_call hangup_call
capidrv_command i (ioctl arg) s = some ((if arg == 1 then fine else einval), s)
capidrv_command i (dial arg phone si1 si2 eazmsn) s =
    bchan_at (chan_of arg s) s >>= λ b. dial_on i (chan_of arg s) phone si1 si2 eazmsn s b.plcip
capidrv_command i (acceptd arg) s = reply fine (accept_call (chan_of arg s) s)
capidrv_command i acceptb s = some (enosys, s)
capidrv_command i (hangup arg) s = hangup_call (chan_of arg s) s
capidrv_command i (setl2 arg l) s =
    reply fine (set_bchan (chan_of arg s) (λ b. record b { l2 = l }) s)
capidrv_command i (setl3 arg l) s =
    reply fine (set_bchan (chan_of arg s) (λ b. record b { l3 = l }) s)
capidrv_command i (seteaz arg num) s =
    reply fine (set_bchan (chan_of arg s) (λ b. record b { msn = first_bytes i.msnlen num }) s)
capidrv_command i (clreaz arg) s =
    reply fine (set_bchan (chan_of arg s) (λ b. record b { msn = [] }) s)
capidrv_command i other_command s = some (einval, s)
