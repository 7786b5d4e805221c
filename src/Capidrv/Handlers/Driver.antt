-- ===== src/Capidrv/Handlers/Driver.antt =====
-- The controllers of linux/drivers/isdn/capi/capidrv.c, the messages that come for them, and the data
-- that ISDN4Linux sends.
use capi4linux.Prelude.{
  ℕ, ◌+◌, ◌%◌, Bool, true, false, Option, none, some, List, [], ◌∷◌, ltb, ◌==◌, if◌then◌else◌,
  ◌>>=◌,
}
use capi4linux.Memory.{Mem, load16}
use capi4linux.Cmsg.Struct.{Cmsg}
use capi4linux.Cmsg.Fields.{info}
use capi4linux.Cmsg.Encode.{capi_cmsg2message}
use capi4linux.Cmsg.Decode.{capi_message2cmsg}
use capi4linux.Cmsg.Fill.Requests.{fill_listen_req, fill_data_b3_req}
use capi4linux.Capidrv.Tables.{
  st_ncci_active, ev_listen_req, ev_listen_conf_error, ev_listen_conf_empty, ev_listen_conf_ok,
}
use capi4linux.Capidrv.Card.{
  NcciNode, x75i, Bchan, Card, sent, emit, next_msgid, bchan_at, set_ncci, send_message, no_bytes,
}
use capi4linux.Capidrv.Nodes.{capidrv_add_ack, capidrv_del_ack}
use capi4linux.Capidrv.Change.{listen_change_state}
use capi4linux.Capidrv.Handlers.{Isdn, is, adr}
use capi4linux.Capidrv.Handlers.Plcis.{handle_plci}
use capi4linux.Capidrv.Handlers.Nccis.{handle_ncci, handle_data}
use capi4linux.Capidrv.Handlers.Commands.{Command, capidrv_command}

-- `send_listen`.
unfoldable pub send_listen : Card → Option Card
unfolding fill_listen_req next_msgid send_message listen_change_state
send_listen s =
    send_message (fill_listen_req s.ap_id s.msgid s.contrnr 64 s.cipmask s.cipmask2 none none)
      (next_msgid s)
    >>= λ s1. some (listen_change_state ev_listen_req s1)

-- A channel after `memset` and the setting of `contr`; the protocol with the number 0 is X.75i.
abbrev pub blank_bchan : Bchan
blank_bchan = record {
  contr = true;
  msn = [];
  num = [];
  mynum = [];
  l2 = x75i;
  l3 = 0;
  si1 = 0;
  si2 = 0;
  incoming = false;
  disconnecting = false;
  plcip = none;
  nccip = none;
}

-- The controller that `capidrv_addcontr` makes, before `send_listen`.
abbrev pub new_card : (ℕ → Bool) → ℕ → ℕ → ℕ → ℕ → Card
new_card alloc_skb ap_id contr myid nbchannel = record {
  ap_id = ap_id;
  contrnr = contr;
  myid = myid;
  state = 0;
  cipmask = 0x1FFF03FF;
  cipmask2 = 0;
  msgid = 0;
  nbchan = nbchannel;
  bchans = λ _. blank_bchan;
  plci_list = [];
  plcis = λ _. none;
  nccis = λ _. none;
  fresh = 0;
  alloc_skb = alloc_skb;
  allocs = 0;
  out = [];
}

-- What `CAPI_LISTEN_CONF` is for the state machine.
abbrev pub listen_event : ℕ → ℕ → ℕ
listen_event info cipmask =
    if info == 0
    then (if cipmask == 0 then ev_listen_conf_empty else ev_listen_conf_ok)
    else ev_listen_conf_error

-- `CAPI_LISTEN_CONF` in `handle_controller`.
unfoldable pub listen_conf : Cmsg → Card → Card
unfolding listen_change_state
listen_conf c s =
    if is 0x05 0x81 c then listen_change_state (listen_event (c.nums info) s.cipmask) s else s

-- The round of `capidrv_recv_message` for one message, with the data behind it, on the card that it is
-- for.
unfoldable pub receive : Isdn → Cmsg → Mem → ℕ → Card → Option Card
unfolding handle_data handle_plci handle_ncci listen_conf
receive i c bytes len s =
    if is 0x86 0x82 c
    then handle_data c bytes len s
    else if ltb (adr c) 256
    then some (listen_conf c s)
    else if ltb (adr c) 65536
    then handle_plci i c s
    else handle_ncci i c s

-- What is done to the first card that passes a test; nothing, when there is none. It is how
-- `findcontrbynumber` and `findcontrbydriverid` are used.
unfoldable pub on_card : (Card → Bool) → (Card → Option Card) → List Card → Option (List Card)
on_card test f [] = some []
on_card test f (s ∷ cards) =
    let rest = on_card test f cards >>= λ cards'. some (s ∷ cards') in
    if test s then (f s >>= λ s'. some (s' ∷ cards)) else rest

-- The data behind a message of `total` bytes with its data: `skb_pull` of the length in the message.
abbrev pub data_behind : Isdn → Mem → ℕ → Mem × ℕ
data_behind i m total = i.skb_pull (load16 m 0) (m, total)

-- The round of `capidrv_recv_message` for one message.
unfoldable pub recv_round : Isdn → Mem × ℕ → List Card → Option (List Card)
unfolding on_card receive capi_message2cmsg
recv_round i (m, total) cards = capi_message2cmsg m >>= λ c.
    on_card (λ s. s.contrnr == adr c % 128)
      (receive i c (data_behind i m total).0 (data_behind i m total).1) cards

-- `capidrv_recv_message`, with the messages that `get_capi_message` gives until the queue is empty.
-- A message whose command has no row in `cpars` has no structure.
unfoldable pub capidrv_recv_message : Isdn → List (Mem × ℕ) → List Card → Option (List Card)
unfolding recv_round
capidrv_recv_message i [] cards = some cards
capidrv_recv_message i (m ∷ ms) cards = recv_round i m cards >>= capidrv_recv_message i ms

-- What `put_capi_message` says of a message: taken, the queue is full, or another error.
pub data Put : Type 0 where
  taken queue_full refused_message : Put

-- What `if_sendbuf` returns: a length, 0, or -1.
pub data SendReply : Type 0 where
  length_of : ℕ → SendReply
  nothing_sent send_failed : SendReply

-- The end of `if_sendbuf`: with the message taken the next data have the next handle; otherwise the
-- acknowledgement is taken back.
unfoldable pub sendbuf_end : Put → ℕ → ℕ → ℕ → Cmsg → Card → Option (SendReply × Card)
unfolding set_ncci emit capidrv_del_ack
sendbuf_end taken n datahandle len c s = capi_cmsg2message c no_bytes >>= λ m.
    set_ncci n (λ k. record k { datahandle = (k.datahandle + 1) % 65536 }) s >>= λ s1.
    some (length_of len, emit (sent m) s1)
sendbuf_end queue_full n datahandle len c s =
    set_ncci n (λ k. record k { ackqueue = (capidrv_del_ack datahandle k.ackqueue).1 }) s >>= λ s1.
    some (nothing_sent, s1)
sendbuf_end refused_message n datahandle len c s =
    set_ncci n (λ k. record k { ackqueue = (capidrv_del_ack datahandle k.ackqueue).1 }) s >>= λ s1.
    some (send_failed, s1)

-- `if_sendbuf` for an NCCI that is up. No memory for a larger headroom ends as a full queue does;
-- `address` is that of the data.
unfoldable pub send_up : Isdn → Put → ℕ → ℕ → Bool → ℕ → NcciNode → Card → Option (SendReply × Card)
unfolding capidrv_add_ack sendbuf_end next_msgid set_ncci fill_data_b3_req
send_up i put address len doack n k s =
    if i.memory
    then (set_ncci n
          (λ k1. record k1 {
            ackqueue = capidrv_add_ack k.datahandle (if doack then some len else none) k1.ackqueue;
          })
          (next_msgid s)
        >>= sendbuf_end put n k.datahandle len
            (fill_data_b3_req s.ap_id s.msgid k.ncci address len k.datahandle 0))
    else some (nothing_sent, next_msgid s)

-- `if_sendbuf`, for the channel's NCCI.
abbrev pub send_on : Isdn → Put → ℕ → ℕ → Bool → Card → Option ℕ → Option (SendReply × Card)
send_on i put address len doack s none = some (nothing_sent, s)
send_on i put address len doack s (some n) = s.nccis n >>= λ k.
    if k.state == st_ncci_active
    then send_up i put address len doack n k s
    else some (nothing_sent, s)

-- `if_sendbuf`.
unfoldable pub if_sendbuf : Isdn → Put → ℕ → ℕ → Bool → ℕ → Card → Option (SendReply × Card)
unfolding bchan_at send_up
if_sendbuf i put address len doack channel s =
    bchan_at (channel % s.nbchan) s >>= λ b. send_on i put address len doack s b.nccip

-- What comes to a controller that is up: a message with its length with data, a command, data to send
-- with what becomes of them, and the timer.
pub data Event : Type 0 where
  message : Mem → ℕ → Event
  command : Command → Event
  sendbuf : Put → ℕ → ℕ → Bool → ℕ → Event
  listentimer : Event

-- The card after an event.
abbrev pub step : Isdn → Event → Card → Option Card
step i (message m total) s =
    capi_message2cmsg m >>= λ c. receive i c (data_behind i m total).0 (data_behind i m total).1 s
step i (command c) s = capidrv_command i c s >>= λ r. some r.1
step i (sendbuf put address len doack channel) s =
    if_sendbuf i put address len doack channel s >>= λ r. some r.1
step i listentimer s = send_listen s
