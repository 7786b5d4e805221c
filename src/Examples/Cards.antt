-- ===== src/Examples/Cards.antt =====
-- Controllers, messages and commands for linux/drivers/isdn/capi/capidrv.c.
use capi4linux.Prelude.{
  ℕ, ◌-◌, ◌==◌, ◌<◌, ◌≡◌, refl, ap, Bool, true, false, none, some, List, [], ◌∷◌, arith, ◌>>=◌,
}
use mathlib.Core.Path.{subst}
use mathlib.Core.Bool.{false≢true}
use capi4linux.Memory.{Mem, shift}
use capi4linux.Cmsg.Table.{cpars, command_2_index, typ, cdef_typ}
use capi4linux.Cmsg.Decode.{get_par, message_2_pars, start, get_header, capi_message2cmsg}
use capi4linux.Cmsg.Struct.{Cmsg, zeroed, update, update_self}
use capi4linux.Capidrv.Tables.{plcitable, find_row}
use capi4linux.Capidrv.Tables.Paths.{next_state, run_events, plcitable-liveness}
use capi4linux.Cmsg.Encode.{capi_cmsg2message}
use capi4linux.Cmsg.Fill.{capi_cmsg_answer}
use capi4linux.Capidrv.Card.{PlciNode, Card, sent, no_bytes}
use capi4linux.Capidrv.Nodes.{new_node}
use capi4linux.Capidrv.Links.{Good, Safe}
use capi4linux.Capidrv.Links.Writes.{written_plci-Good}
use capi4linux.Capidrv.Links.NewPlci.{with_plci, added-Links}
use capi4linux.Capidrv.Links.NewNcci.{with_ncci, more-Links}
use capi4linux.Capidrv.Handlers.{Isdn}
use capi4linux.Capidrv.Handlers.Plcis.{disconnect_ind}
use capi4linux.Capidrv.Handlers.Calls.{entry, new_bchan}
use capi4linux.Capidrv.Handlers.Calls.Free.{FirstFree, new_bchan-first}
use capi4linux.Capidrv.Handlers.Commands.{Command, dial, accept_call}
use capi4linux.Capidrv.Handlers.Driver.{
  new_card, send_listen, command, queue_full, if_sendbuf, capidrv_recv_message,
}
use capi4linux.Capidrv.Trace.{Q931, dtrace_text, handle_dtrace_data, if_readstat}
use capi4linux.Capidrv.Trace.Ring.{if_readstat-handle_dtrace_data}
use capi4linux.Capidrv.Safety.Calls.{Calm}
use capi4linux.Capidrv.Safety.Commands.{accept_call-Steady}
use capi4linux.Capidrv.Safety.Disconnect.{Freed, disconnect_ind-Freed}
use capi4linux.Capidrv.Safety.Sending.{Keeps, send_listen-Safe, if_sendbuf-Answers}
use capi4linux.Capidrv.Safety.Life.{
  new_card-Good, AllGood, SoundMessage, capidrv_recv_message-AllGood,
}

-- There is a buffer for every message.
abbrev always : ℕ → Bool
always = λ _. true

-- A controller with two channels, and no PLCI.
abbrev idle_card : Card
idle_card = new_card always 1 1 0 2

two_channels : 0 < 2
two_channels = omega arith

idle_card-Good : Good idle_card
idle_card-Good = new_card-Good always 1 1 0 2 (λ n. refl) two_channels

-- With a PLCI on channel 0, which is active.
abbrev called_card : Card
called_card = with_plci idle_card idle_card-Good 0 two_channels refl

called_card-Good : Good called_card
called_card-Good = added-Links idle_card idle_card-Good 0 two_channels refl

abbrev active_plci : PlciNode
active_plci = record (new_node 0) { plci = 0x101; state = 3 }

abbrev busy_card : Card
busy_card = record called_card { plcis = update 0 (some active_plci) called_card.plcis }

called_plci : called_card.plcis 0 ≡ some (new_node 0)
called_plci = update_self 0 (some (new_node 0)) (λ _. none)

busy_card-Good : Good busy_card
busy_card-Good =
    written_plci-Good called_card called_card-Good 0 (new_node 0) active_plci called_plci refl refl

busy_plci : busy_card.plcis 0 ≡ some active_plci
busy_plci = update_self 0 (some active_plci) called_card.plcis

-- With an NCCI.
abbrev up_card : Card
up_card = with_ncci busy_card busy_card-Good 0 active_plci busy_plci 0x10101

up_card-Good : Good up_card
up_card-Good = more-Links busy_card busy_card-Good 0 active_plci busy_plci 0x10101

-- An ISDN4Linux that accepts every call.
abbrev accepting : Isdn
accepting = record {
  msnlen = 32;
  phone_size = 32;
  eazmsn_size = 32;
  ring = λ chan s. accept_call chan s >>= λ s'. some (1, s');
  memory = true;
  skb_pull = λ n (m, len). (shift m n, len - n);
  shl1 = λ i j. i == j;
}

accepting-Calm : Calm accepting
accepting-Calm chan p s g own =
    let (q, at, on) = g.on_chan chan p own in
    let inside = subst (λ c. c < s.nbchan) on (g.owner p q at).0 in
    let (s1, e, g1, stay) = accept_call-Steady s g chan inside p own in
    (1, s1, ap (λ x. x >>= λ s'. some (1, s')) e, g1, stay)

abbrev disconnected : Cmsg
disconnected = record zeroed { command = 0x04; subcommand = 0x82; nums = λ _. 0x101 }

-- Calling 12 from 3.
abbrev call_12 : Command
call_12 = dial 0 (49 ∷ 50 ∷ []) 1 0 (51 ∷ [])

abbrev started : Safe (send_listen idle_card)
started = send_listen-Safe idle_card idle_card-Good

-- The bytes of a `DISCONNECT_IND` for the PLCI 0x101.
abbrev disconnect_bytes : Mem
disconnect_bytes = λ i. entry i (14 ∷ 0 ∷ 1 ∷ 0 ∷ 0x04 ∷ 0x82 ∷ 1 ∷ 0 ∷ 1 ∷ 1 ∷ 0 ∷ 0 ∷ 0 ∷ 0 ∷ [])

disconnect_bytes-SoundMessage : SoundMessage accepting disconnect_bytes
unfolding capi_message2cmsg message_2_pars start get_header get_par cpars command_2_index typ
    cdef_typ
disconnect_bytes-SoundMessage = (_, refl, (λ e. absurd (false≢true e), λ e. absurd (false≢true e)))

capidrv_recv_message-AllGood_example :
    (cards' : List Card) × (capidrv_recv_message accepting
        ((disconnect_bytes, 14) ∷ [])
        (busy_card ∷ [])
      ≡ some cards')
    × AllGood cards'
capidrv_recv_message-AllGood_example =
    capidrv_recv_message-AllGood accepting ((disconnect_bytes, 14) ∷ []) (busy_card ∷ [])
      accepting-Calm (disconnect_bytes-SoundMessage, tt) (busy_card-Good, tt)

disconnect_ind-Freed_example :
    (s' : Card) × (m : Mem) × (disconnect_ind disconnected 0 busy_card ≡ some s')
    × (capi_cmsg2message (capi_cmsg_answer disconnected) no_bytes ≡ some m)
    × Freed 0 active_plci (sent m ∷ []) s'
unfolding next_state find_row
disconnect_ind-Freed_example =
    disconnect_ind-Freed disconnected busy_card 0 active_plci busy_card-Good refl busy_plci refl

if_sendbuf-Answers_example : Keeps up_card (if_sendbuf accepting queue_full 0 100 true 0 up_card)
if_sendbuf-Answers_example =
    if_sendbuf-Answers accepting queue_full 0 100 true up_card up_card-Good 0

plcitable-liveness_example : (es : List ℕ) × (run_events plcitable 3 es ≡ 0)
plcitable-liveness_example = plcitable-liveness 3 (omega arith)

new_bchan-first_example : FirstFree busy_card (new_bchan busy_card)
new_bchan-first_example = new_bchan-first busy_card

-- A ring of 16 characters, near its end.
abbrev ring : Q931
ring = record { buf = λ _. 0; read = 12; write = 12; end = 15 }

if_readstat-handle_dtrace_data_example :
    (n : ℕ) × ((handle_dtrace_data true false (0xab ∷ 0x01 ∷ []) ring).0 ≡ some n)
    × ((if_readstat n (handle_dtrace_data true false (0xab ∷ 0x01 ∷ []) ring).1).0
        ≡ dtrace_text true false (0xab ∷ 0x01 ∷ []))
if_readstat-handle_dtrace_data_example =
    if_readstat-handle_dtrace_data true false 0xab (0x01 ∷ []) ring refl (omega arith) (omega arith)
