-- ===== src/Capidrv/Safety/Sending.antt =====
-- Data that are sent, and the acknowledgements that they wait for, in linux/drivers/isdn/capi/capidrv.c.
use capi4linux.Prelude.{
  ℕ, ◌+◌, ◌%◌, ◌≡◌, refl, ap, ◌∙◌, inl, inr, Bool, false, Option, none, some, List, [], ◌∷◌, ◌==◌,
  ◌>>=◌, if◌then◌else◌, arith, Bool-cases, lt→ltb, ==_iff,
}
use capi4linux.Cmsg.Struct.{Cmsg}
use capi4linux.Cmsg.Encode.{capi_cmsg2message}
use capi4linux.Cmsg.Encode.Total.{Encodes}
use capi4linux.Cmsg.Fill.Requests.{fill_data_b3_req}
use capi4linux.Cmsg.Fields.{info}
use capi4linux.Capidrv.Tables.{Row, find_row, listentable, st_ncci_active, ev_listen_req}
use capi4linux.Capidrv.Card.{NcciNode, Card, sent, emit, next_msgid, bchan_at, set_ncci, no_bytes}
use capi4linux.Capidrv.Nodes.{capidrv_add_ack, capidrv_del_ack}
use capi4linux.Capidrv.Change.{listen_change_state}
use capi4linux.Capidrv.Buffer.{data_b3_req-Encodes, listen_req-Sends}
use capi4linux.Capidrv.Links.{Linked, Stay, Good, Stay-refl, Stay-trans, Safe, Safe-bind, look}
use capi4linux.Capidrv.Links.Writes.{set_ncci-Linked}
use capi4linux.Capidrv.Links.Changes.{emit-Stay, next_msgid-Stay, send_next-Steady}
use capi4linux.Capidrv.Handlers.{Isdn, is}
use capi4linux.Capidrv.Handlers.Driver.{
  Put, taken, queue_full, refused_message, SendReply, length_of, nothing_sent, send_failed,
  send_listen, listen_event, listen_conf, sendbuf_end, send_up, send_on, if_sendbuf,
}

-- No acknowledgement of a queue has the handle.
abbrev NoAck : ℕ → List (ℕ × Option ℕ) → Type 0
NoAck h [] = Unit
NoAck h ((x, len) ∷ q) = ((x == h) ≡ false) × NoAck h q

-- An acknowledgement that is added under a handle that none has is what is taken for the handle,
-- and taking it gives the queue before.
capidrv_del_ack-add :
    (h : ℕ) (len : Option ℕ) (q : List (ℕ × Option ℕ))
    → NoAck h q
    → capidrv_del_ack h (capidrv_add_ack h len q) ≡ (len, q)
unfolding capidrv_add_ack capidrv_del_ack
capidrv_del_ack-add h len [] free = rw ((==_iff h h).1 refl)
capidrv_del_ack-add h len ((x, l) ∷ q) (other, free) =
    rw (other, capidrv_del_ack-add h len q free) refl

-- `listen_change_state` writes only the state.
pub listen_change_state-Good : (event : ℕ) (s : Card) → Good s → Good (listen_change_state event s)
unfolding listen_change_state
listen_change_state-Good event s g = row (find_row s.state event listentable)
  where
    row : (o : Option Row) → Good (elim o [ none ↦ s | some r ↦ record s { state = r.nextstate } ])
    row none = g
    row (some r) = g

pub listen_conf-Good : (c : Cmsg) (s : Card) → Good s → Good (listen_conf c s)
unfolding listen_conf
listen_conf-Good c s g = elim (Bool-cases (is 0x05 0x81 c)) [
  | inl conf ↦ rw conf (listen_change_state-Good (listen_event (c.nums info) s.cipmask) s g)
  | inr other ↦ rw other g
]

pub send_listen-Safe : (s : Card) → Good s → Safe (send_listen s)
unfolding send_listen
send_listen-Safe s g =
    Safe-bind s _ _
      (send_next-Steady s _ g (listen_req-Sends s.ap_id s.msgid s.contrnr 64 s.cipmask s.cipmask2))
      (λ s1 g1 stay1.
        (listen_change_state ev_listen_req s1, refl, listen_change_state-Good ev_listen_req s1 g1))

-- An answer comes; the links hold, and the nodes stay, as do the kernel's buffers.
abbrev pub Keeps : {A : Type 0} → Card → Option (A × Card) → Type 0
Keeps {A} s m =
    (r : A) × (s' : Card) × (m ≡ some (r, s'))
    × Linked s'
    × Stay s s'
    × (s'.alloc_skb ≡ s.alloc_skb)

module _ (s : Card) (g : Linked s) (n : ℕ) (k : NcciNode) (at : s.nccis n ≡ some k) where
  -- The acknowledgement is taken back.
  back :
      (r : SendReply) (h : ℕ)
      → Keeps s (
          set_ncci n (λ k. record k { ackqueue = (capidrv_del_ack h k.ackqueue).1 }) s >>= λ s1.
          some (r, s1))
  back r h =
      let (s1, e, g1, stay, same) =
        set_ncci-Linked s n k (λ k. record k { ackqueue = (capidrv_del_ack h k.ackqueue).1 }) g at
          refl refl in
      (r, s1, ap (λ x. x >>= λ s1. some (r, s1)) e, g1, stay, same)

  sendbuf_end-Answers :
      (put : Put) (h len : ℕ) (c : Cmsg) → Encodes c → Keeps s (sendbuf_end put n h len c s)
  unfolding sendbuf_end emit
  sendbuf_end-Answers taken h len c enc =
      let (m, e) = enc no_bytes in
      let (s1, e1, g1, stay, same) =
        set_ncci-Linked s n k (λ k. record k { datahandle = (k.datahandle + 1) % 65536 }) g at refl
          refl in
      look (Keeps s) (capi_cmsg2message c no_bytes) m _ e (
        length_of len,
        emit (sent m) s1,
        ap (λ x. x >>= λ s1. some (length_of len, emit (sent m) s1)) e1,
        g1,
        emit-Stay s s1 (sent m) stay,
        same,
      )
  sendbuf_end-Answers queue_full h len c enc = back nothing_sent h
  sendbuf_end-Answers refused_message h len c enc = back send_failed h

module _ (i : Isdn) (put : Put) (address len : ℕ) (doack : Bool) (s : Card) (g : Linked s) where
  send_up-Answers :
      (n : ℕ) (k : NcciNode) → s.nccis n ≡ some k → Keeps s (send_up i put address len doack n k s)
  unfolding send_up next_msgid
  send_up-Answers n k at = elim (Bool-cases i.memory) [
    | inr full ↦ rw full (nothing_sent, next_msgid s, refl, g, next_msgid-Stay s, refl)
    | inl memory ↦
        let add : NcciNode → NcciNode = λ k1. record k1 {
          ackqueue = capidrv_add_ack k.datahandle (if doack then some len else none) k1.ackqueue;
        } in
        let (s1, e, g1, stay, same) = set_ncci-Linked (next_msgid s) n k add g at refl refl in
        let (k1, at1, _, _) = stay.ncci n k at in
        let c = fill_data_b3_req s.ap_id s.msgid k.ncci address len k.datahandle 0 in
        let (r, s2, e2, g2, stay2, same2) =
          sendbuf_end-Answers s1 g1 n k1 at1 put k.datahandle len c
            (data_b3_req-Encodes s.ap_id s.msgid k.ncci address len k.datahandle 0) in
        rw memory (
          r,
          s2,
          ap (λ x. x >>= sendbuf_end put n k.datahandle len c) e ∙ e2,
          g2,
          Stay-trans s (next_msgid s) s2 (next_msgid-Stay s)
              (Stay-trans (next_msgid s) s1 s2 stay stay2),
          same2 ∙ same,
        )
  ]

  send_on-Answers :
      (r : Option ℕ)
      → ((n : ℕ) → r ≡ some n → (k : NcciNode) × (s.nccis n ≡ some k))
      → Keeps s (send_on i put address len doack s r)
  send_on-Answers none there = (nothing_sent, s, refl, g, Stay-refl s, refl)
  send_on-Answers (some n) there =
      let (k, at) = there n refl in
      look (Keeps s) (s.nccis n) k _ at (elim (Bool-cases (k.state == st_ncci_active)) [
        | inl active ↦ rw active (send_up-Answers n k at)
        | inr other ↦ rw other (nothing_sent, s, refl, g, Stay-refl s, refl)
      ])

  -- if_sendbuf, on a card whose links hold, returns, meets no bad pointer, and keeps the links
  -- and the nodes, whatever becomes of the message.
  pub if_sendbuf-Answers : (channel : ℕ) → Keeps s (if_sendbuf i put address len doack channel s)
  unfolding if_sendbuf bchan_at
  if_sendbuf-Answers channel =
      let chan = channel % s.nbchan in
      look (Keeps s) (bchan_at chan s) (s.bchans chan) _
        (rw (lt→ltb chan s.nbchan (omega (arith, g.some_chan)), bchan_at) refl)
        (send_on-Answers (s.bchans chan).nccip
          (λ n e. let (k, at, on) = g.ncci_on_chan chan n e in (k, at)))
