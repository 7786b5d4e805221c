-- ===== src/Capidrv/Safety/Calls.antt =====
-- `handle_incoming_call` of linux/drivers/isdn/capi/capidrv.c and the links.
use capi4linux.Prelude.{
  ℕ, zero, suc, ◌+◌, ◌<◌, ◌≤◌, ◌≡◌, refl, sym, ap, ◌∙◌, inl, inr, true, false, ◌||◌, Option, none,
  some, ◌==◌, ◌>>=◌, arith, Bool-cases, none-ne-some, some-injective,
}
use mathlib.Core.Path.{subst}
use capi4linux.Memory.{Mem}
use capi4linux.Cmsg.Struct.{Cmsg, CStruct}
use capi4linux.Cmsg.Table.{cpars, command_2_index}
use capi4linux.Cmsg.Fields.{set_num, reject, called_party_number, calling_party_number, cip_value}
use capi4linux.Cmsg.Fill.{capi_cmsg_answer}
use capi4linux.Cmsg.Fill.Requests.{fill_alert_req}
use capi4linux.Capidrv.Tables.{st_plci_incoming, ev_plci_connect_ind, ev_plci_connect_reject}
use capi4linux.Capidrv.Card.{PlciNode, Bchan, Card, Output, icall, emit, next_msgid}
use capi4linux.Capidrv.Nodes.{new_plci}
use capi4linux.Capidrv.Buffer.{FitsBuffer, alert_req-Sends, refusal-Encodes}
use capi4linux.Capidrv.Links.{
  if-Safe, Good, Stay, Stay-refl, Stay-trans, Safe, Safe-bind, Safe-after, look, Steady-Safe,
}
use capi4linux.Capidrv.Links.Writes.{
  set_plci-Steady, set_bchan-Steady, set_bchan_look, send_message-Steady,
}
use capi4linux.Capidrv.Links.NewPlci.{new_plci-Steady, new_plci-node}
use capi4linux.Capidrv.Links.Changes.{emit-Stay, plci_change_state-Steady}
use capi4linux.Capidrv.Handlers.{Isdn, is, adr}
use capi4linux.Capidrv.Handlers.Calls.Free.{no_plci}
use capi4linux.Capidrv.Handlers.Calls.{
  has_plci, free_chan, copy_number, setup_si2, cip2si1, refuse_call, alert_call, take_answer,
  tell_call, offer_call, found_chan, new_bchan, incoming_on, handle_incoming_call,
}

-- ISDN4Linux answers a call for a channel with a PLCI, and the commands that it issues meanwhile keep
-- the nodes there.
abbrev pub Calm : Isdn → Type 0
Calm i =
    (chan p : ℕ) (s : Card)
    → Good s
    → (s.bchans chan).plcip ≡ some p
    → (answer : ℕ) × (s' : Card) × (i.ring chan s ≡ some (answer, s')) × Good s' × Stay s s'

-- A number in a message that fits where it is copied to.
abbrev pub Fits : ℕ → ℕ → CStruct → Type 0
Fits less size st = (m : Mem) × (st ≡ some m) × (less ≤ m 0) × (m 0 ≤ less + size)

copy_number-Fits :
    (less size : ℕ) (st : CStruct)
    → Fits less size st
    → (m : Mem) × (copy_number less size st ≡ some m)
copy_number-Fits less size st (m, e, low, high) = (m, rw e (ground arith))

-- The loop of `new_bchan`, from channel `i` on with `left` channels left, finds a channel that is
-- there and has no PLCI.
pub free_chan-some :
    (bchans : ℕ → Bchan) (left i c : ℕ)
    → free_chan bchans left i ≡ some c
    → (c < i + left) × ((bchans c).plcip ≡ none)
unfolding free_chan
free_chan-some bchans zero i c e = absurd (none-ne-some e)
free_chan-some bchans (suc left) i c e = elim (Bool-cases (has_plci (bchans i))) [
  | inl used ↦
      let (below, free) = free_chan-some bchans left (i + 1) c (rw used at e) in (omega arith, free)
  | inr free ↦
      let it : i ≡ c = some-injective i c (rw free at e) in
      (omega arith, subst (λ c. (bchans c).plcip ≡ none) it (no_plci (bchans i) free))
]

-- The `CONNECT_RESP` that refuses a call, with what it takes from the `CONNECT_IND`, fits.
abbrev pub Refusable : Cmsg → Type 0
Refusable c = (why : ℕ) → FitsBuffer (set_num reject why (capi_cmsg_answer c))

module _ (c : Cmsg) (h : is 0x02 0x82 c ≡ true) (fits : Refusable c) (s : Card) (g : Good s) (p : ℕ)
    (q : PlciNode) (at : s.plcis p ≡ some q) where
  refuse_call-Safe : (why : ℕ) → Safe (refuse_call why c p s)
  unfolding refuse_call cpars command_2_index
  refuse_call-Safe why =
      Safe-bind s _ _
        (send_message-Steady s g (set_num reject why (capi_cmsg_answer c))
          (refusal-Encodes 0x02 _ c reject why refl h, fits why))
        (λ s1 g1 stay1.
          let (q1, at1, _) = stay1.plci p q at in
          Steady-Safe s1 _ (plci_change_state-Steady s1 g1 p q1 at1 ev_plci_connect_reject refl))

  alert_call-Safe : Safe (alert_call p s)
  unfolding alert_call next_msgid
  alert_call-Safe = look Safe (s.plcis p) q _ at (
      if-Safe (q.state == st_plci_incoming) _ _
        (λ _.
          Safe-bind (next_msgid s) _ _
            (set_plci-Steady (next_msgid s) g p q (λ q. record q { msgid = s.msgid }) at refl refl)
            (λ s1 g1 stay1. Steady-Safe s1 _ (
              send_message-Steady s1 g1 (fill_alert_req s.ap_id s.msgid q.plci none none none none)
                (alert_req-Sends s.ap_id s.msgid q.plci))))
        (s, refl, g))

  take_answer-Safe : (answer : ℕ) → Safe (take_answer c p (answer, s))
  unfolding take_answer
  take_answer-Safe answer =
      if-Safe ((answer == 0) || (answer == 3)) _ _ (λ _. refuse_call-Safe 1)
        (if-Safe (answer == 1) _ _ (λ _. alert_call-Safe)
          (if-Safe (answer == 2) _ _ (λ _. refuse_call-Safe 2) (refuse_call-Safe 8)))

module _ (i : Isdn) (calm : Calm i) (c : Cmsg)
    (calling : Fits 2 i.phone_size (c.structs calling_party_number))
    (called : Fits 1 i.eazmsn_size (c.structs called_party_number)) where
  tell_call-runs :
      (chan p : ℕ) (s : Card)
      → Good s
      → (s.bchans chan).plcip ≡ some p
      → (answer : ℕ) × (s' : Card) × (tell_call i c chan s ≡ some (answer, s'))
        × Good s'
        × Stay s s'
  unfolding tell_call emit
  tell_call-runs chan p s g on =
      let (m, e) = copy_number-Fits 2 i.phone_size (c.structs calling_party_number) calling in
      let (m', e') = copy_number-Fits 1 i.eazmsn_size (c.structs called_party_number) called in
      let told : Mem → Mem → Output = λ x y.
        icall chan (some x) (some y) (cip2si1 (c.nums cip_value)) (setup_si2 (c.nums cip_value)) in
      let (answer, s1, ring, g1, stay) = calm chan p (emit (told m m') s) g on in
      (
        answer,
        s1,
        ap
              (λ x. x >>= λ x1.
                copy_number 1 i.eazmsn_size (c.structs called_party_number) >>= λ y1.
                i.ring chan (emit (told x1 y1) s))
              e
            ∙ ap (λ y. y >>= λ y1. i.ring chan (emit (told m y1) s)) e'
            ∙ ring,
        g1,
        Stay-trans s (emit (told m m') s) s1 (emit-Stay s s (told m m') (Stay-refl s)) stay,
      )

  module _ (h : is 0x02 0x82 c ≡ true) (fits : Refusable c) where
    -- The call is told, and its answer taken, for the PLCI `p` on the channel `chan`.
    offered-Safe :
        (chan p : ℕ) (q : PlciNode) (s : Card)
        → Good s
        → s.plcis p ≡ some q
        → q.chan ≡ chan
        → Safe (tell_call i c chan s >>= take_answer c p)
    offered-Safe chan p q s g at on =
        let own : (s.bchans chan).plcip ≡ some p =
          subst (λ c. (s.bchans c).plcip ≡ some p) on (g.owner p q at).1 in
        let (answer, s1, e, g1, stay) = tell_call-runs chan p s g own in
        let (q1, at1, _) = stay.plci p q at in
        look Safe (tell_call i c chan s) (answer, s1) (take_answer c p) e
          (take_answer-Safe c h fits s1 g1 p q1 at1 answer)

    offer_call-Safe :
        (chan : ℕ) (s : Card)
        → Good s
        → chan < s.nbchan
        → (s.bchans chan).plcip ≡ none
        → Safe (offer_call i c chan s)
    unfolding offer_call
    offer_call-Safe chan s g inside idle =
        Safe-after s (new_plci chan s) _ (new_plci-Steady s g chan inside idle) (λ s1 e g1 stay1.
          let at1 = new_plci-node s g chan inside idle s1 e in
          let inside1 = subst (λ n. chan < n) (sym stay1.nbchan) inside in
          Safe-bind s1 _ _
            (set_bchan-Steady s1 g1 chan (λ b. record b { incoming = true }) inside1 refl refl)
            (λ s2 g2 stay2.
              let (q2, at2, on2) = stay2.plci s.fresh _ at1 in
              Safe-bind s2 _ _
                (set_plci-Steady s2 g2 s.fresh q2 (λ q. record q { plci = adr c }) at2 refl refl)
                (λ s3 g3 stay3.
                  let (q3, at3, on3) = stay3.plci s.fresh q2 at2 in
                  Safe-bind s3 _ _
                    (plci_change_state-Steady s3 g3 s.fresh q3 at3 ev_plci_connect_ind refl)
                    (λ s4 g4 stay4.
                      let (q4, at4, on4) = stay4.plci s.fresh q3 at3 in
                      offered-Safe chan s.fresh q4 s4 g4 at4 (on4 ∙ on3 ∙ on2)))))

    pub handle_incoming_call-Safe : (s : Card) → Good s → Safe (handle_incoming_call i c s)
    unfolding handle_incoming_call new_bchan
    handle_incoming_call-Safe s g =
        go (free_chan s.bchans s.nbchan 0) (free_chan-some s.bchans s.nbchan 0)
      where
        go :
            (r : Option ℕ)
            → ((chan : ℕ) → r ≡ some chan → (chan < 0 + s.nbchan) × ((s.bchans chan).plcip ≡ none))
            → Safe (found_chan s r >>= incoming_on i c)
        go none found = (s, refl, g)
        go (some chan) found =
            let (inside', idle) = found chan refl in
            let inside : chan < s.nbchan = omega arith in
            let set : Bchan → Bchan = λ b. record b { disconnecting = false } in
            let (s1, e, g1, stay1) = set_bchan-Steady s g chan set inside refl refl in
            look Safe (found_chan s (some chan)) (some chan, s1) (incoming_on i c)
              (ap (λ x. x >>= λ s'. some (some chan, s')) e)
              (if-Safe i.memory _ _
                (λ _.
                  offer_call-Safe chan s1 g1 (subst (λ n. chan < n) (sym stay1.nbchan) inside)
                    (ap (λ b. b.plcip) (set_bchan_look s chan set s1 inside e) ∙ idle))
                (s1, refl, g1))
