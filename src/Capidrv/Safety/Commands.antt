-- ===== src/Capidrv/Safety/Commands.antt =====
-- Hanging up and accepting calls in linux/drivers/isdn/capi/capidrv.c, and the links.
use capi4linux.Prelude.{
  ℕ, ◌<◌, ◌≡◌, refl, ap, ◌∙◌, Bool, true, false, Option, none, some, ◌==◌, ◌>>=◌, if◌then◌else◌,
  lt→ltb,
}
use capi4linux.Cmsg.Fill.Requests.{fill_disconnect_req, fill_disconnect_b3_req}
use capi4linux.Cmsg.Fill.Responses.{fill_connect_resp}
use capi4linux.Capidrv.Tables.{
  st_plci_incoming, ev_plci_connect_resp, ev_plci_disconnect_req, ev_ncci_disconnect_b3_req,
}
use capi4linux.Capidrv.Card.{PlciNode, NcciNode, Card, next_msgid, bchan_at, send_message}
use capi4linux.Capidrv.Buffer.Calls.{connect_resp-Sends}
use capi4linux.Capidrv.Buffer.{disconnect_req-Sends, disconnect_b3_req-Sends}
use capi4linux.Capidrv.Links.{Good, Stay, Stay-refl, Stay-trans, Steady, Steady-bind, look}
use capi4linux.Capidrv.Links.Writes.{set_bchan-Steady, send_message-Steady}
use capi4linux.Capidrv.Links.Changes.{
  next_msgid-Stay, plci_change_state-Steady, ncci_change_state-Steady,
}
use capi4linux.Capidrv.Handlers.Plcis.{set_disconnecting}
use capi4linux.Capidrv.Handlers.Protocols.{b1prot, b2prot, b3prot, b1config}
use capi4linux.Capidrv.Handlers.Commands.{
  Reply, fine, einval, reply, accept_call, hangup_ncci, hangup_known, hangup_plci, hangup_nodes,
  hangup_call,
}

-- An answer comes, and the card as `Steady` has it.
abbrev pub Answers : {A : Type 0} → Card → Option (A × Card) → Type 0
Answers {A} s m = (r : A) × (s' : Card) × (m ≡ some (r, s')) × Good s' × Stay s s'

module _ (s : Card) (g : Good s) where
  pub unchanged : (r : Reply) → Answers s (some (r, s))
  unchanged r = (r, s, refl, g, Stay-refl s)

  pub reply-Answers : (r : Reply) (m : Option Card) → Steady s m → Answers s (reply r m)
  reply-Answers r m (s1, e, g1, stay) = (r, s1, ap (λ x. reply r x) e, g1, stay)

  if-Answers :
      (b : Bool) (x y : Option (Reply × Card))
      → Answers s x
      → Answers s y
      → Answers s (if b then x else y)
  if-Answers true x y h k = h
  if-Answers false x y h k = k

  -- `card->msgid++`, and a step.
  pub numbered : (m : Option Card) → Steady (next_msgid s) m → Steady s m
  numbered m (s1, e, g1, stay) =
      (s1, e, g1, Stay-trans s (next_msgid s) s1 (next_msgid-Stay s) stay)

-- Before an answer, a step.
pub Answers-after :
    (s : Card) (m : Option Card) (f : Card → Option (Reply × Card))
    → Steady s m
    → ((s' : Card) → m ≡ some s' → Good s' → Stay s s' → Answers s' (f s'))
    → Answers s (m >>= f)
Answers-after s m f (s1, e, g, stay) h =
    let (r, s2, e2, g2, stay2) = h s1 e g stay in
    (r, s2, ap (λ x. x >>= f) e ∙ e2, g2, Stay-trans s s1 s2 stay stay2)

pub Steady-after :
    (s : Card) (m : Option Card) (f : Card → Option Card)
    → Steady s m
    → ((s' : Card) → m ≡ some s' → Good s' → Stay s s' → Steady s' (f s'))
    → Steady s (m >>= f)
Steady-after s m f (s1, e, g, stay) h =
    let (s2, e2, g2, stay2) = h s1 e g stay in
    (s2, ap (λ x. x >>= f) e ∙ e2, g2, Stay-trans s s1 s2 stay stay2)

module _ (s : Card) (g : Good s) (chan : ℕ) (inside : chan < s.nbchan) where
  disconnecting : Steady s (set_disconnecting chan s)
  disconnecting =
      set_bchan-Steady s g chan (λ b. record b { disconnecting = true }) inside refl refl

  hangup_ncci-Steady : (n : ℕ) (k : NcciNode) → s.nccis n ≡ some k → Steady s (hangup_ncci chan n s)
  unfolding hangup_ncci next_msgid
  hangup_ncci-Steady n k at = Steady-bind s _ _ disconnecting (λ s1 g1 stay1.
      let (k1, at1, _, _) = stay1.ncci n k at in
      look (Steady s1) (s1.nccis n) k1 _ at1 (
        numbered s1 g1 _ (
          Steady-bind (next_msgid s1) _
            (send_message (fill_disconnect_b3_req s1.ap_id s1.msgid k1.ncci none))
            (ncci_change_state-Steady (next_msgid s1) g1 n k1 at1 ev_ncci_disconnect_b3_req refl)
            (λ s2 g2 stay2.
              send_message-Steady s2 g2 (fill_disconnect_b3_req s1.ap_id s1.msgid k1.ncci none)
                (disconnect_b3_req-Sends s1.ap_id s1.msgid k1.ncci)))))

  module _ (p : ℕ) (q : PlciNode) (at : s.plcis p ≡ some q) where
    hangup_known-Steady : (plci : ℕ) → Steady s (hangup_known chan p plci s)
    unfolding hangup_known next_msgid
    hangup_known-Steady plci = Steady-bind s _ _ disconnecting (λ s1 g1 stay1.
        let (q1, at1, _) = stay1.plci p q at in
        numbered s1 g1 _ (
          Steady-bind (next_msgid s1) _ _
            (plci_change_state-Steady (next_msgid s1) g1 p q1 at1 ev_plci_disconnect_req refl)
            (λ s2 g2 stay2.
              send_message-Steady s2 g2
                (fill_disconnect_req s1.ap_id s1.msgid plci none none none none)
                (disconnect_req-Sends s1.ap_id s1.msgid plci))))

    hangup_plci-Answers : Answers s (hangup_plci chan p s)
    unfolding hangup_plci
    hangup_plci-Answers = look (Answers s) (s.plcis p) q _ at (
        if-Answers s g (q.state == st_plci_incoming) (reply fine (set_disconnecting chan s)) _
          (reply-Answers s g fine _ disconnecting)
          (if-Answers s g (q.plci == 0) (some (einval, s))
            (reply fine (hangup_known chan p q.plci s)) (unchanged s g einval)
            (reply-Answers s g fine _ (hangup_known-Steady q.plci))))

module _ (s : Card) (g : Good s) (chan : ℕ) (inside : chan < s.nbchan) where
  hangup_nodes-Answers :
      (n p : Option ℕ)
      → (s.bchans chan).nccip ≡ n
      → (s.bchans chan).plcip ≡ p
      → Answers s (hangup_nodes chan s n p)
  hangup_nodes-Answers (some n) p en ep =
      let (k, at, _) = g.ncci_on_chan chan n en in
      reply-Answers s g fine _ (hangup_ncci-Steady s g chan inside n k at)
  hangup_nodes-Answers none (some p) en ep =
      let (q, at, _) = g.on_chan chan p ep in hangup_plci-Answers s g chan inside p q at
  hangup_nodes-Answers none none en ep = unchanged s g einval

  pub bchan_inside : bchan_at chan s ≡ some (s.bchans chan)
  unfolding bchan_at
  bchan_inside = rw (lt→ltb chan s.nbchan inside)

  pub hangup_call-Answers : Answers s (hangup_call chan s)
  unfolding hangup_call
  hangup_call-Answers = look (Answers s) (bchan_at chan s) (s.bchans chan) _ bchan_inside (
      if-Answers s g (s.bchans chan).disconnecting (some (fine, s)) _ (unchanged s g fine)
        (hangup_nodes-Answers (s.bchans chan).nccip (s.bchans chan).plcip refl refl))

  -- A PLCI on the channel.
  pub accept_call-Steady : (p : ℕ) → (s.bchans chan).plcip ≡ some p → Steady s (accept_call chan s)
  unfolding accept_call next_msgid
  accept_call-Steady p own =
      let (q, at, _) = g.on_chan chan p own in
      let b = s.bchans chan in
      let c =
        fill_connect_resp s.ap_id s.msgid q.plci 0 (b1prot b.l2) (b2prot b.l2) (b3prot b.l2)
          (b1config b.l2) none none none none none none none none none in
      look (Steady s) (bchan_at chan s) b _ bchan_inside (
        look (Steady s) b.plcip p _ own (
          look (Steady s) (s.plcis p) q _ at (
            numbered s g _ (
              Steady-bind (next_msgid s) _ (send_message c)
                (plci_change_state-Steady (next_msgid s) g p q at ev_plci_connect_resp refl)
                (λ s1 g1 stay1. send_message-Steady s1 g1 c (
                  connect_resp-Sends s.ap_id s.msgid q.plci 0 (b1prot b.l2) (b2prot b.l2)
                    (b3prot b.l2) b.l2))))))
