-- ===== src/Capidrv/Safety/Plcis.antt =====
-- The cases of `handle_plci` of linux/drivers/isdn/capi/capidrv.c and the links.
use capi4linux.Prelude.{
  ℕ, ◌≡◌, refl, inl, inr, true, none, some, ◌==◌, ◌>>=◌, if◌then◌else◌, Bool-cases, lt→ltb,
}
use capi4linux.Memory.{Mem}
use capi4linux.Cmsg.Struct.{Cmsg}
use capi4linux.Cmsg.Table.{cpars, command_2_index}
use capi4linux.Cmsg.Fields.{info, info_number, info_element}
use capi4linux.Cmsg.Fill.Requests.{fill_connect_b3_req}
use capi4linux.Capidrv.Tables.{
  ev_plci_disconnect_ind, ev_plci_disconnect_resp, ev_plci_connect_conf_error,
  ev_plci_connect_conf_ok, ev_plci_connect_active_ind, ev_ncci_connect_b3_req,
}
use capi4linux.Capidrv.Card.{
  PlciNode, NcciNode, Card, dconn, emit, next_msgid, bchan_at, set_plci, set_ncci, send_message,
}
use capi4linux.Capidrv.Nodes.{new_ncci}
use capi4linux.Capidrv.Change.{plci_change_state, ncci_change_state}
use capi4linux.Capidrv.Buffer.{answers-Send, connect_b3_req-Sends}
use capi4linux.Capidrv.Links.{Good, Steady, Safe, Safe-bind, Safe-after, Steady-Safe}
use capi4linux.Capidrv.Links.Writes.{
  set_plci-Steady, set_ncci-Steady, set_bchan-Steady, send_message-Steady,
}
use capi4linux.Capidrv.Links.NewNcci.{new_ncci-Steady, new_ncci-node}
use capi4linux.Capidrv.Links.Changes.{
  emit-Steady, plci_change_state-Safe, plci_change_state-Steady, ncci_change_state-Steady,
}
use capi4linux.Capidrv.Handlers.{Isdn, is, adr, send_answer}
use capi4linux.Capidrv.Handlers.Plcis.{
  set_disconnecting, disconnect_ind, disconnect_conf, connect_conf, active_incoming, connect_b3,
  active_outgoing, connect_active_ind, info_ind,
}
use capi4linux.Capidrv.Safety.Answers.{send_answer-Steady}

module _ (s : Card) (g : Good s) (p : ℕ) (q : PlciNode) (at : s.plcis p ≡ some q) where
  disconnecting-Steady : Steady s (set_disconnecting q.chan s)
  disconnecting-Steady =
      set_bchan-Steady s g q.chan (λ b. record b { disconnecting = true }) (g.owner p q at).0 refl
        refl

  pub disconnect_conf-Safe : Safe (disconnect_conf p s)
  unfolding disconnect_conf
  disconnect_conf-Safe = rw (at, disconnect_conf) (Steady-Safe s _ disconnecting-Steady)

  pub disconnect_ind-Safe : (c : Cmsg) → is 0x04 0x82 c ≡ true → Safe (disconnect_ind c p s)
  unfolding disconnect_ind cpars command_2_index
  disconnect_ind-Safe c h =
      let r =
        Safe-bind s (set_disconnecting q.chan s)
          (λ s1. plci_change_state p ev_plci_disconnect_ind s1 >>= λ s2.
            send_answer c s2 >>= plci_change_state p ev_plci_disconnect_resp)
          disconnecting-Steady
          (λ s1 g1 stay1.
            let (q1, at1, on1) = stay1.plci p q at in
            Safe-bind s1 (plci_change_state p ev_plci_disconnect_ind s1)
              (λ s2. send_answer c s2 >>= plci_change_state p ev_plci_disconnect_resp)
              (plci_change_state-Steady s1 g1 p q1 at1 ev_plci_disconnect_ind refl)
              (λ s2 g2 stay2.
                let (q2, at2, on2) = stay2.plci p q1 at1 in
                Safe-bind s2 (send_answer c s2) (plci_change_state p ev_plci_disconnect_resp)
                  (send_answer-Steady 0x04 c s2 answers-Send.1 h g2)
                  (λ s3 g3 stay3.
                    let (q3, at3, on3) = stay3.plci p q2 at2 in
                    plci_change_state-Safe s3 g3 p q3 at3 ev_plci_disconnect_resp))) in
      rw (at, disconnect_ind) r

  pub connect_conf-Safe : (c : Cmsg) → Safe (connect_conf c p s)
  unfolding connect_conf
  connect_conf-Safe c =
      Safe-bind s (set_plci p (λ q. record q { plci = adr c }) s)
        (plci_change_state p
          (if c.nums info == 0 then ev_plci_connect_conf_ok else ev_plci_connect_conf_error))
        (set_plci-Steady s g p q (λ q. record q { plci = adr c }) at refl refl)
        (λ s1 g1 stay1.
          let (q1, at1, on1) = stay1.plci p q at in plci_change_state-Safe s1 g1 p q1 at1 _)

  active_incoming-Safe : (c : Cmsg) → is 0x03 0x82 c ≡ true → Safe (active_incoming c p s)
  unfolding active_incoming cpars command_2_index
  active_incoming-Safe c h =
      Safe-bind s (send_answer c s) (plci_change_state p ev_plci_connect_active_ind)
        (send_answer-Steady 0x03 c s answers-Send.0 h g)
        (λ s1 g1 stay1.
          let (q1, at1, on1) = stay1.plci p q at in
          plci_change_state-Safe s1 g1 p q1 at1 ev_plci_connect_active_ind)

  pub info_ind-Safe : (c : Cmsg) (m : Mem) → c.structs info_element ≡ some m → Safe (info_ind c p s)
  unfolding info_ind emit
  info_ind-Safe c m there = elim (Bool-cases (c.nums info_number == 0x4000)) [
    | inl charge ↦
        rw (at, there, charge, info_ind)
          (elim (Bool-cases (m 0 == 4)) [
            | inl four ↦ rw four (Steady-Safe s _ (emit-Steady s _ g))
            | inr other ↦ rw other (s, refl, g)
          ])
    | inr other ↦ rw (at, other, info_ind) (s, refl, g)
  ]

module _ (s : Card) (g : Good s) (p : ℕ) (q : PlciNode) (at : s.plcis p ≡ some q) (c : Cmsg) where
  -- With the new NCCI `n`, which is there with its PLCI.
  b3_up-Safe :
      (n : ℕ) (s : Card) (g : Good s) (q : PlciNode) (k : NcciNode)
      → s.plcis p ≡ some q
      → s.nccis n ≡ some k
      → Safe (
          set_ncci n (λ k. record k { msgid = s.msgid }) (next_msgid s) >>= λ s2.
          send_message (fill_connect_b3_req s.ap_id s.msgid q.plci none) s2 >>= λ s3.
          plci_change_state p ev_plci_connect_active_ind (emit (dconn q.chan) s3)
          >>= ncci_change_state n ev_ncci_connect_b3_req)
  unfolding emit next_msgid
  b3_up-Safe n s g q k at there =
      Safe-bind (next_msgid s) _ _
        (set_ncci-Steady (next_msgid s) g n k (λ k. record k { msgid = s.msgid }) there refl refl)
        (λ s2 g2 stay2.
          let (q2, at2, _) = stay2.plci p q at in
          let (k2, there2, _, _) = stay2.ncci n k there in
          Safe-bind s2 _ _
            (send_message-Steady s2 g2 (fill_connect_b3_req s.ap_id s.msgid q.plci none)
              (connect_b3_req-Sends s.ap_id s.msgid q.plci))
            (λ s3 g3 stay3.
              let (q3, at3, _) = stay3.plci p q2 at2 in
              let (k3, there3, _, _) = stay3.ncci n k2 there2 in
              Safe-bind (emit (dconn q.chan) s3) _ _
                (plci_change_state-Steady (emit (dconn q.chan) s3) g3 p q3 at3
                  ev_plci_connect_active_ind refl)
                (λ s4 g4 stay4.
                  let (k4, there4, _, _) = stay4.ncci n k3 there3 in
                  Steady-Safe s4 _
                    (ncci_change_state-Steady s4 g4 n k4 there4 ev_ncci_connect_b3_req refl))))

  connect_b3-Safe : Safe (connect_b3 c p s)
  unfolding connect_b3
  connect_b3-Safe =
      Safe-after s (new_ncci p (adr c) s) _ (new_ncci-Steady s g p q at (adr c)) (λ s1 e g1 stay1.
        let (q1, at1, _) = stay1.plci p q at in
        let there = new_ncci-node s g p q at (adr c) s1 e in
        rw at1 (b3_up-Safe s.fresh s1 g1 q1 _ at1 there))

module _ (s : Card) (g : Good s) (p : ℕ) (q : PlciNode) (at : s.plcis p ≡ some q) (c : Cmsg)
    (h : is 0x03 0x82 c ≡ true) (i : Isdn) where
  active_outgoing-Safe : Safe (active_outgoing i c p s)
  unfolding active_outgoing cpars command_2_index
  active_outgoing-Safe =
      Safe-bind s (send_answer c s) _ (send_answer-Steady 0x03 c s answers-Send.0 h g)
        (λ s1 g1 stay1.
          let (q1, at1, _) = stay1.plci p q at in
          elim (Bool-cases i.memory) [
            | inl memory ↦ rw memory (connect_b3-Safe s1 g1 p q1 at1 c)
            | inr full ↦ rw full (s1, refl, g1)
          ])

  pub connect_active_ind-Safe : Safe (connect_active_ind i c p s)
  unfolding connect_active_ind bchan_at
  connect_active_ind-Safe =
      rw (at, lt→ltb q.chan s.nbchan (g.owner p q at).0, connect_active_ind, bchan_at)
        (elim (Bool-cases (s.bchans q.chan).incoming) [
          | inl incoming ↦ rw incoming (active_incoming-Safe s g p q at c h)
          | inr outgoing ↦ rw outgoing active_outgoing-Safe
        ])
