-- ===== src/Capidrv/Safety/Nccis.antt =====
-- `handle_ncci` and `handle_data` of linux/drivers/isdn/capi/capidrv.c and the links.
use capi4linux.Prelude.{
  ℕ, ◌≡◌, refl, inl, inr, true, Option, none, some, List, ◌==◌, ◌>>=◌, Bool-cases, ◌%◌,
}
use capi4linux.Memory.{Mem}
use capi4linux.Cmsg.Struct.{Cmsg}
use capi4linux.Cmsg.Table.{cpars, command_2_index}
use capi4linux.Cmsg.Fields.{info, data_handle}
use capi4linux.Cmsg.Fill.Responses.{fill_connect_b3_resp}
use capi4linux.Capidrv.Tables.{
  ev_ncci_connect_b3_active_ind, ev_ncci_connect_b3_ind, ev_ncci_connect_b3_resp,
  ev_ncci_disconnect_b3_ind, ev_ncci_disconnect_b3_resp, ev_ncci_disconnect_b3_conf_error,
  ev_ncci_reset_b3_ind,
}
use capi4linux.Capidrv.Card.{
  PlciNode, NcciNode, Card, bconn, received, bsent, emit, next_msgid, send_message,
}
use capi4linux.Capidrv.Nodes.{new_ncci, capidrv_del_ack, find_plci_by_ncci}
use capi4linux.Capidrv.Change.{ncci_change_state}
use capi4linux.Capidrv.Buffer.{answers-Send, connect_b3_resp-Sends}
use capi4linux.Capidrv.Links.{if-Safe, Good, Safe, Safe-bind, Safe-after, look, Steady-Safe}
use capi4linux.Capidrv.Links.Writes.{set_ncci-Steady, set_bchan-Steady}
use capi4linux.Capidrv.Links.NewNcci.{new_ncci-Steady, new_ncci-node}
use capi4linux.Capidrv.Links.Changes.{
  Live, Stay-Live, emit-Steady, send_next-Steady, ncci_change_state-Safe, ncci_change_state-Steady,
}
use capi4linux.Capidrv.Handlers.{Isdn, is, adr, send_answer}
use capi4linux.Capidrv.Handlers.Nccis.{
  connect_b3_active_ind, accept_b3, reject_b3, connect_b3_ind, connect_b3_conf, tell_sent, sent_on,
  data_b3_conf, disconnect_b3_ind, disconnect_b3_conf, reset_b3_ind, handle_ncci, take_data,
  handle_data,
}
use capi4linux.Capidrv.Safety.Answers.{send_answer-Steady}
use capi4linux.Capidrv.Safety.Finds.{found_plci-Safe, found_ncci-Safe, found_ncci_by_msgid-Safe}

module _ (c : Cmsg) (s : Card) (g : Good s) where
  reject_b3-Safe : Safe (reject_b3 c s)
  unfolding reject_b3
  reject_b3-Safe =
      Steady-Safe s _ (send_next-Steady s _ g (connect_b3_resp-Sends s.ap_id s.msgid (adr c) 2))

  b3_made-Safe :
      (n : ℕ) (s : Card)
      → Good s
      → Live s n
      → Safe (
          ncci_change_state n ev_ncci_connect_b3_ind s >>= λ s2. s2.nccis n >>= λ k.
          send_message (fill_connect_b3_resp s2.ap_id s2.msgid k.ncci 0 none) (next_msgid s2)
          >>= ncci_change_state n ev_ncci_connect_b3_resp)
  b3_made-Safe n s g (k, q, there, own) =
      Safe-bind s _ _ (ncci_change_state-Steady s g n k there ev_ncci_connect_b3_ind refl)
        (λ s2 g2 stay2.
          let (k2, there2, _, _) = stay2.ncci n k there in
          rw there2 (
            Safe-bind s2 _ _
              (send_next-Steady s2 _ g2 (connect_b3_resp-Sends s2.ap_id s2.msgid k2.ncci 0))
              (λ s3 g3 stay3.
                let (k3, there3, _, _) = stay3.ncci n k2 there2 in
                Steady-Safe s3 _
                  (ncci_change_state-Steady s3 g3 n k3 there3 ev_ncci_connect_b3_resp refl))))

module _ (c : Cmsg) (s : Card) (g : Good s) where
  accept_b3-Safe : (p : ℕ) (q : PlciNode) → s.plcis p ≡ some q → Safe (accept_b3 c p s)
  unfolding accept_b3
  accept_b3-Safe p q at =
      Safe-after s (new_ncci p (adr c) s) _ (new_ncci-Steady s g p q at (adr c)) (λ s1 e g1 stay1.
        let (q1, at1, _) = stay1.plci p q at in
        let there = new_ncci-node s g p q at (adr c) s1 e in
        b3_made-Safe c s g s.fresh s1 g1 (_, q1, there, at1))

  connect_b3_ind-Safe : (i : Isdn) → Safe (find_plci_by_ncci (adr c) s >>= connect_b3_ind i c s)
  connect_b3_ind-Safe i =
      found_plci-Safe (λ q. q.plci == adr c % 65536) s (connect_b3_ind i c s) g
        (reject_b3-Safe c s g)
        (λ p q at. elim (Bool-cases i.memory) [
          | inl memory ↦ rw memory (accept_b3-Safe p q at)
          | inr full ↦ rw full (reject_b3-Safe c s g)
        ])

  tell_sent-Safe : (chan : ℕ) (len : Option ℕ) → Safe (some (tell_sent chan len s))
  tell_sent-Safe chan none = (s, refl, g)
  tell_sent-Safe chan (some len) = Steady-Safe s _ (emit-Steady s (bsent chan len) g)

module _ (c : Cmsg) (s : Card) (g : Good s) where
  sent_on-Safe :
      (n : ℕ) (k : NcciNode)
      → s.nccis n ≡ some k
      → (found : Option ℕ × List (ℕ × Option ℕ)) → Safe (sent_on n k.chan found s)
  unfolding sent_on
  sent_on-Safe n k there (len, rest) =
      Safe-bind s _ _
        (set_ncci-Steady s g n k (λ k1. record k1 { ackqueue = rest }) there refl refl)
        (λ s1 g1 stay1. tell_sent-Safe c s1 g1 k.chan len)

module _ (c : Cmsg) (s : Card) (g : Good s) where
  module _ (n : ℕ) (live : Live s n) where
    active-Safe : is 0x83 0x82 c ≡ true → Safe (connect_b3_active_ind c n s)
    unfolding connect_b3_active_ind cpars command_2_index
    active-Safe h =
        Safe-bind s (send_answer c s) _ (send_answer-Steady 0x83 c s answers-Send.2 h g)
          (λ s1 g1 stay1.
            let (k1, q1, there1, own1) = Stay-Live s s1 n stay1 live in
            Safe-bind s1 _ _
              (ncci_change_state-Steady s1 g1 n k1 there1 ev_ncci_connect_b3_active_ind refl)
              (λ s2 g2 stay2.
                let (k2, there2, _, _) = stay2.ncci n k1 there1 in
                rw there2 (Steady-Safe s2 _ (emit-Steady s2 (bconn k2.chan) g2))))

    conf-Safe : Safe (connect_b3_conf c n s)
    unfolding connect_b3_conf
    conf-Safe =
        let (k, q, there, own) = live in
        Safe-bind s _ _ (set_ncci-Steady s g n k (λ k. record k { ncci = adr c }) there refl refl)
          (λ s1 g1 stay1. ncci_change_state-Safe s1 n _ g1 (Stay-Live s s1 n stay1 live))

    sent-Safe : Safe (data_b3_conf c n s)
    unfolding data_b3_conf
    sent-Safe =
        let (k, q, there, own) = live in
        look Safe (s.nccis n) k _ there
          (sent_on-Safe c s g n k there (capidrv_del_ack (c.nums data_handle) k.ackqueue))

    disconnect-Safe : is 0x84 0x82 c ≡ true → Safe (disconnect_b3_ind c n s)
    unfolding disconnect_b3_ind cpars command_2_index
    disconnect-Safe h =
        let (k, q, there, own) = live in
        rw (there, disconnect_b3_ind)
          (Safe-bind s _ _
            (set_bchan-Steady s g k.chan (λ b. record b { disconnecting = true })
              (g.old_ncci n k there).1 refl refl)
            (λ s1 g1 stay1.
              let (k1, q1, there1, own1) = Stay-Live s s1 n stay1 live in
              Safe-bind s1 _ _
                (ncci_change_state-Steady s1 g1 n k1 there1 ev_ncci_disconnect_b3_ind refl)
                (λ s2 g2 stay2.
                  Safe-bind s2 (send_answer c s2) _
                    (send_answer-Steady 0x84 c s2 answers-Send.3 h g2)
                    (λ s3 g3 stay3.
                      ncci_change_state-Safe s3 n ev_ncci_disconnect_b3_resp g3 (
                        Stay-Live s2 s3 n stay3
                          (Stay-Live s1 s2 n stay2 (k1, q1, there1, own1)))))))

    disconnected-Safe : Safe (disconnect_b3_conf c n s)
    unfolding disconnect_b3_conf
    disconnected-Safe = elim (Bool-cases (c.nums info == 0)) [
      | inl fine ↦ rw fine (s, refl, g)
      | inr error ↦ rw error (ncci_change_state-Safe s n ev_ncci_disconnect_b3_conf_error g live)
    ]

    reset-Safe : is 0x87 0x82 c ≡ true → Safe (reset_b3_ind c n s)
    unfolding reset_b3_ind cpars command_2_index
    reset-Safe h =
        let (k, q, there, own) = live in
        Safe-bind s _ _ (ncci_change_state-Steady s g n k there ev_ncci_reset_b3_ind refl)
          (λ s1 g1 stay1. Steady-Safe s1 _ (send_answer-Steady 0x87 c s1 answers-Send.5 h g1))

    data-Safe : (bytes : Mem) (len : ℕ) → is 0x86 0x82 c ≡ true → Safe (take_data c bytes len n s)
    unfolding take_data emit cpars command_2_index
    data-Safe bytes len h =
        let (k, q, there, own) = live in
        rw (there, take_data)
          (Steady-Safe _ _
            (send_answer-Steady 0x86 c (emit (received k.chan bytes len) s) answers-Send.4 h g))

-- `handle_ncci`, on a card whose links hold, meets no bad pointer, and the links hold afterwards.
pub handle_ncci-Safe : (i : Isdn) (c : Cmsg) (s : Card) → Good s → Safe (handle_ncci i c s)
unfolding handle_ncci cpars command_2_index
handle_ncci-Safe i c s g =
    if-Safe (is 0x83 0x82 c) _ _
      (λ h.
        found_ncci-Safe (adr c) s (connect_b3_active_ind c) g
          (λ n live. active-Safe c s g n live h))
      (if-Safe (is 0x82 0x82 c) _ _ (λ _. connect_b3_ind-Safe c s g i)
        (if-Safe (is 0x82 0x81 c) _ _
          (λ _.
            found_ncci_by_msgid-Safe (adr c) c.messagenumber s (connect_b3_conf c) g
              (λ n live. conf-Safe c s g n live))
          (if-Safe (is 0x88 0x82 c) _ _
            (λ h. Steady-Safe s _ (send_answer-Steady 0x88 c s answers-Send.6 h g))
            (if-Safe (is 0x86 0x81 c) _ _
              (λ _. found_ncci-Safe (adr c) s (data_b3_conf c) g (λ n live. sent-Safe c s g n live))
              (if-Safe (is 0x84 0x82 c) _ _
                (λ h.
                  found_ncci-Safe (adr c) s (disconnect_b3_ind c) g
                    (λ n live. disconnect-Safe c s g n live h))
                (if-Safe (is 0x84 0x81 c) _ _
                  (λ _.
                    found_ncci-Safe (adr c) s (disconnect_b3_conf c) g
                      (λ n live. disconnected-Safe c s g n live))
                  (if-Safe (is 0x87 0x82 c) _ _
                    (λ h.
                      found_ncci-Safe (adr c) s (reset_b3_ind c) g
                        (λ n live. reset-Safe c s g n live h))
                    (s, refl, g))))))))

-- `handle_data`, too.
pub handle_data-Safe :
    (c : Cmsg) (bytes : Mem) (len : ℕ) (s : Card)
    → is 0x86 0x82 c ≡ true
    → Good s
    → Safe (handle_data c bytes len s)
unfolding handle_data
handle_data-Safe c bytes len s h g =
    found_ncci-Safe (adr c) s (take_data c bytes len) g
      (λ n live. data-Safe c s g n live bytes len h)
