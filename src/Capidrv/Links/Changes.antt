-- ===== src/Capidrv/Links/Changes.antt =====
-- The changes of state of linux/drivers/isdn/capi/capidrv.c and the links.
use capi4linux.Prelude.{
  ℕ, ◌≡◌, refl, ap, ◌∙◌, inl, inr, Bool, true, false, ◌&&◌, not, Option, none, some, List, [], ◌∷◌,
  ◌==◌, ◌>>=◌, if◌then◌else◌, arith, Bool-cases, none-ne-some, some-injective,
}
use mathlib.Core.Path.{subst}
use capi4linux.Cmsg.Struct.{Cmsg}
use capi4linux.Cmsg.Fill.Requests.{fill_disconnect_req}
use capi4linux.Capidrv.Tables.{Row, find_row, plcitable, nccitable, ev_plci_disconnect_req}
use capi4linux.Capidrv.Card.{
  PlciNode, NcciNode, Card, Output, dhup, bhup, emit, next_msgid, set_bchan, set_plci, set_ncci,
  send_message,
}
use capi4linux.Capidrv.Nodes.{free_plci, free_ncci}
use capi4linux.Capidrv.Change.{
  p0, call_p0, take_plci_row, plci_change_state, n0, call_n0, move_ncci, take_ncci_row,
  ncci_change_state,
}
use capi4linux.Capidrv.Buffer.{Sends, disconnect_req-Sends}
use capi4linux.Capidrv.Links.{
  Good, Stay, Stay-refl, Stay-trans, Steady, Safe, Safe-bind, Steady-bind, Steady-Safe, Steady-some,
}
use capi4linux.Capidrv.Links.Writes.{
  set_plci-Steady, set_ncci-Steady, set_bchan-Steady, send_message-Steady,
}
use capi4linux.Capidrv.Links.FreePlci.{free_plci-Safe}
use capi4linux.Capidrv.Links.FreeNcci.{free_ncci-Safe}

-- No row of a table for an event has a function.
abbrev pub quiet : ℕ → List Row → Bool
quiet event [] = true
quiet event (r ∷ rs) = (if r.event == event then not r.changefunc else true) && quiet event rs

pub quiet_row :
    (state event : ℕ) (table : List Row) (r : Row)
    → quiet event table ≡ true
    → find_row state event table ≡ some r
    → r.changefunc ≡ false
unfolding find_row
quiet_row state event [] r h e = absurd (none-ne-some e)
quiet_row state event (x ∷ xs) r h e =
    elim (Bool-cases ((state == x.actstate) && (x.event == event))) [
      | inl found ↦
          let it : x ≡ r = some-injective x r (rw found at e) in
          subst (λ z. z.changefunc ≡ false) it (ground arith)
      | inr other ↦ quiet_row state event xs r (ground arith) (rw other at e)
    ]

pub emit-Stay : (s t : Card) (o : Output) → Stay s t → Stay s (emit o t)
unfolding emit
emit-Stay s t o v = record { plci = v.plci; ncci = v.ncci; nbchan = v.nbchan }

-- What the driver sends and tells, and its message numbers, leave the links alone.
pub emit-Steady : (s : Card) (o : Output) → Good s → Steady s (some (emit o s))
unfolding emit
emit-Steady s o g = (emit o s, refl, g, emit-Stay s s o (Stay-refl s))

pub next_msgid-Stay : (s : Card) → Stay s (next_msgid s)
unfolding next_msgid
next_msgid-Stay s = record {
  plci = λ p q e. (q, e, refl);
  ncci = λ n k e. (k, e, refl, refl);
  nbchan = refl;
}

-- Sending a message under the next number.
pub send_next-Steady :
    (s : Card) (c : Cmsg) → Good s → Sends c → Steady s (send_message c (next_msgid s))
unfolding next_msgid
send_next-Steady s c g enc =
    let (s1, e, g1, stay) = send_message-Steady (next_msgid s) g c enc in
    (s1, e, g1, Stay-trans s (next_msgid s) s1 (next_msgid-Stay s) stay)

module _ (s : Card) (g : Good s) (p : ℕ) (q : PlciNode) (at : s.plcis p ≡ some q) where
  pub p0-Safe : Safe (p0 p s)
  unfolding p0 emit
  p0-Safe =
      let r =
        Safe-bind s (set_bchan q.chan (λ b. record b { contr = false }) s)
          (λ s1. free_plci p (emit (dhup q.chan) s1))
          (set_bchan-Steady s g q.chan (λ b. record b { contr = false }) (g.owner p q at).0 refl
            refl)
          (λ s1 g1 stay1.
            let (q1, at1, on1) = stay1.plci p q at in
            free_plci-Safe (emit (dhup q.chan) s1) g1 p q1 at1) in
      rw (at, p0) r

module _ (s : Card) (g : Good s) (p : ℕ) (q : PlciNode) (at : s.plcis p ≡ some q) where
  -- The new state, before a function of the row.
  settle : (r : Row) → Steady s (set_plci p (λ q. record q { state = r.nextstate }) s)
  settle r = set_plci-Steady s g p q (λ q. record q { state = r.nextstate }) at refl refl

  plci_row-Safe : (o : Option Row) → Safe (take_plci_row o p s)
  unfolding take_plci_row
  plci_row-Safe none = Steady-Safe s (some s) (Steady-some s g)
  plci_row-Safe (some r) =
      Safe-bind s (set_plci p (λ q. record q { state = r.nextstate }) s) (call_p0 r.changefunc p)
        (settle r)
        (λ s1 g1 stay1. elim (Bool-cases r.changefunc) [
          | inl runs ↦ let (q1, at1, on1) = stay1.plci p q at in rw runs (p0-Safe s1 g1 p q1 at1)
          | inr rests ↦ rw rests (Steady-Safe s1 (some s1) (Steady-some s1 g1))
        ])

  plci_row-Steady :
      (o : Option Row)
      → ((r : Row) → o ≡ some r → r.changefunc ≡ false)
      → Steady s (take_plci_row o p s)
  unfolding take_plci_row
  plci_row-Steady none none_runs = Steady-some s g
  plci_row-Steady (some r) none_runs =
      Steady-bind s (set_plci p (λ q. record q { state = r.nextstate }) s) (call_p0 r.changefunc p)
        (settle r) (λ s1 g1 stay1. rw (none_runs r refl) (Steady-some s1 g1))

  -- Any event at a PLCI that is there.
  pub plci_change_state-Safe : (event : ℕ) → Safe (plci_change_state p event s)
  unfolding plci_change_state
  plci_change_state-Safe event =
      rw (at, plci_change_state) (plci_row-Safe (find_row q.state event plcitable))

  -- An event with no function.
  pub plci_change_state-Steady :
      (event : ℕ) → quiet event plcitable ≡ true → Steady s (plci_change_state p event s)
  unfolding plci_change_state
  plci_change_state-Steady event h =
      rw (at, plci_change_state)
        (plci_row-Steady (find_row q.state event plcitable)
          (λ r. quiet_row q.state event plcitable r h))

-- An NCCI that is there, with its PLCI.
abbrev pub Live : Card → ℕ → Type 0
Live s n = (k : NcciNode) × (q : PlciNode) × (s.nccis n ≡ some k) × (s.plcis k.plcip ≡ some q)

pub Stay-Live : (s t : Card) (n : ℕ) → Stay s t → Live s n → Live t n
Stay-Live s t n stay (k, q, at, own) =
    let (k1, at1, up1, ch1) = stay.ncci n k at in
    let (q1, own1, on1) = stay.plci k.plcip q own in (k1, q1, at1, ap t.plcis up1 ∙ own1)

module _ (s : Card) (g : Good s) (n : ℕ) where
  pub n0-Safe : Live s n → Safe (n0 n s)
  unfolding n0 emit
  n0-Safe (k, q, at, own) =
      let r =
        Safe-bind s
          (send_message (fill_disconnect_req s.ap_id s.msgid q.plci none none none none)
            (next_msgid s))
          (λ s1. plci_change_state k.plcip ev_plci_disconnect_req s1 >>= λ s2.
            free_ncci n (emit (bhup k.chan) s2))
          (send_next-Steady s _ g (disconnect_req-Sends s.ap_id s.msgid q.plci))
          (λ s1 g1 stay1.
            let (q1, own1, on1) = stay1.plci k.plcip q own in
            Safe-bind s1 (plci_change_state k.plcip ev_plci_disconnect_req s1)
              (λ s2. free_ncci n (emit (bhup k.chan) s2))
              (plci_change_state-Steady s1 g1 k.plcip q1 own1 ev_plci_disconnect_req refl)
              (λ s2 g2 stay2.
                let (k2, q2, at2, own2) =
                  Stay-Live s1 s2 n stay2 (Stay-Live s s1 n stay1 (k, q, at, own)) in
                free_ncci-Safe (emit (bhup k.chan) s2) g2 n k2 q2 at2 own2)) in
      rw (at, own, n0) r

module _ (s : Card) (g : Good s) (n : ℕ) (k : NcciNode) (at : s.nccis n ≡ some k) where
  move : (r : Row) → Steady s (set_ncci n (move_ncci r) s)
  move r = set_ncci-Steady s g n k (move_ncci r) at (ground arith) (ground arith)

  ncci_row-Steady :
      (o : Option Row)
      → ((r : Row) → o ≡ some r → r.changefunc ≡ false)
      → Steady s (take_ncci_row o n s)
  unfolding take_ncci_row
  ncci_row-Steady none none_runs = Steady-some s g
  ncci_row-Steady (some r) none_runs =
      Steady-bind s (set_ncci n (move_ncci r) s) (call_n0 r.changefunc n) (move r)
        (λ s1 g1 stay1. rw (none_runs r refl) (Steady-some s1 g1))

  -- An event with no function; the PLCI may have gone.
  pub ncci_change_state-Steady :
      (event : ℕ) → quiet event nccitable ≡ true → Steady s (ncci_change_state n event s)
  unfolding ncci_change_state
  ncci_change_state-Steady event h =
      rw (at, ncci_change_state)
        (ncci_row-Steady (find_row k.state event nccitable)
          (λ r. quiet_row k.state event nccitable r h))

module _ (s : Card) (g : Good s) (n : ℕ) (k : NcciNode) (q : PlciNode) (at : s.nccis n ≡ some k)
    (own : s.plcis k.plcip ≡ some q) where
  ncci_row-Safe : (o : Option Row) → Safe (take_ncci_row o n s)
  unfolding take_ncci_row
  ncci_row-Safe none = Steady-Safe s (some s) (Steady-some s g)
  ncci_row-Safe (some r) =
      Safe-bind s (set_ncci n (move_ncci r) s) (call_n0 r.changefunc n) (move s g n k at r)
        (λ s1 g1 stay1. elim (Bool-cases r.changefunc) [
          | inl runs ↦ rw runs (n0-Safe s1 g1 n (Stay-Live s s1 n stay1 (k, q, at, own)))
          | inr rests ↦ rw rests (Steady-Safe s1 (some s1) (Steady-some s1 g1))
        ])

-- Any event at an NCCI that is there with its PLCI.
pub ncci_change_state-Safe :
    (s : Card) (n event : ℕ) → Good s → Live s n → Safe (ncci_change_state n event s)
unfolding ncci_change_state
ncci_change_state-Safe s n event g (k, q, at, own) =
    rw (at, ncci_change_state) (ncci_row-Safe s g n k q at own (find_row k.state event nccitable))
