-- ===== src/Capidrv/Safety/Disconnect.antt =====
-- The end of a connection in linux/drivers/isdn/capi/capidrv.c: what a `DISCONNECT_IND` does.
use capi4linux.Prelude.{
  ℕ, ◌<◌, ◌≡◌, refl, sym, ap, ◌∙◌, true, false, Option, none, some, List, [], ◌∷◌, ◌++◌, ◌>>=◌,
  some-injective, lt→ltb, le→leb, ◌+◌,
}
use mathlib.Core.Path.{subst}
use capi4linux.Memory.{Mem}
use capi4linux.Cmsg.Struct.{Cmsg, update, update_self}
use capi4linux.Cmsg.Table.{cpars, command_2_index}
use capi4linux.Cmsg.Encode.{capi_cmsg2message, cmsg_len}
use capi4linux.Cmsg.Fill.{capi_cmsg_answer}
use capi4linux.Capidrv.Tables.{
  Row, find_row, plcitable, st_plci_disconnected, ev_plci_disconnect_ind, ev_plci_disconnect_resp,
}
use capi4linux.Capidrv.Tables.Paths.{next_state}
use capi4linux.Capidrv.Card.{
  PlciNode, Bchan, Card, Output, sent, dhup, emit, set_bchan, set_plci, send_message, no_bytes,
}
use capi4linux.Capidrv.Nodes.{unchain, free_plci}
use capi4linux.Capidrv.Change.{p0, call_p0, take_plci_row, plci_change_state}
use capi4linux.Capidrv.Buffer.{answers-Send, Sends}
use capi4linux.Capidrv.Links.{Good, look}
use capi4linux.Capidrv.Links.Writes.{set_plci-Steady, set_bchan-Steady}
use capi4linux.Capidrv.Links.Changes.{quiet, quiet_row}
use capi4linux.Capidrv.Handlers.{is, send_answer}
use capi4linux.Capidrv.Handlers.Plcis.{set_disconnecting, disconnect_ind}

-- A card on which the PLCI `p` is `q`, with its links, and what was sent and told.
abbrev pub At : ℕ → PlciNode → List Output → Card → Type 0
At p q out s = Good s × (s.plcis p ≡ some q) × (s.out ≡ out)

-- The PLCI has gone, its channel is free, and `dhup` was told last.
abbrev pub Freed : ℕ → PlciNode → List Output → Card → Type 0
Freed p q out s =
    (s.plcis p ≡ none)
    × ((s.bchans q.chan).plcip ≡ none)
    × ((s.bchans q.chan).contr ≡ false)
    × (s.out ≡ out ++ dhup q.chan ∷ [])

module _ (s : Card) (p : ℕ) (q : PlciNode) (out : List Output) (here : At p q out s) where
  inside : q.chan < s.nbchan
  inside = (here.0.owner p q here.1).0

  set_plci-At :
      (f : PlciNode → PlciNode)
      → (f q).chan ≡ q.chan
      → (f q).ncci_list ≡ q.ncci_list
      → (s' : Card) × (set_plci p f s ≡ some s') × At p (f q) out s'
  unfolding set_plci
  set_plci-At f chan chain =
      let s0 = record s { plcis = update p (some (f q)) s.plcis } in
      let e : set_plci p f s ≡ some s0 =
        ap (λ x. x >>= λ y. some (record s { plcis = update p (some (f y)) s.plcis })) here.1 in
      let (s1, e1, g1, _) = set_plci-Steady s here.0 p q f here.1 chan chain in
      (
        s0,
        e,
        (
          subst Good (some-injective s1 s0 (sym e1 ∙ e)) g1,
          update_self p (some (f q)) s.plcis,
          here.2,
        ),
      )

  set_bchan-At :
      (f : Bchan → Bchan)
      → (f (s.bchans q.chan)).plcip ≡ (s.bchans q.chan).plcip
      → (f (s.bchans q.chan)).nccip ≡ (s.bchans q.chan).nccip
      → (s' : Card) × (set_bchan q.chan f s ≡ some s')
        × At p q out s'
        × (s'.bchans q.chan ≡ f (s.bchans q.chan))
  unfolding set_bchan
  set_bchan-At f keeps_plci keeps_ncci =
      let s0 = record s { bchans = update q.chan (f (s.bchans q.chan)) s.bchans } in
      let e : set_bchan q.chan f s ≡ some s0 = rw (lt→ltb q.chan s.nbchan inside) refl in
      let (s1, e1, g1, _) = set_bchan-Steady s here.0 q.chan f inside keeps_plci keeps_ncci in
      (
        s0,
        e,
        (subst Good (some-injective s1 s0 (sym e1 ∙ e)) g1, here.1, here.2),
        update_self q.chan (f (s.bchans q.chan)) s.bchans,
      )

  send_message-At :
      (c : Cmsg)
      → Sends c
      → (s' : Card) × (m : Mem) × (send_message c s ≡ some s')
        × (capi_cmsg2message c no_bytes ≡ some m)
        × At p q (out ++ sent m ∷ []) s'
  unfolding send_message emit
  send_message-At c (enc, (l, e', small)) =
      let (m, e) = enc no_bytes in
      let s1 = emit (sent m) (record s { allocs = s.allocs + 1 }) in
      (
        s1,
        m,
        look (λ x. x ≡ some s1) (capi_cmsg2message c no_bytes) m _ e
            (look (λ x. x ≡ some s1) (cmsg_len c) l _ e'
              (rw (le→leb l 180 small, here.0.buffers s.allocs) refl)),
        e,
        (here.0, here.1, ap (λ o. o ++ sent m ∷ []) here.2),
      )

  free_plci-Freed :
      (s.bchans q.chan).contr ≡ false
      → (s' : Card) × (free_plci p (emit (dhup q.chan) s) ≡ some s') × Freed p q out s'
  unfolding free_plci emit set_bchan
  free_plci-Freed off =
      let b : Bchan = record (s.bchans q.chan) {
        plcip = none;
        disconnecting = false;
        incoming = false;
      } in
      (
        record s {
          plci_list = unchain p s.plci_list;
          plcis = update p none s.plcis;
          bchans = update q.chan b s.bchans;
          out = s.out ++ dhup q.chan ∷ [];
        },
        rw (here.1, here.0.chained p q here.1, lt→ltb q.chan s.nbchan inside, free_plci, set_bchan)
            refl,
        (
          update_self p none s.plcis,
          ap (λ x. x.plcip) (update_self q.chan b s.bchans),
          ap (λ x. x.contr) (update_self q.chan b s.bchans) ∙ off,
          ap (λ o. o ++ dhup q.chan ∷ []) here.2,
        ),
      )

module _ (s : Card) (p : ℕ) (q : PlciNode) (out : List Output) (here : At p q out s) where
  p0-Freed : (s' : Card) × (p0 p s ≡ some s') × Freed p q out s'
  unfolding p0
  p0-Freed =
      let (s1, e1, here1, chan1) =
        set_bchan-At s p q out here (λ b. record b { contr = false }) refl refl in
      let (s2, e2, freed) = free_plci-Freed s1 p q out here1 (ap (λ b. b.contr) chan1) in
      (
        s2,
        look (λ m. m ≡ some s2) (s.plcis p) q _ here.1
            (look (λ m. m ≡ some s2) (set_bchan q.chan (λ b. record b { contr = false }) s) s1 _ e1
              e2),
        freed,
      )

  -- An event with no function.
  row-At :
      (o : Option Row)
      → ((r : Row) → o ≡ some r → r.changefunc ≡ false)
      → (s' : Card) × (take_plci_row o p s ≡ some s')
        × At p (record q { state = elim o [ none ↦ q.state | some r ↦ r.nextstate ] }) out s'
  unfolding take_plci_row
  row-At none rests = (s, refl, here)
  row-At (some r) rests =
      let (s1, e1, here1) =
        set_plci-At s p q out here (λ q. record q { state = r.nextstate }) refl refl in
      (
        s1,
        look (λ m. m ≡ some s1) (set_plci p (λ q. record q { state = r.nextstate }) s) s1
            (call_p0 r.changefunc p) e1 (rw (rests r refl) refl),
        here1,
      )

module _ (s : Card) (p : ℕ) (q : PlciNode) (out : List Output) (here : At p q out s) where
  plci_change_state-At :
      (event : ℕ)
      → quiet event plcitable ≡ true
      → (s' : Card) × (plci_change_state p event s ≡ some s')
        × At p (record q { state = next_state plcitable q.state event }) out s'
  unfolding plci_change_state next_state
  plci_change_state-At event h =
      let (s1, e1, here1) =
        row-At s p q out here (find_row q.state event plcitable)
          (λ r. quiet_row q.state event plcitable r h) in
      (
        s1,
        look (λ m. m ≡ some s1) (s.plcis p) q
            (λ q. take_plci_row (find_row q.state event plcitable) p s) here.1 e1,
        here1,
      )

  -- The response frees a PLCI in the state P-6.
  resp-Freed :
      q.state ≡ st_plci_disconnected
      → (s' : Card) × (plci_change_state p ev_plci_disconnect_resp s ≡ some s') × Freed p q out s'
  unfolding plci_change_state take_plci_row find_row
  resp-Freed six =
      let (s1, e1, here1) = set_plci-At s p q out here (λ q. record q { state = 0 }) refl refl in
      let (s2, e2, freed) = p0-Freed s1 p (record q { state = 0 }) out here1 in
      (
        s2,
        look (λ m. m ≡ some s2) (s.plcis p) q
            (λ q. take_plci_row (find_row q.state ev_plci_disconnect_resp plcitable) p s) here.1
            (subst (λ x. take_plci_row (find_row x ev_plci_disconnect_resp plcitable) p s ≡ some s2)
              (sym six)
              (look (λ m. m ≡ some s2) (set_plci p (λ q. record q { state = 0 }) s) s1
                (call_p0 true p) e1 e2)),
        freed,
      )

-- On a card whose links hold, with a buffer for every message, a DISCONNECT_IND for a PLCI in a
-- state that the event leads to P-6 answers with the encoded response, frees the PLCI and its
-- channel, and tells ISDN4Linux that the channel is down, in this order and nothing else.
pub disconnect_ind-Freed :
    (c : Cmsg) (s : Card) (p : ℕ) (q : PlciNode)
    → Good s
    → is 0x04 0x82 c ≡ true
    → s.plcis p ≡ some q
    → next_state plcitable q.state ev_plci_disconnect_ind ≡ st_plci_disconnected
    → (s' : Card) × (m : Mem) × (disconnect_ind c p s ≡ some s')
      × (capi_cmsg2message (capi_cmsg_answer c) no_bytes ≡ some m)
      × Freed p q (s.out ++ sent m ∷ []) s'
unfolding disconnect_ind cpars command_2_index
disconnect_ind-Freed c s p q g h at six =
    let (s1, e1, here1, _) =
      set_bchan-At s p q s.out (g, at, refl) (λ b. record b { disconnecting = true }) refl refl in
    let (s2, e2, here2) = plci_change_state-At s1 p q s.out here1 ev_plci_disconnect_ind refl in
    let (s3, m, e3, encoded, here3) =
      send_message-At s2 p _ s.out here2 (capi_cmsg_answer c) (answers-Send.1 c h) in
    let (s4, e4, freed) = resp-Freed s3 p _ (s.out ++ sent m ∷ []) here3 six in
    (
      s4,
      m,
      look (λ x. x ≡ some s4) (s.plcis p) q _ at
          (look (λ x. x ≡ some s4) (set_disconnecting q.chan s) s1 _ e1
            (look (λ x. x ≡ some s4) (plci_change_state p ev_plci_disconnect_ind s1) s2 _ e2
              (look (λ x. x ≡ some s4) (send_answer c s2) s3 _ e3 e4))),
      encoded,
      freed,
    )
