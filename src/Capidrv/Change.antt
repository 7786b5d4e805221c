-- ===== src/Capidrv/Change.antt =====
-- Changes of state in linux/drivers/isdn/capi/capidrv.c, with the functions `p0` and `n0` that go with
-- them.
use capi4linux.Prelude.{ℕ, Bool, true, false, Option, none, some, ◌==◌, if◌then◌else◌, ◌>>=◌}
use capi4linux.Cmsg.Fill.Requests.{fill_disconnect_req}
use capi4linux.Capidrv.Tables.{
  Row, find_row, listentable, plcitable, nccitable, st_ncci_previous, ev_plci_disconnect_req,
}
use capi4linux.Capidrv.Card.{
  NcciNode, Card, dhup, bhup, emit, next_msgid, set_bchan, set_plci, set_ncci, send_message,
}
use capi4linux.Capidrv.Nodes.{free_plci, free_ncci}

-- `listen_change_state`.
unfoldable pub listen_change_state : ℕ → Card → Card
unfolding find_row
listen_change_state event s = elim (find_row s.state event listentable) [
  | none ↦ s
  | some r ↦ record s { state = r.nextstate }
]

-- `p0`, for the PLCI `p`.
unfoldable pub p0 : ℕ → Card → Option Card
unfolding set_bchan emit free_plci
p0 p s = s.plcis p >>= λ q. set_bchan q.chan (λ b. record b { contr = false }) s >>= λ s1.
    free_plci p (emit (dhup q.chan) s1)

abbrev pub call_p0 : Bool → ℕ → Card → Option Card
call_p0 false p s = some s
call_p0 true p s = p0 p s

-- `plci_change_state` in the row that is found.
unfoldable pub take_plci_row : Option Row → ℕ → Card → Option Card
unfolding set_plci p0
take_plci_row none p s = some s
take_plci_row (some r) p s =
    set_plci p (λ q. record q { state = r.nextstate }) s >>= call_p0 r.changefunc p

-- `plci_change_state`, for the PLCI `p`.
unfoldable pub plci_change_state : ℕ → ℕ → Card → Option Card
unfolding take_plci_row find_row
plci_change_state p event s =
    s.plcis p >>= λ q. take_plci_row (find_row q.state event plcitable) p s

-- `n0`, for the NCCI `n`.
unfoldable pub n0 : ℕ → Card → Option Card
unfolding next_msgid send_message plci_change_state emit free_ncci fill_disconnect_req
n0 n s = s.nccis n >>= λ k. s.plcis k.plcip >>= λ q.
    send_message (fill_disconnect_req s.ap_id s.msgid q.plci none none none none) (next_msgid s)
    >>= λ s1. plci_change_state k.plcip ev_plci_disconnect_req s1 >>= λ s2.
        free_ncci n (emit (bhup k.chan) s2)

abbrev pub call_n0 : Bool → ℕ → Card → Option Card
call_n0 false n s = some s
call_n0 true n s = n0 n s

-- The new state of an NCCI, and the one before.
abbrev pub move_ncci : Row → NcciNode → NcciNode
move_ncci r k =
    if r.nextstate == st_ncci_previous
    then record k { state = k.oldstate; oldstate = r.actstate }
    else record k { oldstate = r.actstate; state = r.nextstate }

unfoldable pub take_ncci_row : Option Row → ℕ → Card → Option Card
unfolding set_ncci n0
take_ncci_row none n s = some s
take_ncci_row (some r) n s = set_ncci n (move_ncci r) s >>= call_n0 r.changefunc n

-- `ncci_change_state`, for the NCCI `n`.
unfoldable pub ncci_change_state : ℕ → ℕ → Card → Option Card
unfolding take_ncci_row find_row
ncci_change_state n event s =
    s.nccis n >>= λ k. take_ncci_row (find_row k.state event nccitable) n s
