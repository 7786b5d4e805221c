-- ===== src/Capidrv/Tables.antt =====
-- The state machines of linux/drivers/isdn/capi/capidrv.c, with the states and events of
-- linux/drivers/isdn/capi/capidrv.h. A state, an event and a table's row are what they are in C; the
-- function of a row, `p0` or `n0`, is a mark here, and stands with the cards.
pub mod Paths
use capi4linux.Prelude.{
  ℕ, Bool, true, false, ◌&&◌, Option, none, some, List, [], ◌∷◌, ◌==◌, if◌then◌else◌,
}

abbrev pub st_listen_none : ℕ
st_listen_none = 0

abbrev pub st_listen_wait_conf : ℕ
st_listen_wait_conf = 1

abbrev pub st_listen_active : ℕ
st_listen_active = 2

abbrev pub st_listen_active_wait_conf : ℕ
st_listen_active_wait_conf = 3

abbrev pub ev_listen_req : ℕ
ev_listen_req = 1

abbrev pub ev_listen_conf_error : ℕ
ev_listen_conf_error = 2

abbrev pub ev_listen_conf_empty : ℕ
ev_listen_conf_empty = 3

abbrev pub ev_listen_conf_ok : ℕ
ev_listen_conf_ok = 4

abbrev pub st_plci_none : ℕ
st_plci_none = 0

abbrev pub st_plci_outgoing : ℕ
st_plci_outgoing = 1

abbrev pub st_plci_allocated : ℕ
st_plci_allocated = 2

abbrev pub st_plci_active : ℕ
st_plci_active = 3

abbrev pub st_plci_incoming : ℕ
st_plci_incoming = 4

abbrev pub st_plci_facility_ind : ℕ
st_plci_facility_ind = 5

abbrev pub st_plci_accepting : ℕ
st_plci_accepting = 6

abbrev pub st_plci_disconnecting : ℕ
st_plci_disconnecting = 7

abbrev pub st_plci_disconnected : ℕ
st_plci_disconnected = 8

abbrev pub st_plci_resumeing : ℕ
st_plci_resumeing = 9

abbrev pub st_plci_resume : ℕ
st_plci_resume = 10

abbrev pub st_plci_held : ℕ
st_plci_held = 11

abbrev pub ev_plci_connect_req : ℕ
ev_plci_connect_req = 1

abbrev pub ev_plci_connect_conf_error : ℕ
ev_plci_connect_conf_error = 2

abbrev pub ev_plci_connect_conf_ok : ℕ
ev_plci_connect_conf_ok = 3

abbrev pub ev_plci_facility_ind_up : ℕ
ev_plci_facility_ind_up = 4

abbrev pub ev_plci_connect_ind : ℕ
ev_plci_connect_ind = 5

abbrev pub ev_plci_connect_active_ind : ℕ
ev_plci_connect_active_ind = 6

abbrev pub ev_plci_connect_reject : ℕ
ev_plci_connect_reject = 7

abbrev pub ev_plci_disconnect_req : ℕ
ev_plci_disconnect_req = 8

abbrev pub ev_plci_disconnect_ind : ℕ
ev_plci_disconnect_ind = 9

abbrev pub ev_plci_facility_ind_down : ℕ
ev_plci_facility_ind_down = 10

abbrev pub ev_plci_disconnect_resp : ℕ
ev_plci_disconnect_resp = 11

abbrev pub ev_plci_connect_resp : ℕ
ev_plci_connect_resp = 12

abbrev pub ev_plci_resume_req : ℕ
ev_plci_resume_req = 13

abbrev pub ev_plci_resume_conf_ok : ℕ
ev_plci_resume_conf_ok = 14

abbrev pub ev_plci_resume_conf_error : ℕ
ev_plci_resume_conf_error = 15

abbrev pub ev_plci_resume_ind : ℕ
ev_plci_resume_ind = 16

abbrev pub ev_plci_hold_ind : ℕ
ev_plci_hold_ind = 17

abbrev pub ev_plci_retrieve_ind : ℕ
ev_plci_retrieve_ind = 18

abbrev pub ev_plci_suspend_ind : ℕ
ev_plci_suspend_ind = 19

abbrev pub ev_plci_cd_ind : ℕ
ev_plci_cd_ind = 20

-- `ST_NCCI_PREVIOUS`, which is -1: a number that is no other state.
abbrev pub st_ncci_previous : ℕ
st_ncci_previous = 0xff

abbrev pub st_ncci_none : ℕ
st_ncci_none = 0

abbrev pub st_ncci_outgoing : ℕ
st_ncci_outgoing = 1

abbrev pub st_ncci_incoming : ℕ
st_ncci_incoming = 2

abbrev pub st_ncci_allocated : ℕ
st_ncci_allocated = 3

abbrev pub st_ncci_active : ℕ
st_ncci_active = 4

abbrev pub st_ncci_reseting : ℕ
st_ncci_reseting = 5

abbrev pub st_ncci_disconnecting : ℕ
st_ncci_disconnecting = 6

abbrev pub st_ncci_disconnected : ℕ
st_ncci_disconnected = 7

abbrev pub ev_ncci_connect_b3_req : ℕ
ev_ncci_connect_b3_req = 1

abbrev pub ev_ncci_connect_b3_ind : ℕ
ev_ncci_connect_b3_ind = 2

abbrev pub ev_ncci_connect_b3_conf_ok : ℕ
ev_ncci_connect_b3_conf_ok = 3

abbrev pub ev_ncci_connect_b3_conf_error : ℕ
ev_ncci_connect_b3_conf_error = 4

abbrev pub ev_ncci_connect_b3_reject : ℕ
ev_ncci_connect_b3_reject = 5

abbrev pub ev_ncci_connect_b3_resp : ℕ
ev_ncci_connect_b3_resp = 6

abbrev pub ev_ncci_connect_b3_active_ind : ℕ
ev_ncci_connect_b3_active_ind = 7

abbrev pub ev_ncci_reset_b3_req : ℕ
ev_ncci_reset_b3_req = 8

abbrev pub ev_ncci_reset_b3_ind : ℕ
ev_ncci_reset_b3_ind = 9

abbrev pub ev_ncci_disconnect_b3_ind : ℕ
ev_ncci_disconnect_b3_ind = 10

abbrev pub ev_ncci_disconnect_b3_conf_error : ℕ
ev_ncci_disconnect_b3_conf_error = 11

abbrev pub ev_ncci_disconnect_b3_req : ℕ
ev_ncci_disconnect_b3_req = 12

abbrev pub ev_ncci_disconnect_b3_resp : ℕ
ev_ncci_disconnect_b3_resp = 13

-- A row: the state, the next state, the event, and whether the row has a function.
pub record Row : Type 0 where
  pub actstate : ℕ
  pub nextstate : ℕ
  pub event : ℕ
  pub changefunc : Bool

abbrev pub row : ℕ → ℕ → ℕ → Row
row actstate nextstate event = record {
  actstate = actstate;
  nextstate = nextstate;
  event = event;
  changefunc = false;
}

abbrev pub row_func : ℕ → ℕ → ℕ → Row
row_func actstate nextstate event = record {
  actstate = actstate;
  nextstate = nextstate;
  event = event;
  changefunc = true;
}

-- `listentable`, without its end.
abbrev pub listentable : List Row
listentable =
    row st_listen_none st_listen_wait_conf ev_listen_req
    ∷ row st_listen_active st_listen_active_wait_conf ev_listen_req
    ∷ row st_listen_wait_conf st_listen_none ev_listen_conf_error
    ∷ row st_listen_active_wait_conf st_listen_active ev_listen_conf_error
    ∷ row st_listen_wait_conf st_listen_none ev_listen_conf_empty
    ∷ row st_listen_active_wait_conf st_listen_none ev_listen_conf_empty
    ∷ row st_listen_wait_conf st_listen_active ev_listen_conf_ok
    ∷ row st_listen_active_wait_conf st_listen_active ev_listen_conf_ok
    ∷ []

-- `plcitable`, without its end.
abbrev pub plcitable : List Row
plcitable =
    row st_plci_none st_plci_outgoing ev_plci_connect_req
    ∷ row st_plci_none st_plci_allocated ev_plci_facility_ind_up
    ∷ row st_plci_none st_plci_incoming ev_plci_connect_ind
    ∷ row st_plci_none st_plci_resumeing ev_plci_resume_req
    ∷ row_func st_plci_outgoing st_plci_none ev_plci_connect_conf_error
    ∷ row st_plci_outgoing st_plci_allocated ev_plci_connect_conf_ok
    ∷ row st_plci_allocated st_plci_active ev_plci_connect_active_ind
    ∷ row st_plci_allocated st_plci_disconnecting ev_plci_disconnect_req
    ∷ row st_plci_allocated st_plci_disconnecting ev_plci_facility_ind_down
    ∷ row st_plci_allocated st_plci_disconnected ev_plci_disconnect_ind
    ∷ row st_plci_active st_plci_disconnecting ev_plci_disconnect_req
    ∷ row st_plci_active st_plci_disconnecting ev_plci_facility_ind_down
    ∷ row st_plci_active st_plci_disconnected ev_plci_disconnect_ind
    ∷ row st_plci_active st_plci_held ev_plci_hold_ind
    ∷ row st_plci_active st_plci_disconnecting ev_plci_suspend_ind
    ∷ row st_plci_incoming st_plci_disconnecting ev_plci_connect_reject
    ∷ row st_plci_incoming st_plci_facility_ind ev_plci_facility_ind_up
    ∷ row st_plci_incoming st_plci_accepting ev_plci_connect_resp
    ∷ row st_plci_incoming st_plci_disconnecting ev_plci_disconnect_req
    ∷ row st_plci_incoming st_plci_disconnecting ev_plci_facility_ind_down
    ∷ row st_plci_incoming st_plci_disconnected ev_plci_disconnect_ind
    ∷ row st_plci_incoming st_plci_disconnecting ev_plci_cd_ind
    ∷ row st_plci_facility_ind st_plci_disconnecting ev_plci_connect_reject
    ∷ row st_plci_facility_ind st_plci_accepting ev_plci_connect_active_ind
    ∷ row st_plci_facility_ind st_plci_disconnecting ev_plci_disconnect_req
    ∷ row st_plci_facility_ind st_plci_disconnecting ev_plci_facility_ind_down
    ∷ row st_plci_facility_ind st_plci_disconnected ev_plci_disconnect_ind
    ∷ row st_plci_accepting st_plci_active ev_plci_connect_active_ind
    ∷ row st_plci_accepting st_plci_disconnecting ev_plci_disconnect_req
    ∷ row st_plci_accepting st_plci_disconnecting ev_plci_facility_ind_down
    ∷ row st_plci_accepting st_plci_disconnected ev_plci_disconnect_ind
    ∷ row st_plci_disconnecting st_plci_disconnected ev_plci_disconnect_ind
    ∷ row_func st_plci_disconnected st_plci_none ev_plci_disconnect_resp
    ∷ row_func st_plci_resumeing st_plci_none ev_plci_resume_conf_error
    ∷ row st_plci_resumeing st_plci_resume ev_plci_resume_conf_ok
    ∷ row st_plci_resume st_plci_active ev_plci_resume_ind
    ∷ row st_plci_held st_plci_active ev_plci_retrieve_ind
    ∷ []

-- `nccitable`, without its end.
abbrev pub nccitable : List Row
nccitable =
    row st_ncci_none st_ncci_outgoing ev_ncci_connect_b3_req
    ∷ row st_ncci_none st_ncci_incoming ev_ncci_connect_b3_ind
    ∷ row st_ncci_outgoing st_ncci_allocated ev_ncci_connect_b3_conf_ok
    ∷ row_func st_ncci_outgoing st_ncci_none ev_ncci_connect_b3_conf_error
    ∷ row st_ncci_incoming st_ncci_disconnecting ev_ncci_connect_b3_reject
    ∷ row st_ncci_incoming st_ncci_allocated ev_ncci_connect_b3_resp
    ∷ row st_ncci_incoming st_ncci_disconnected ev_ncci_disconnect_b3_ind
    ∷ row st_ncci_incoming st_ncci_disconnecting ev_ncci_disconnect_b3_req
    ∷ row st_ncci_allocated st_ncci_active ev_ncci_connect_b3_active_ind
    ∷ row st_ncci_allocated st_ncci_disconnected ev_ncci_disconnect_b3_ind
    ∷ row st_ncci_allocated st_ncci_disconnecting ev_ncci_disconnect_b3_req
    ∷ row st_ncci_active st_ncci_active ev_ncci_reset_b3_ind
    ∷ row st_ncci_active st_ncci_reseting ev_ncci_reset_b3_req
    ∷ row st_ncci_active st_ncci_disconnected ev_ncci_disconnect_b3_ind
    ∷ row st_ncci_active st_ncci_disconnecting ev_ncci_disconnect_b3_req
    ∷ row st_ncci_reseting st_ncci_active ev_ncci_reset_b3_ind
    ∷ row st_ncci_reseting st_ncci_disconnected ev_ncci_disconnect_b3_ind
    ∷ row st_ncci_reseting st_ncci_disconnecting ev_ncci_disconnect_b3_req
    ∷ row st_ncci_disconnecting st_ncci_disconnected ev_ncci_disconnect_b3_ind
    ∷ row st_ncci_disconnecting st_ncci_previous ev_ncci_disconnect_b3_conf_error
    ∷ row_func st_ncci_disconnected st_ncci_none ev_ncci_disconnect_b3_resp
    ∷ []

-- The loop over a table: the first row for the state and the event.
unfoldable pub find_row : ℕ → ℕ → List Row → Option Row
find_row state event [] = none
find_row state event (r ∷ rs) =
    if (state == r.actstate) && (r.event == event) then some r else find_row state event rs
