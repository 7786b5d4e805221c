-- ===== src/Capidrv/Buffer.antt =====
-- The messages of linux/drivers/isdn/capi/capidrv.c and the buffer `cmsg->buf`.
pub mod Calls
use capi4linux.Prelude.{
  ℕ, suc, ◌+◌, ◌≤◌, ◌≡◌, refl, ◌⊎◌, inl, inr, true, none, some, List, ◌>>=◌, ==_iff, length, arith,
}
use capi4linux.Memory.{Mem}
use capi4linux.Cmsg.Table.{typ, cdef_typ, cpars, command_2_index}
use capi4linux.Cmsg.Struct.{Cmsg, CStruct, update, capi_cmsg_header}
use capi4linux.Cmsg.Encode.{
  jump_loop, jumpcstruct, struct_size, put_struct, put_par, close_struct, pars_2_message, cmsg_len,
}
use capi4linux.Cmsg.Encode.Total.{Encodes, row-Encodes}
use capi4linux.Cmsg.Fields.{set_num, set_struct}
use capi4linux.Cmsg.Fill.{capi_cmsg_answer}
use capi4linux.Cmsg.Fill.Requests.{
  fill_alert_req, fill_connect_req, fill_connect_b3_req, fill_disconnect_req,
  fill_disconnect_b3_req, fill_data_b3_req, fill_listen_req,
}
use capi4linux.Cmsg.Fill.Responses.{fill_connect_resp, fill_connect_b3_resp}
use capi4linux.Capidrv.Card.{
  buf_size, Layer2, x75i, x75ui, x75bui, hdlc, transparent, v11096, v11019, v11038, fax, modem,
  other_layer2,
}
use capi4linux.Capidrv.Handlers.{is}
use capi4linux.Capidrv.Handlers.Protocols.{b1config, b1config_async_v110}

abbrev pub FitsBuffer : Cmsg → Type 0
FitsBuffer c = (l : ℕ) × (cmsg_len c ≡ some l) × (l ≤ buf_size)

-- A message that can be encoded, and fits.
abbrev pub Sends : Cmsg → Type 0
Sends c = Encodes c × FitsBuffer c

pub row-Sends :
    (c : Cmsg) (par : List ℕ) (l : ℕ)
    → cpars (command_2_index c.command c.subcommand) ≡ some par
    → cmsg_len c ≡ some l
    → l ≤ 180
    → Sends c
row-Sends c par l row e small = (row-Encodes c par row, (l, e, small))

pub connect_b3_req-Sends : (x0 x1 x2 : ℕ) → Sends (fill_connect_b3_req x0 x1 x2 none)
unfolding cmsg_len pars_2_message put_par put_struct jumpcstruct jump_loop typ cdef_typ cpars
    command_2_index fill_connect_b3_req set_struct capi_cmsg_header update
connect_b3_req-Sends x0 x1 x2 = row-Sends _ _ _ refl refl (omega arith)

pub alert_req-Sends : (x0 x1 x2 : ℕ) → Sends (fill_alert_req x0 x1 x2 none none none none)
unfolding cmsg_len pars_2_message put_par put_struct jumpcstruct jump_loop typ cdef_typ cpars
    command_2_index fill_alert_req set_struct capi_cmsg_header update
alert_req-Sends x0 x1 x2 = row-Sends _ _ _ refl refl (omega arith)

pub disconnect_req-Sends : (x0 x1 x2 : ℕ) → Sends (fill_disconnect_req x0 x1 x2 none none none none)
unfolding cmsg_len pars_2_message put_par put_struct jumpcstruct jump_loop typ cdef_typ cpars
    command_2_index fill_disconnect_req set_struct capi_cmsg_header update
disconnect_req-Sends x0 x1 x2 = row-Sends _ _ _ refl refl (omega arith)

pub disconnect_b3_req-Sends : (x0 x1 x2 : ℕ) → Sends (fill_disconnect_b3_req x0 x1 x2 none)
unfolding cmsg_len pars_2_message put_par put_struct jumpcstruct jump_loop typ cdef_typ cpars
    command_2_index fill_disconnect_b3_req set_struct capi_cmsg_header update
disconnect_b3_req-Sends x0 x1 x2 = row-Sends _ _ _ refl refl (omega arith)

pub listen_req-Sends : (x0 x1 x2 x3 x4 x5 : ℕ) → Sends (fill_listen_req x0 x1 x2 x3 x4 x5 none none)
unfolding cmsg_len pars_2_message put_par put_struct jumpcstruct jump_loop typ cdef_typ cpars
    command_2_index fill_listen_req set_num set_struct capi_cmsg_header update
listen_req-Sends x0 x1 x2 x3 x4 x5 = row-Sends _ _ _ refl refl (omega arith)

pub connect_b3_resp-Sends : (x0 x1 x2 x3 : ℕ) → Sends (fill_connect_b3_resp x0 x1 x2 x3 none)
unfolding cmsg_len pars_2_message put_par put_struct jumpcstruct jump_loop typ cdef_typ cpars
    command_2_index fill_connect_b3_resp set_num set_struct capi_cmsg_header update
connect_b3_resp-Sends x0 x1 x2 x3 = row-Sends _ _ _ refl refl (omega arith)

-- The answer to an indication with a command.
abbrev pub Answered : ℕ → Type 0
Answered command = (c : Cmsg) → is command 0x82 c ≡ true → Sends (capi_cmsg_answer c)

pub is-command :
    (command subcommand : ℕ) (c : Cmsg) → is command subcommand c ≡ true → c.command ≡ command
is-command command subcommand c h = (==_iff c.command command).0 (ground arith)

pub is-subcommand :
    (command subcommand : ℕ) (c : Cmsg) → is command subcommand c ≡ true → c.subcommand ≡ subcommand
is-subcommand command subcommand c h = (==_iff c.subcommand subcommand).0 (ground arith)

answer-Sends :
    (command : ℕ) (par : List ℕ) (l : ℕ) (c : Cmsg)
    → cpars (command_2_index command 0x83) ≡ some par
    → is command 0x82 c ≡ true
    → (pars_2_message (suc (length par)) (capi_cmsg_answer c) (λ _. 0) 8 par >>= λ (_, l, _).
        some l)
      ≡ some l
    → l ≤ 180
    → Sends (capi_cmsg_answer c)
unfolding cmsg_len capi_cmsg_answer
answer-Sends command par l c row h e small =
    let row' : cpars (command_2_index (capi_cmsg_answer c).command (capi_cmsg_answer c).subcommand)
        ≡ some par =
      rw (is-command command 0x82 c h, is-subcommand command 0x82 c h) row in
    row-Sends (capi_cmsg_answer c) par l row' (rw row' e) small

-- The answers whose length does not depend on the indication.
pub answers-Send :
    Answered 0x03
    × Answered 0x04
    × Answered 0x83
    × Answered 0x84
    × Answered 0x86
    × Answered 0x87
    × Answered 0x88
unfolding pars_2_message put_par put_struct jumpcstruct jump_loop typ cdef_typ cpars command_2_index
    capi_cmsg_answer
answers-Send = (
  λ c h. answer-Sends 0x03 _ 12 c refl h refl (omega arith),
  λ c h. answer-Sends 0x04 _ 12 c refl h refl (omega arith),
  λ c h. answer-Sends 0x83 _ 12 c refl h refl (omega arith),
  λ c h. answer-Sends 0x84 _ 12 c refl h refl (omega arith),
  λ c h. answer-Sends 0x86 _ 14 c refl h refl (omega arith),
  λ c h. answer-Sends 0x87 _ 12 c refl h refl (omega arith),
  λ c h. answer-Sends 0x88 _ 12 c refl h refl (omega arith),
)

-- A refusal can be encoded.
pub refusal-Encodes :
    (command : ℕ) (par : List ℕ) (c : Cmsg) (field v : ℕ)
    → cpars (command_2_index command 0x83) ≡ some par
    → is command 0x82 c ≡ true
    → Encodes (set_num field v (capi_cmsg_answer c))
unfolding capi_cmsg_answer set_num
refusal-Encodes command par c field v row h =
    row-Encodes (set_num field v (capi_cmsg_answer c)) par
      (rw (is-command command 0x82 c h, is-subcommand command 0x82 c h) row)

pub data_b3_req-Encodes :
    (x0 x1 x2 x3 x4 x5 x6 : ℕ) → Encodes (fill_data_b3_req x0 x1 x2 x3 x4 x5 x6)
unfolding cpars command_2_index fill_data_b3_req set_num capi_cmsg_header
data_b3_req-Encodes x0 x1 x2 x3 x4 x5 x6 =
    row-Encodes (fill_data_b3_req x0 x1 x2 x3 x4 x5 x6) _ refl
