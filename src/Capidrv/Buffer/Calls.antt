-- ===== src/Capidrv/Buffer/Calls.antt =====
-- The lengths of the messages of a call in linux/drivers/isdn/capi/capidrv.c: `CONNECT_REQ` and
-- `CONNECT_RESP`.
use capi4linux.Prelude.{ℕ, ◌+◌, ◌≤◌, ◌≡◌, refl, ◌⊎◌, inl, inr, none, some, arith}
use capi4linux.Memory.{Mem}
use capi4linux.Cmsg.Table.{typ, cdef_typ, cpars, command_2_index}
use capi4linux.Cmsg.Struct.{CStruct, update, capi_cmsg_header}
use capi4linux.Cmsg.Encode.{
  jump_loop, jumpcstruct, struct_size, put_struct, put_par, close_struct, pars_2_message, cmsg_len,
}
use capi4linux.Cmsg.Encode.Total.{row-Encodes}
use capi4linux.Cmsg.Fields.{set_num, set_struct}
use capi4linux.Cmsg.Fill.Requests.{fill_connect_req}
use capi4linux.Cmsg.Fill.Responses.{fill_connect_resp}
use capi4linux.Capidrv.Card.{
  Layer2, x75i, x75ui, x75bui, hdlc, transparent, v11096, v11019, v11038, fax, modem, other_layer2,
}
use capi4linux.Capidrv.Handlers.Protocols.{b1config, b1config_async_v110}
use capi4linux.Capidrv.Buffer.{Sends, row-Sends}

-- The configuration of a protocol is NULL, or that of a rate.
b1config-cases :
    (l : Layer2) → (b1config l ≡ none) ⊎ ((rate : ℕ) × (b1config l ≡ b1config_async_v110 rate))
unfolding b1config
b1config-cases x75i = inl refl
b1config-cases x75ui = inl refl
b1config-cases x75bui = inl refl
b1config-cases hdlc = inl refl
b1config-cases transparent = inl refl
b1config-cases v11096 = inr (9600, refl)
b1config-cases v11019 = inr (19200, refl)
b1config-cases v11038 = inr (38400, refl)
b1config-cases fax = inl refl
b1config-cases modem = inl refl
b1config-cases other_layer2 = inl refl

-- The `CONNECT_RESP` with a configuration.
pub connect_resp-Sends :
    (x0 x1 x2 x3 x4 x5 x6 : ℕ) (l : Layer2)
    → Sends (
        fill_connect_resp x0 x1 x2 x3 x4 x5 x6
          (b1config l)
          none
          none
          none
          none
          none
          none
          none
          none
          none)
unfolding cmsg_len pars_2_message put_par put_struct struct_size close_struct jumpcstruct jump_loop
    typ cdef_typ cpars command_2_index fill_connect_resp set_num set_struct capi_cmsg_header update
connect_resp-Sends x0 x1 x2 x3 x4 x5 x6 l = elim (b1config-cases l) [
  | inl e ↦ rw e (row-Sends _ _ 32 refl refl (omega arith))
  | inr (rate, e) ↦ rw e (row-Sends _ _ 40 refl refl (omega arith))
]

-- The bytes that a structure takes in a message.
abbrev taken : CStruct → ℕ
taken none = 1
taken (some m) = struct_size m

-- The length of a `CONNECT_REQ`, by its structures.
connect_req_len :
    (x0 x1 x2 x3 x8 x9 x10 : ℕ) (m1 m2 : Mem) (config line : CStruct)
    → cmsg_len (
        fill_connect_req x0 x1 x2 x3
          (some m1)
          (some m2)
          none
          none
          x8
          x9
          x10
          config
          none
          none
          none
          none
          none
          line
          none
          none
          none)
      ≡ some (
          14
          + struct_size m1
          + struct_size m2
          + 1
          + 1
          + 1
          + 2
          + 2
          + 2
          + taken config
          + 1
          + 1
          + 1
          + 1
          + 1
          + 1
          + taken line
          + 1
          + 1
          + 1)
unfolding cmsg_len pars_2_message put_par put_struct close_struct jumpcstruct jump_loop typ cdef_typ
    cpars command_2_index fill_connect_req set_num set_struct capi_cmsg_header update
connect_req_len x0 x1 x2 x3 x8 x9 x10 m1 m2 none none = refl
connect_req_len x0 x1 x2 x3 x8 x9 x10 m1 m2 none (some m4) = refl
connect_req_len x0 x1 x2 x3 x8 x9 x10 m1 m2 (some m3) none = refl
connect_req_len x0 x1 x2 x3 x8 x9 x10 m1 m2 (some m3) (some m4) = refl

config-taken : (l : Layer2) → taken (b1config l) ≤ 9
unfolding struct_size
config-taken l = elim (b1config-cases l) [
  | inl e ↦ rw e (omega arith)
  | inr (rate, e) ↦ rw e (omega arith)
]

-- A `CONNECT_REQ` with two short structures, and what a leased line needs.
pub connect_req-Sends :
    (x0 x1 x2 x3 x8 x9 x10 : ℕ) (l : Layer2) (m1 m2 : Mem) (line : CStruct)
    → m1 0 ≤ 40
    → m2 0 ≤ 40
    → taken line ≤ 40
    → Sends (
        fill_connect_req x0 x1 x2 x3
          (some m1)
          (some m2)
          none
          none
          x8
          x9
          x10
          (b1config l)
          none
          none
          none
          none
          none
          line
          none
          none
          none)
unfolding struct_size cpars command_2_index fill_connect_req set_num set_struct capi_cmsg_header
connect_req-Sends x0 x1 x2 x3 x8 x9 x10 l m1 m2 line h1 h2 h3 = (
  row-Encodes _ _ refl,
  (
    _,
    connect_req_len x0 x1 x2 x3 x8 x9 x10 m1 m2 (b1config l) line,
    connect_req_small (struct_size m1) (struct_size m2) (taken (b1config l)) (taken line)
        (short m1 h1) (short m2 h2) (config-taken l) h3,
  ),
)
  where
    short : (m : Mem) → m 0 ≤ 40 → struct_size m ≤ 41
    short m h = ground arith

    connect_req_small :
        (a b c d : ℕ)
        → a ≤ 41
        → b ≤ 41
        → c ≤ 9
        → d ≤ 40
        → 14 + a + b + 1 + 1 + 1 + 2 + 2 + 2 + c + 1 + 1 + 1 + 1 + 1 + 1 + d + 1 + 1 + 1 ≤ 180
    connect_req_small a b c d h1 h2 h3 h4 = omega arith
