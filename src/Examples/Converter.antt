-- ===== src/Examples/Converter.antt =====
-- Messages for the converter of linux/drivers/isdn/capi/capiutil.c: an ALERT_REQ, and a composed
-- structure that is too long for a length of one byte.
use capi4linux.Prelude.{
  all_of, true, ℕ, ◌+◌, ◌<◌, ◌≤◌, ◌≡◌, refl, none, some, List, [], ◌∷◌, ◌++◌, ◌==◌, if◌then◌else◌,
  length, ltb→lt, leb→le, inr, ◌↔◌,
}
use capi4linux.Memory.{Mem, load_bytes, le16}
use capi4linux.Memory.Holds.{Holds}
use capi4linux.Cmsg.Table.{cstruct, cpars, command_2_index, cdef_typ}
use capi4linux.Cmsg.Struct.{Cmsg, CStruct, zeroed}
use capi4linux.Cmsg.Encode.{capi_cmsg2message, pars_2_message, struct_size}
use capi4linux.Cmsg.Encode.Total.{capi_cmsg2message-total}
use capi4linux.Cmsg.Decode.Total.{capi_message2cmsg-total}
use capi4linux.Cmsg.Names.{capi_cmd2str}
use capi4linux.Cmsg.Names.Match.{capi_cmd2str-cpars}
use capi4linux.Cmsg.Index.{
  unused_commands, lacks_row, command_2_index-commands, command_2_index-lt, command_2_index-outside,
}
use capi4linux.Cmsg.Encode.Long.{pars_2_message-long}
use capi4linux.Cmsg.Decode.{capi_message2cmsg}
use capi4linux.Cmsg.Layout.{Layout, done, item, group, flat, IsLayout}
use capi4linux.Cmsg.Wire.{wire, struct_wire, par_wire, mode_wire, Fits, InRange}
use capi4linux.Cmsg.Rows.{layout}
use capi4linux.Cmsg.Fill.Wires.{
  RequestsCarry, ResponsesCarry, ComposedCarry, fill_requests-Carries, fill_responses-Carries,
  fill_composed-Carries,
}
use capi4linux.Cmsg.RoundTrip.{
  message_wire, HeaderInRange, SameMessage, capi_cmsg2message-message_wire,
  capi_message2cmsg-message_wire, capi_message2cmsg-capi_cmsg2message,
}

abbrev alert_row : List ℕ
alert_row = 0x03 ∷ 0x04 ∷ 0x0c ∷ 0x27 ∷ 0x2f ∷ 0x1c ∷ 0x01 ∷ 0x01 ∷ []

-- Two bytes behind their length.
abbrev two_bytes : CStruct
two_bytes = some (λ i. if i == 0 then 2 else i)

-- An ALERT_REQ of application 7 for PLCI 0x101, with a B channel information.
abbrev alert_req : Cmsg
alert_req = record zeroed {
  appl_id = 7;
  command = 0x01;
  subcommand = 0x80;
  messagenumber = 0x1234;
  nums = λ k. if k == 3 then 0x101 else 0;
  structs = λ k. if k == 0x0c then two_bytes else none;
}

abbrev no_memory : Mem
no_memory = λ _. 0

alert_row_is : cpars (command_2_index alert_req.command alert_req.subcommand) ≡ some alert_row
unfolding cpars command_2_index
alert_row_is = refl

alert_Fits : Fits alert_req (layout alert_row)
unfolding layout wire struct_wire par_wire mode_wire struct_size load_bytes
alert_Fits = ((ltb→lt 6 255 refl, tt), tt)

alert_InRange : InRange alert_req (layout alert_row)
unfolding layout
alert_InRange = (ltb→lt _ _ refl, (tt, tt))

alert_HeaderInRange : HeaderInRange alert_req
alert_HeaderInRange = record {
  appl_id = ltb→lt _ _ refl;
  command = ltb→lt _ _ refl;
  subcommand = ltb→lt _ _ refl;
  messagenumber = ltb→lt _ _ refl;
}

capi_cmsg2message-message_wire_example :
    (m' : Mem) × (capi_cmsg2message alert_req no_memory ≡ some m')
    × Holds m' 0 (message_wire alert_req alert_row)
capi_cmsg2message-message_wire_example =
    capi_cmsg2message-message_wire alert_req no_memory alert_row alert_row_is alert_Fits

abbrev alert_memory : Mem
alert_memory =
    (capi_cmsg2message-message_wire alert_req no_memory alert_row alert_row_is alert_Fits).0

capi_message2cmsg-message_wire_example :
    (d : Cmsg) × (capi_message2cmsg alert_memory ≡ some d) × SameMessage alert_req d alert_row
capi_message2cmsg-message_wire_example =
    capi_message2cmsg-message_wire alert_req alert_memory alert_row alert_row_is alert_Fits
      alert_InRange alert_HeaderInRange
      (capi_cmsg2message-message_wire alert_req no_memory alert_row alert_row_is alert_Fits).2

capi_message2cmsg-capi_cmsg2message_example :
    (m' : Mem) × (d : Cmsg) × (capi_cmsg2message alert_req no_memory ≡ some m')
    × (capi_message2cmsg m' ≡ some d)
    × SameMessage alert_req d alert_row
capi_message2cmsg-capi_cmsg2message_example =
    capi_message2cmsg-capi_cmsg2message alert_req no_memory alert_row alert_row_is alert_Fits
      alert_InRange alert_HeaderInRange

-- A B channel information of 254 bytes behind its length.
abbrev long_info : Cmsg
long_info = record zeroed { structs = λ k. some (λ i. if i == 0 then 254 else 0) }

abbrev info_layout : Layout
info_layout = item cstruct 0x0c done

info_IsLayout : IsLayout (group 0x04 info_layout done)
unfolding cdef_typ
info_IsLayout = (refl, tt, refl, refl, λ j h. refl, (refl, refl, refl, tt), tt)

info_long : 255 ≤ length (wire long_info info_layout)
unfolding wire struct_wire par_wire mode_wire struct_size load_bytes
info_long = leb→le 255 255 refl

pars_2_message-long_example :
    (m' : Mem) × (pars_2_message 4 long_info no_memory 12 (flat (group 0x04 info_layout done) [])
      ≡ some (m', 12 + 1 + length (wire long_info info_layout), 0x01 ∷ []))
    × Holds m' 12
        (0xff ∷ (le16 (length (wire long_info info_layout)) ++ wire long_info info_layout))
pars_2_message-long_example =
    pars_2_message-long info_layout 4 long_info no_memory 12 0x04 [] info_IsLayout refl tt info_long
      (leb→le 4 4 refl)

capi_cmsg2message-total_example :
    ((m' : Mem) × (capi_cmsg2message alert_req no_memory ≡ some m'))
    ↔ ((par : List ℕ) × (cpars (command_2_index alert_req.command alert_req.subcommand) ≡ some par))
capi_cmsg2message-total_example = capi_cmsg2message-total alert_req no_memory

capi_message2cmsg-total_example :
    ((d : Cmsg) × (capi_message2cmsg alert_memory ≡ some d))
    ↔ ((par : List ℕ) × (cpars (command_2_index (alert_memory 4) (alert_memory 5)) ≡ some par))
capi_message2cmsg-total_example = capi_message2cmsg-total alert_memory

-- DISCONNECT_REQ and ALERT_REQ.
command_2_index-commands_example :
    ((par : List ℕ) × (cpars (command_2_index 0x04 0x80) ≡ some par))
    × (command_2_index 0x04 0x80 ≡ command_2_index 0x01 0x80 → ◌≡◌ {A = ℕ} 0 4)
    × (all_of lacks_row unused_commands ≡ true)
command_2_index-commands_example = command_2_index-commands 0 4 0x04 0x80 0x01 0x80 refl refl

command_2_index-lt_example : command_2_index 0x82 0x83 < 0x4f
command_2_index-lt_example =
    command_2_index-lt 0x82 0x83 (ltb→lt _ _ refl) (ltb→lt _ _ refl)
      (inr (inr (leb→le 0x80 0x82 refl)))

command_2_index-outside_example : 0x4f ≤ command_2_index 0x50 0x80
command_2_index-outside_example =
    command_2_index-outside 0x50 0x80 (leb→le 0x4f 0x50 refl) (ltb→lt _ _ refl)

capi_cmd2str-cpars_example :
    (capi_cmd2str 0x01 0x80 ≡ none) ↔ (cpars (command_2_index 0x01 0x80) ≡ none)
capi_cmd2str-cpars_example = capi_cmd2str-cpars 0x01 0x80

fill_requests-Carries_example : RequestsCarry 1 2 0x101 3 4 5 6 two_bytes none
fill_requests-Carries_example = fill_requests-Carries 1 2 0x101 3 4 5 6 two_bytes none

fill_responses-Carries_example : ResponsesCarry 1 2 0x101 3 4 5 two_bytes
fill_responses-Carries_example = fill_responses-Carries 1 2 0x101 3 4 5 two_bytes

fill_composed-Carries_example :
    ComposedCarry 1 2 0x101 16 0 1 0 none none none two_bytes none none none two_bytes none none
      none none none none
unfolding struct_wire struct_size load_bytes
fill_composed-Carries_example =
    fill_composed-Carries 1 2 0x101 16 0 1 0 none none none two_bytes none none none two_bytes none
      none none none none none (ltb→lt _ _ refl) (ltb→lt _ _ refl)
