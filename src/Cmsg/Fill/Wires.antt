-- ===== src/Cmsg/Fill/Wires.antt =====
-- The messages that the `capi_fill_*` functions of linux/include/linux/isdn/capiutil.h stand for, as
-- the bytes that linux/drivers/isdn/capi/capiutil.c writes for them.
use capi4linux.Prelude.{ℕ, ◌+◌, ◌<◌, ◌≡◌, refl, some, List, [], ◌∷◌, ◌++◌, length}
use mathlib.Core.Path.{subst}
use capi4linux.Memory.{Mem, le16, le32}
use capi4linux.Memory.Holds.{Holds}
use capi4linux.Cmsg.Table.{cdef_typ, cpars, command_2_index}
use capi4linux.Cmsg.Struct.{Cmsg, CStruct, update, capi_cmsg_header}
use capi4linux.Cmsg.Fields.{set_num, set_struct}
use capi4linux.Cmsg.Encode.{capi_cmsg2message}
use capi4linux.Cmsg.Wire.{struct_wire, par_wire, mode_wire, wire, Fits}
use capi4linux.Cmsg.Rows.{build, layout}
use capi4linux.Cmsg.RoundTrip.{message_wire, capi_cmsg2message-message_wire}
use capi4linux.Cmsg.Fill.Requests.{
  fill_connect_b3_req, fill_facility_req, fill_info_req, fill_listen_req, fill_alert_req,
  fill_connect_req, fill_data_b3_req, fill_disconnect_req, fill_disconnect_b3_req,
  fill_manufacturer_req, fill_reset_b3_req, fill_select_b_protocol_req,
}
use capi4linux.Cmsg.Fill.Responses.{
  fill_connect_resp, fill_connect_active_resp, fill_connect_b3_active_resp, fill_connect_b3_resp,
  fill_connect_b3_t90_active_resp, fill_data_b3_resp, fill_disconnect_b3_resp, fill_disconnect_resp,
  fill_facility_resp, fill_info_resp, fill_manufacturer_resp, fill_reset_b3_resp,
}

-- Parameters one behind the other.
abbrev pub parts : List (List ℕ) → List ℕ
parts [] = []
parts (x ∷ xs) = x ++ parts xs

-- Parameters in a structure of their own, behind its length.
abbrev pub boxed : List (List ℕ) → List ℕ
boxed xs = length (parts xs) ∷ parts xs

-- A message: its length, the application, command and subcommand, the message number, and the
-- parameters, with the controller, PLCI or NCCI first.
abbrev pub bytes_of : ℕ → ℕ → ℕ → ℕ → ℕ → List (List ℕ) → List ℕ
bytes_of command subcommand appl_id messagenumber adr pars =
    (le16 (8 + length (parts (le32 adr ∷ pars)))
      ++ (le16 appl_id ++ (command ∷ subcommand ∷ le16 messagenumber)))
    ++ parts (le32 adr ∷ pars)

-- The encoder makes these bytes of the structure, whatever the memory held before.
abbrev pub Carries : Cmsg → List ℕ → Type 0
Carries c bytes = (m : Mem) → (m' : Mem) × (capi_cmsg2message c m ≡ some m') × Holds m' 0 bytes

row-Carries :
    (c : Cmsg) (par bytes : List ℕ)
    → cpars (command_2_index c.command c.subcommand) ≡ some par
    → Fits c (layout par)
    → message_wire c par ≡ bytes
    → Carries c bytes
row-Carries c par bytes row fit e m =
    let (m', run, holds) = capi_cmsg2message-message_wire c m par row fit in
    (m', run, subst (Holds m' 0) e holds)

-- What the request functions without composed parameters stand for.
abbrev pub RequestsCarry : ℕ → ℕ → ℕ → ℕ → ℕ → ℕ → ℕ → CStruct → CStruct → Type 0
RequestsCarry appl_id mn adr x y z w s t =
    Carries (fill_connect_b3_req appl_id mn adr s)
      (bytes_of 0x82 0x80 appl_id mn adr (struct_wire s ∷ []))
    × Carries (fill_disconnect_b3_req appl_id mn adr s)
        (bytes_of 0x84 0x80 appl_id mn adr (struct_wire s ∷ []))
    × Carries (fill_reset_b3_req appl_id mn adr s)
        (bytes_of 0x87 0x80 appl_id mn adr (struct_wire s ∷ []))
    × Carries (fill_facility_req appl_id mn adr x s)
        (bytes_of 0x80 0x80 appl_id mn adr (le16 x ∷ struct_wire s ∷ []))
    × Carries (fill_listen_req appl_id mn adr x y z s t) (
        bytes_of 0x05 0x80 appl_id mn adr
          (le32 x ∷ le32 y ∷ le32 z ∷ struct_wire s ∷ struct_wire t ∷ []))
    × Carries (fill_data_b3_req appl_id mn adr x y z w)
        (bytes_of 0x86 0x80 appl_id mn adr (le32 x ∷ le16 y ∷ le16 z ∷ le16 w ∷ []))
    × Carries (fill_manufacturer_req appl_id mn adr x y z s)
        (bytes_of 0xff 0x80 appl_id mn adr (le32 x ∷ le32 y ∷ le32 z ∷ struct_wire s ∷ []))

-- Each of the seven request functions without composed parameters stands for the message with its
-- command, the header that it is given, and its arguments in the order of the message.
pub fill_requests-Carries :
    (appl_id mn adr x y z w : ℕ) (s t : CStruct) → RequestsCarry appl_id mn adr x y z w s t
unfolding build layout wire par_wire mode_wire message_wire cdef_typ cpars command_2_index
    capi_cmsg_header set_num set_struct update fill_connect_b3_req fill_disconnect_b3_req
    fill_reset_b3_req fill_facility_req fill_listen_req fill_data_b3_req fill_manufacturer_req
fill_requests-Carries appl_id mn adr x y z w s t = (
  row-Carries _ _ _ refl tt refl,
  row-Carries _ _ _ refl tt refl,
  row-Carries _ _ _ refl tt refl,
  row-Carries _ _ _ refl tt refl,
  row-Carries _ _ _ refl tt refl,
  row-Carries _ _ _ refl tt refl,
  row-Carries _ _ _ refl tt refl,
)

-- What the response functions without composed parameters stand for.
abbrev pub ResponsesCarry : ℕ → ℕ → ℕ → ℕ → ℕ → ℕ → CStruct → Type 0
ResponsesCarry appl_id mn adr x y z s =
    Carries (fill_connect_active_resp appl_id mn adr) (bytes_of 0x03 0x83 appl_id mn adr [])
    × Carries (fill_connect_b3_active_resp appl_id mn adr) (bytes_of 0x83 0x83 appl_id mn adr [])
    × Carries (fill_connect_b3_resp appl_id mn adr x s)
        (bytes_of 0x82 0x83 appl_id mn adr (le16 x ∷ struct_wire s ∷ []))
    × Carries (fill_connect_b3_t90_active_resp appl_id mn adr)
        (bytes_of 0x88 0x83 appl_id mn adr [])
    × Carries (fill_data_b3_resp appl_id mn adr x) (bytes_of 0x86 0x83 appl_id mn adr (le16 x ∷ []))
    × Carries (fill_disconnect_b3_resp appl_id mn adr) (bytes_of 0x84 0x83 appl_id mn adr [])
    × Carries (fill_disconnect_resp appl_id mn adr) (bytes_of 0x04 0x83 appl_id mn adr [])
    × Carries (fill_facility_resp appl_id mn adr x)
        (bytes_of 0x80 0x83 appl_id mn adr (le16 x ∷ []))
    × Carries (fill_info_resp appl_id mn adr) (bytes_of 0x08 0x83 appl_id mn adr [])
    × Carries (fill_manufacturer_resp appl_id mn adr x y z s)
        (bytes_of 0xff 0x83 appl_id mn adr (le32 x ∷ le32 y ∷ le32 z ∷ struct_wire s ∷ []))
    × Carries (fill_reset_b3_resp appl_id mn adr) (bytes_of 0x87 0x83 appl_id mn adr [])

-- Each of the eleven response functions without composed parameters stands for the message with
-- its command, the header that it is given, and its arguments in the order of the message.
pub fill_responses-Carries :
    (appl_id mn adr x y z : ℕ) (s : CStruct) → ResponsesCarry appl_id mn adr x y z s
unfolding build layout wire par_wire mode_wire message_wire cdef_typ cpars command_2_index
    capi_cmsg_header set_num set_struct update fill_connect_active_resp fill_connect_b3_active_resp
    fill_connect_b3_resp fill_connect_b3_t90_active_resp fill_data_b3_resp fill_disconnect_b3_resp
    fill_disconnect_resp fill_facility_resp fill_info_resp fill_manufacturer_resp fill_reset_b3_resp
fill_responses-Carries appl_id mn adr x y z s = (
  row-Carries _ _ _ refl tt refl,
  row-Carries _ _ _ refl tt refl,
  row-Carries _ _ _ refl tt refl,
  row-Carries _ _ _ refl tt refl,
  row-Carries _ _ _ refl tt refl,
  row-Carries _ _ _ refl tt refl,
  row-Carries _ _ _ refl tt refl,
  row-Carries _ _ _ refl tt refl,
  row-Carries _ _ _ refl tt refl,
  row-Carries _ _ _ refl tt refl,
  row-Carries _ _ _ refl tt refl,
)

-- The parameters of the B protocol, and the additional info.
abbrev pub b_protocol : ℕ → ℕ → ℕ → CStruct → CStruct → CStruct → List (List ℕ)
b_protocol p1 p2 p3 c1 c2 c3 =
    le16 p1 ∷ le16 p2 ∷ le16 p3 ∷ struct_wire c1 ∷ struct_wire c2 ∷ struct_wire c3 ∷ []

abbrev pub additional : CStruct → CStruct → CStruct → CStruct → List (List ℕ)
additional channel keypad user facility =
    struct_wire channel ∷ struct_wire keypad ∷ struct_wire user ∷ struct_wire facility ∷ []

-- What the functions with composed parameters stand for.
abbrev pub ComposedCarry :
    ℕ
    → ℕ
    → ℕ
    → ℕ
    → ℕ
    → ℕ
    → ℕ
    → CStruct
    → CStruct
    → CStruct
    → CStruct
    → CStruct
    → CStruct
    → CStruct
    → CStruct
    → CStruct
    → CStruct
    → CStruct
    → CStruct
    → CStruct
    → CStruct
    → Type 0
ComposedCarry appl_id mn adr x p1 p2 p3 c1 c2 c3 channel keypad user facility called calling
      called_sub calling_sub bc llc hlc =
    Carries (fill_alert_req appl_id mn adr channel keypad user facility)
      (bytes_of 0x01 0x80 appl_id mn adr (boxed (additional channel keypad user facility) ∷ []))
    × Carries (fill_disconnect_req appl_id mn adr channel keypad user facility)
        (bytes_of 0x04 0x80 appl_id mn adr (boxed (additional channel keypad user facility) ∷ []))
    × Carries (fill_info_req appl_id mn adr called channel keypad user facility) (
        bytes_of 0x08 0x80 appl_id mn adr
          (struct_wire called ∷ boxed (additional channel keypad user facility) ∷ []))
    × Carries (fill_select_b_protocol_req appl_id mn adr p1 p2 p3 c1 c2 c3)
        (bytes_of 0x41 0x80 appl_id mn adr (boxed (b_protocol p1 p2 p3 c1 c2 c3) ∷ []))
    × Carries
        (fill_connect_req appl_id mn adr x called calling called_sub calling_sub p1 p2 p3 c1 c2 c3
          bc llc hlc channel keypad user facility)
        (bytes_of 0x02 0x80 appl_id mn adr (
          le16 x
          ∷ struct_wire called
          ∷ struct_wire calling
          ∷ struct_wire called_sub
          ∷ struct_wire calling_sub
          ∷ boxed (b_protocol p1 p2 p3 c1 c2 c3)
          ∷ struct_wire bc
          ∷ struct_wire llc
          ∷ struct_wire hlc
          ∷ boxed (additional channel keypad user facility)
          ∷ []))
    × Carries
        (fill_connect_resp appl_id mn adr x p1 p2 p3 c1 c2 c3 called called_sub llc channel keypad
          user facility)
        (bytes_of 0x02 0x83 appl_id mn adr (
          le16 x
          ∷ boxed (b_protocol p1 p2 p3 c1 c2 c3)
          ∷ struct_wire called
          ∷ struct_wire called_sub
          ∷ struct_wire llc
          ∷ boxed (additional channel keypad user facility)
          ∷ []))

-- Each of the six functions with composed parameters stands for the message with its command, the
-- header that it is given, and its arguments in the order of the message, with B protocol and
-- additional info boxed, where these are shorter than 255 bytes.
pub fill_composed-Carries :
    (appl_id mn adr x p1 p2 p3 : ℕ) (c1 c2 c3 channel keypad user facility : CStruct)
    (called calling called_sub calling_sub bc llc hlc : CStruct)
    → length (parts (b_protocol p1 p2 p3 c1 c2 c3)) < 255
    → length (parts (additional channel keypad user facility)) < 255
    → ComposedCarry appl_id mn adr x p1 p2 p3 c1 c2 c3 channel keypad user facility called calling
        called_sub calling_sub bc llc hlc
unfolding build layout wire par_wire mode_wire message_wire cdef_typ cpars command_2_index
    capi_cmsg_header set_num set_struct update fill_alert_req fill_disconnect_req fill_info_req
    fill_select_b_protocol_req fill_connect_req fill_connect_resp
fill_composed-Carries appl_id mn adr x p1 p2 p3 c1 c2 c3 channel keypad user facility called calling
      called_sub calling_sub bc llc hlc hb ha =
    (
      row-Carries _ _ _ refl ((ha, tt), tt) refl,
      row-Carries _ _ _ refl ((ha, tt), tt) refl,
      row-Carries _ _ _ refl ((ha, tt), tt) refl,
      row-Carries _ _ _ refl ((hb, tt), tt) refl,
      row-Carries _ _ _ refl ((hb, tt), ((ha, tt), tt)) refl,
      row-Carries _ _ _ refl ((hb, tt), ((ha, tt), tt)) refl,
    )
