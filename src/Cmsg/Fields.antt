-- ===== src/Cmsg/Fields.antt =====
-- The positions of the parameter fields in `_cmsg` of linux/include/linux/isdn/capiutil.h, and the
-- writes of single fields.
use capi4linux.Prelude.{ℕ}
use capi4linux.Cmsg.Struct.{Cmsg, CStruct, update}

abbrev pub additional_info : ℕ
additional_info = 0x04

abbrev pub b1_configuration : ℕ
b1_configuration = 0x05

abbrev pub b1_protocol : ℕ
b1_protocol = 0x06

abbrev pub b2_configuration : ℕ
b2_configuration = 0x07

abbrev pub b2_protocol : ℕ
b2_protocol = 0x08

abbrev pub b3_configuration : ℕ
b3_configuration = 0x09

abbrev pub b3_protocol : ℕ
b3_protocol = 0x0a

abbrev pub bc : ℕ
bc = 0x0b

abbrev pub b_channelinformation : ℕ
b_channelinformation = 0x0c

abbrev pub b_protocol : ℕ
b_protocol = 0x0d

abbrev pub called_party_number : ℕ
called_party_number = 0x0e

abbrev pub called_party_subaddress : ℕ
called_party_subaddress = 0x0f

abbrev pub calling_party_number : ℕ
calling_party_number = 0x10

abbrev pub calling_party_subaddress : ℕ
calling_party_subaddress = 0x11

abbrev pub cip_mask : ℕ
cip_mask = 0x12

abbrev pub cip_mask2 : ℕ
cip_mask2 = 0x13

abbrev pub cip_value : ℕ
cip_value = 0x14

abbrev pub class : ℕ
class = 0x15

abbrev pub connected_number : ℕ
connected_number = 0x16

abbrev pub connected_subaddress : ℕ
connected_subaddress = 0x17

abbrev pub data32 : ℕ
data32 = 0x18

abbrev pub data_handle : ℕ
data_handle = 0x19

abbrev pub data_length : ℕ
data_length = 0x1a

abbrev pub facility_confirmation_parameter : ℕ
facility_confirmation_parameter = 0x1b

abbrev pub facilitydataarray : ℕ
facilitydataarray = 0x1c

abbrev pub facility_indication_parameter : ℕ
facility_indication_parameter = 0x1d

abbrev pub facility_request_parameter : ℕ
facility_request_parameter = 0x1e

abbrev pub facility_selector : ℕ
facility_selector = 0x1f

abbrev pub flags : ℕ
flags = 0x20

abbrev pub function : ℕ
function = 0x21

abbrev pub hlc : ℕ
hlc = 0x22

abbrev pub info : ℕ
info = 0x23

abbrev pub info_element : ℕ
info_element = 0x24

abbrev pub info_mask : ℕ
info_mask = 0x25

abbrev pub info_number : ℕ
info_number = 0x26

abbrev pub keypadfacility : ℕ
keypadfacility = 0x27

abbrev pub llc : ℕ
llc = 0x28

abbrev pub manu_data : ℕ
manu_data = 0x29

abbrev pub manu_id : ℕ
manu_id = 0x2a

abbrev pub ncpi : ℕ
ncpi = 0x2b

abbrev pub reason : ℕ
reason = 0x2c

abbrev pub reason_b3 : ℕ
reason_b3 = 0x2d

abbrev pub reject : ℕ
reject = 0x2e

abbrev pub useruserdata : ℕ
useruserdata = 0x2f

unfoldable pub set_num : ℕ → ℕ → Cmsg → Cmsg
unfolding update
set_num k v c = record c { nums = update k v c.nums }

unfoldable pub set_struct : ℕ → CStruct → Cmsg → Cmsg
unfolding update
set_struct k v c = record c { structs = update k v c.structs }
