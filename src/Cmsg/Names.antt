-- ===== src/Cmsg/Names.antt =====
-- The names of messages, parameters and reasons in linux/drivers/isdn/capi/capiutil.c.
pub mod Match
use capi4linux.Prelude.{ℕ, Option, none, some, List, [], ◌∷◌, lookup, get_elem?, ◌>>=◌}
use Prim.Native.String.{String}
use capi4linux.Cmsg.Table.{command_2_index}

-- `mnames[]`: the entries that are not NULL.
abbrev pub mnames : List (ℕ × String)
mnames =
    (0x01, "ALERT_REQ")
    ∷ (0x02, "CONNECT_REQ")
    ∷ (0x04, "DISCONNECT_REQ")
    ∷ (0x05, "LISTEN_REQ")
    ∷ (0x08, "INFO_REQ")
    ∷ (0x09, "FACILITY_REQ")
    ∷ (0x0a, "SELECT_B_PROTOCOL_REQ")
    ∷ (0x0b, "CONNECT_B3_REQ")
    ∷ (0x0d, "DISCONNECT_B3_REQ")
    ∷ (0x0f, "DATA_B3_REQ")
    ∷ (0x10, "RESET_B3_REQ")
    ∷ (0x13, "ALERT_CONF")
    ∷ (0x14, "CONNECT_CONF")
    ∷ (0x16, "DISCONNECT_CONF")
    ∷ (0x17, "LISTEN_CONF")
    ∷ (0x18, "MANUFACTURER_REQ")
    ∷ (0x1a, "INFO_CONF")
    ∷ (0x1b, "FACILITY_CONF")
    ∷ (0x1c, "SELECT_B_PROTOCOL_CONF")
    ∷ (0x1d, "CONNECT_B3_CONF")
    ∷ (0x1f, "DISCONNECT_B3_CONF")
    ∷ (0x21, "DATA_B3_CONF")
    ∷ (0x22, "RESET_B3_CONF")
    ∷ (0x26, "CONNECT_IND")
    ∷ (0x27, "CONNECT_ACTIVE_IND")
    ∷ (0x28, "DISCONNECT_IND")
    ∷ (0x2a, "MANUFACTURER_CONF")
    ∷ (0x2c, "INFO_IND")
    ∷ (0x2d, "FACILITY_IND")
    ∷ (0x2f, "CONNECT_B3_IND")
    ∷ (0x30, "CONNECT_B3_ACTIVE_IND")
    ∷ (0x31, "DISCONNECT_B3_IND")
    ∷ (0x33, "DATA_B3_IND")
    ∷ (0x34, "RESET_B3_IND")
    ∷ (0x35, "CONNECT_B3_T90_ACTIVE_IND")
    ∷ (0x38, "CONNECT_RESP")
    ∷ (0x39, "CONNECT_ACTIVE_RESP")
    ∷ (0x3a, "DISCONNECT_RESP")
    ∷ (0x3c, "MANUFACTURER_IND")
    ∷ (0x3e, "INFO_RESP")
    ∷ (0x3f, "FACILITY_RESP")
    ∷ (0x41, "CONNECT_B3_RESP")
    ∷ (0x42, "CONNECT_B3_ACTIVE_RESP")
    ∷ (0x43, "DISCONNECT_B3_RESP")
    ∷ (0x45, "DATA_B3_RESP")
    ∷ (0x46, "RESET_B3_RESP")
    ∷ (0x47, "CONNECT_B3_T90_ACTIVE_RESP")
    ∷ (0x4e, "MANUFACTURER_RESP")
    ∷ []

-- `capi_cmd2str`; `none` is NULL, or a read outside the table.
unfoldable pub capi_cmd2str : ℕ → ℕ → Option String
unfolding command_2_index
capi_cmd2str cmd subcmd = lookup (command_2_index cmd subcmd) mnames

-- `pnames[]`, where `none` is NULL.
abbrev pub pnames : List (Option String)
pnames =
    none
    ∷ none
    ∷ none
    ∷ some "Controller/PLCI/NCCI"
    ∷ some "AdditionalInfo"
    ∷ some "B1configuration"
    ∷ some "B1protocol"
    ∷ some "B2configuration"
    ∷ some "B2protocol"
    ∷ some "B3configuration"
    ∷ some "B3protocol"
    ∷ some "BC"
    ∷ some "BChannelinformation"
    ∷ some "BProtocol"
    ∷ some "CalledPartyNumber"
    ∷ some "CalledPartySubaddress"
    ∷ some "CallingPartyNumber"
    ∷ some "CallingPartySubaddress"
    ∷ some "CIPmask"
    ∷ some "CIPmask2"
    ∷ some "CIPValue"
    ∷ some "Class"
    ∷ some "ConnectedNumber"
    ∷ some "ConnectedSubaddress"
    ∷ some "Data32"
    ∷ some "DataHandle"
    ∷ some "DataLength"
    ∷ some "FacilityConfirmationParameter"
    ∷ some "Facilitydataarray"
    ∷ some "FacilityIndicationParameter"
    ∷ some "FacilityRequestParameter"
    ∷ some "FacilitySelector"
    ∷ some "Flags"
    ∷ some "Function"
    ∷ some "HLC"
    ∷ some "Info"
    ∷ some "InfoElement"
    ∷ some "InfoMask"
    ∷ some "InfoNumber"
    ∷ some "Keypadfacility"
    ∷ some "LLC"
    ∷ some "ManuData"
    ∷ some "ManuID"
    ∷ some "NCPI"
    ∷ some "Reason"
    ∷ some "Reason_B3"
    ∷ some "Reject"
    ∷ some "Useruserdata"
    ∷ []

-- The macro `NAME`, for the parameter `k`; `none` is NULL, or a read outside the table.
unfoldable pub name : ℕ → Option String
name k = get_elem? pnames k >>= λ x. x

-- The cases of the `switch` of `capi_info2str`.
abbrev pub info_rows : List (ℕ × String)
info_rows =
    (0x0001, "NCPI not supported by current protocol, NCPI ignored")
    ∷ (0x0002, "Flags not supported by current protocol, flags ignored")
    ∷ (0x0003, "Alert already sent by another application")
    ∷ (0x1001, "Too many applications")
    ∷ (0x1002, "Logical block size too small, must be at least 128 Bytes")
    ∷ (0x1003, "Buffer exceeds 64 kByte")
    ∷ (0x1004, "Message buffer size too small, must be at least 1024 Bytes")
    ∷ (0x1005, "Max. number of logical connections not supported")
    ∷ (0x1006, "Reserved")
    ∷ (0x1007, "The message could not be accepted because of an internal busy condition")
    ∷ (0x1008, "OS resource error (no memory ?)")
    ∷ (0x1009, "CAPI not installed")
    ∷ (0x100a, "Controller does not support external equipment")
    ∷ (0x100b, "Controller does only support external equipment")
    ∷ (0x1101, "Illegal application number")
    ∷ (0x1102, "Illegal command or subcommand or message length less than 12 bytes")
    ∷ (
      0x1103,
      "The message could not be accepted because of a queue full condition !! The error code does not imply that CAPI cannot receive messages directed to another controller, PLCI or NCCI",
    )
    ∷ (0x1104, "Queue is empty")
    ∷ (
      0x1105,
      "Queue overflow, a message was lost !! This indicates a configuration error. The only recovery from this error is to perform a CAPI_RELEASE",
    )
    ∷ (0x1106, "Unknown notification parameter")
    ∷ (0x1107, "The Message could not be accepted because of an internal busy condition")
    ∷ (0x1108, "OS Resource error (no memory ?)")
    ∷ (0x1109, "CAPI not installed")
    ∷ (0x110a, "Controller does not support external equipment")
    ∷ (0x110b, "Controller does only support external equipment")
    ∷ (0x2001, "Message not supported in current state")
    ∷ (0x2002, "Illegal Controller / PLCI / NCCI")
    ∷ (0x2003, "Out of PLCI")
    ∷ (0x2004, "Out of NCCI")
    ∷ (0x2005, "Out of LISTEN")
    ∷ (0x2006, "Out of FAX resources (protocol T.30)")
    ∷ (0x2007, "Illegal message parameter coding")
    ∷ (0x3001, "B1 protocol not supported")
    ∷ (0x3002, "B2 protocol not supported")
    ∷ (0x3003, "B3 protocol not supported")
    ∷ (0x3004, "B1 protocol parameter not supported")
    ∷ (0x3005, "B2 protocol parameter not supported")
    ∷ (0x3006, "B3 protocol parameter not supported")
    ∷ (0x3007, "B protocol combination not supported")
    ∷ (0x3008, "NCPI not supported")
    ∷ (0x3009, "CIP Value unknown")
    ∷ (0x300a, "Flags not supported (reserved bits)")
    ∷ (0x300b, "Facility not supported")
    ∷ (0x300c, "Data length not supported by current protocol")
    ∷ (0x300d, "Reset procedure not supported by current protocol")
    ∷ (0x3301, "Protocol error layer 1 (broken line or B-channel removed by signalling protocol)")
    ∷ (0x3302, "Protocol error layer 2")
    ∷ (0x3303, "Protocol error layer 3")
    ∷ (0x3304, "Another application got that call")
    ∷ (0x3311, "Connecting not successful (remote station is no FAX G3 machine)")
    ∷ (0x3312, "Connecting not successful (training error)")
    ∷ (
      0x3313,
      "Disconnected before transfer (remote station does not support transfer mode, e.g. resolution)",
    )
    ∷ (0x3314, "Disconnected during transfer (remote abort)")
    ∷ (
      0x3315,
      "Disconnected during transfer (remote procedure error, e.g. unsuccessful repetition of T.30 commands)",
    )
    ∷ (0x3316, "Disconnected during transfer (local tx data underrun)")
    ∷ (0x3317, "Disconnected during transfer (local rx data overflow)")
    ∷ (0x3318, "Disconnected during transfer (local abort)")
    ∷ (0x3319, "Illegal parameter coding (e.g. SFF coding error)")
    ∷ (0x3481, "Unallocated (unassigned) number")
    ∷ (0x3482, "No route to specified transit network")
    ∷ (0x3483, "No route to destination")
    ∷ (0x3486, "Channel unacceptable")
    ∷ (0x3487, "Call awarded and being delivered in an established channel")
    ∷ (0x3490, "Normal call clearing")
    ∷ (0x3491, "User busy")
    ∷ (0x3492, "No user responding")
    ∷ (0x3493, "No answer from user (user alerted)")
    ∷ (0x3495, "Call rejected")
    ∷ (0x3496, "Number changed")
    ∷ (0x349a, "Non-selected user clearing")
    ∷ (0x349b, "Destination out of order")
    ∷ (0x349c, "Invalid number format")
    ∷ (0x349d, "Facility rejected")
    ∷ (0x349e, "Response to STATUS ENQUIRY")
    ∷ (0x349f, "Normal, unspecified")
    ∷ (0x34a2, "No circuit / channel available")
    ∷ (0x34a6, "Network out of order")
    ∷ (0x34a9, "Temporary failure")
    ∷ (0x34aa, "Switching equipment congestion")
    ∷ (0x34ab, "Access information discarded")
    ∷ (0x34ac, "Requested circuit / channel not available")
    ∷ (0x34af, "Resources unavailable, unspecified")
    ∷ (0x34b1, "Quality of service unavailable")
    ∷ (0x34b2, "Requested facility not subscribed")
    ∷ (0x34b9, "Bearer capability not authorized")
    ∷ (0x34ba, "Bearer capability not presently available")
    ∷ (0x34bf, "Service or option not available, unspecified")
    ∷ (0x34c1, "Bearer capability not implemented")
    ∷ (0x34c2, "Channel type not implemented")
    ∷ (0x34c5, "Requested facility not implemented")
    ∷ (0x34c6, "Only restricted digital information bearer capability is available")
    ∷ (0x34cf, "Service or option not implemented, unspecified")
    ∷ (0x34d1, "Invalid call reference value")
    ∷ (0x34d2, "Identified channel does not exist")
    ∷ (0x34d3, "A suspended call exists, but this call identity does not")
    ∷ (0x34d4, "Call identity in use")
    ∷ (0x34d5, "No call suspended")
    ∷ (0x34d6, "Call having the requested call identity has been cleared")
    ∷ (0x34d8, "Incompatible destination")
    ∷ (0x34db, "Invalid transit network selection")
    ∷ (0x34df, "Invalid message, unspecified")
    ∷ (0x34e0, "Mandatory information element is missing")
    ∷ (0x34e1, "Message type non-existent or not implemented")
    ∷ (
      0x34e2,
      "Message not compatible with call state or message type non-existent or not implemented",
    )
    ∷ (0x34e3, "Information element non-existent or not implemented")
    ∷ (0x34e4, "Invalid information element contents")
    ∷ (0x34e5, "Message not compatible with call state")
    ∷ (0x34e6, "Recovery on timer expiry")
    ∷ (0x34ef, "Protocol error, unspecified")
    ∷ (0x34ff, "Interworking, unspecified")
    ∷ []

-- `capi_info2str`, as built with CONFIG_ISDN_DRV_AVMB1_VERBOSE_REASON.
unfoldable pub capi_info2str : ℕ → String
capi_info2str reason = elim (lookup reason info_rows) [
  | none ↦ "No additional information"
  | some t ↦ t
]
