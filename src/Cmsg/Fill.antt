-- ===== src/Cmsg/Fill.antt =====
-- Filling a `_cmsg` and sending it: the `capi_fill_*` functions of
-- linux/include/linux/isdn/capiutil.h and `capi_cmsg_answer`.
pub mod Requests
pub mod Responses
pub mod Wires
use Prim.Native.Nat.{bit_or}
use capi4linux.Cmsg.Struct.{Cmsg}

unfoldable pub capi_cmsg_answer : Cmsg → Cmsg
capi_cmsg_answer c = record c { subcommand = bit_or c.subcommand 0x01 }
