-- ===== src/Cmsg.antt =====
-- The message converter of linux/drivers/isdn/capi/capiutil.c.
pub mod Table
pub mod Struct
pub mod Encode
pub mod Decode
pub mod Layout
pub mod Wire
pub mod Rows
pub mod RoundTrip
pub mod Index
pub mod Fields
pub mod Fill
pub mod Names
