-- ===== src/Capidrv/Safety.antt =====
-- The handlers of linux/drivers/isdn/capi/capidrv.c and bad pointers.
pub mod Finds
pub mod Answers
pub mod Plcis
pub mod Nccis
pub mod Calls
pub mod Disconnect
pub mod Dispatch
pub mod Commands
pub mod Dialing
pub mod Sending
pub mod Life
