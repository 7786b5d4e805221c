-- ===== src/Core.antt =====
-- The capicore: linux/drivers/isdn/capi/core.c with the inline functions of
-- linux/include/linux/isdn/capiappl.h and linux/include/linux/isdn/capidevice.h.
pub mod State
pub mod Numbers
pub mod Registry
pub mod Messages
pub mod Queries
