-- ===== src/Capidrv.antt =====
-- The ISDN4Linux driver: linux/drivers/isdn/capi/capidrv.c.
pub mod Tables
pub mod Card
pub mod Buffer
pub mod Nodes
pub mod Change
pub mod Links
pub mod Handlers
pub mod Trace
pub mod Safety
