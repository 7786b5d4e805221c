-- ===== src/Capidrv/Handlers.antt =====
-- What the handlers of linux/drivers/isdn/capi/capidrv.c share.
pub mod Calls
pub mod Plcis
pub mod Nccis
pub mod Protocols
pub mod Leased
pub mod Commands
pub mod Driver
use capi4linux.Prelude.{ℕ, Bool, ◌&&◌, Option, none, some, ◌==◌, ◌>>=◌}
use capi4linux.Memory.{Mem}
use capi4linux.Cmsg.Struct.{Cmsg, adr_controller}
use capi4linux.Cmsg.Fill.{capi_cmsg_answer}
use capi4linux.Capidrv.Card.{Card, send_message}

-- What the driver takes from ISDN4Linux and the kernel: `ISDN_MSNLEN`, the sizes of `parm.setup.phone` and
-- `parm.setup.eazmsn`, the answer of `statcallb` to a call for a channel, with the card as the
-- commands that it issues meanwhile leave it, whether there is memory, and
-- the kernel's `skb_pull` of a number of bytes, on a buffer and its length; and what the compiler makes
-- of `1 << i`, by its bits.
pub record Isdn : Type 0 where
  pub msnlen : ℕ
  pub phone_size : ℕ
  pub eazmsn_size : ℕ
  pub ring : ℕ → Card → Option (ℕ × Card)
  pub memory : Bool
  pub skb_pull : ℕ → Mem × ℕ → Mem × ℕ
  pub shl1 : ℕ → ℕ → Bool

-- A case of `switch (CAPICMD(cmsg->Command, cmsg->Subcommand))`.
abbrev pub is : ℕ → ℕ → Cmsg → Bool
is command subcommand c = (c.command == command) && (c.subcommand == subcommand)

-- `cmsg->adr`.
abbrev pub adr : Cmsg → ℕ
adr c = c.nums adr_controller

-- What is done with a node that is found; nothing, when there is none.
abbrev pub when_found : (ℕ → Card → Option Card) → Card → Option ℕ → Option Card
when_found f s none = some s
when_found f s (some p) = f p s

-- `capi_cmsg_answer` and `send_message`.
abbrev pub send_answer : Cmsg → Card → Option Card
send_answer c s = send_message (capi_cmsg_answer c) s
