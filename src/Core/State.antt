-- ===== src/Core/State.antt =====
-- The state of the capicore, from linux/drivers/isdn/capi/core.c,
-- linux/include/linux/isdn/capiappl.h and linux/include/linux/isdn/capidevice.h. An application on
-- `capi_appls_list` is found by its number, and a device by its slot of `capi_devs_table`, which it
-- keeps until it is freed. Each operation runs as one step: the semaphores that the code takes are
-- not part of the state, but for a device's `sem`, which is readable while it is registered.
use capi4linux.Prelude.{ℕ, Bool, List, Option}
use capi4linux.Memory.{Mem}

-- `struct sk_buff`: its length and its bytes.
pub record Message : Type 0 where
  pub len : ℕ
  pub body : Mem

-- `struct capi_stats`.
pub record Stats : Type 0 where
  pub rx_bytes : ℕ
  pub tx_bytes : ℕ
  pub rx_packets : ℕ
  pub tx_packets : ℕ

-- `struct capi_appl`. The handler `sig` is a number that names it, 0 for NULL.
pub record Appl : Type 0 where
  pub id : ℕ
  pub sig : ℕ
  pub sig_param : ℕ
  pub msg_queue : List Message
  pub info : ℕ
  pub devs : ℕ → Bool
  pub stats : Stats
  pub datablklen : ℕ

-- `struct capi_device`, with the reference counter of its class device.
pub record Device : Type 0 where
  pub refs : ℕ
  pub readable : Bool
  pub product : List ℕ
  pub manufacturer : List ℕ
  pub serial : List ℕ
  pub version : List ℕ
  pub ncontroller : ℕ
  pub profile : List ℕ

pub record Core : Type 0 where
  pub table : List (Option Device)
  pub devs_list : List ℕ
  pub appls : List Appl
  pub nr_devs : ℕ

-- The driver's answers, as `struct capi_driver` gives them: 0, or an error.
pub record Driver : Type 0 where
  pub capi_register : ℕ → ℕ → ℕ
  pub capi_put_message : ℕ → ℕ → Message → ℕ
