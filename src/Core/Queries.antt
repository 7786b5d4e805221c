-- ===== src/Core/Queries.antt =====
-- The queries of linux/drivers/isdn/capi/core.c about devices. An answer of a getter is what it
-- writes to the caller's buffer, and `none` where it returns NULL.
pub mod Listed
use capi4linux.Prelude.{
  ℕ, zero, suc, ◌+◌, ◌-◌, ◌%◌, Bool, true, false, ◌||◌, Option, none, some, List, [], ◌∷◌, ltb,
  ◌==◌, if◌then◌else◌, length, ◌>>=◌,
}
use capi4linux.Core.State.{Device, Core}
use capi4linux.Core.Registry.{slot_at}

-- `capi_isinstalled`, with the codes of linux/include/linux/isdn/capinfo.h.
unfoldable pub capi_isinstalled : Core → ℕ
capi_isinstalled s = if s.nr_devs == 0 then 0x1109 else 0

-- The device of a slot, if its lock can be taken for reading.
abbrev pub lock_device : Option Device → Option Device
lock_device none = none
lock_device (some d) = if d.readable then some d else none

-- `try_get_capi_device_by_id`.
unfoldable pub try_get_capi_device_by_id : ℕ → Core → Option Device
try_get_capi_device_by_id id s =
    if ltb id 1 || ltb (length s.table) id then none else lock_device (slot_at s.table (id - 1))

-- `capi_get_manufacturer`; the capicore's own is "NGC4Linux".
unfoldable pub capi_get_manufacturer : ℕ → Core → Option (List ℕ)
unfolding try_get_capi_device_by_id
capi_get_manufacturer id s =
    if id == 0
    then some (78 ∷ 71 ∷ 67 ∷ 52 ∷ 76 ∷ 105 ∷ 110 ∷ 117 ∷ 120 ∷ 0 ∷ [])
    else (try_get_capi_device_by_id id s >>= λ d. some d.manufacturer)

-- `capi_get_serial_number`; the capicore's own is "0".
unfoldable pub capi_get_serial_number : ℕ → Core → Option (List ℕ)
unfolding try_get_capi_device_by_id
capi_get_serial_number id s =
    if id == 0 then some (48 ∷ 0 ∷ []) else (try_get_capi_device_by_id id s >>= λ d. some d.serial)

-- `capi_get_version`; the capicore's own is 2.0.
unfoldable pub capi_get_version : ℕ → Core → Option (List ℕ)
unfolding try_get_capi_device_by_id
capi_get_version id s =
    if id == 0
    then some (2 ∷ 0 ∷ 0 ∷ 0 ∷ [])
    else (try_get_capi_device_by_id id s >>= λ d. some d.version)

-- `capi_get_profile`, for the buffer `old`: its field `ncontroller`, a `u16`, and its other fields.
unfoldable pub capi_get_profile : ℕ → List ℕ → Core → Option (ℕ × List ℕ)
unfolding try_get_capi_device_by_id
capi_get_profile id old s =
    if id == 0
    then some (s.nr_devs % 65536, old)
    else (try_get_capi_device_by_id id s >>= λ d. some (s.nr_devs % 65536, d.profile))

-- `capi_get_product`; the capicore has none.
unfoldable pub capi_get_product : ℕ → Core → Option (List ℕ)
unfolding try_get_capi_device_by_id
capi_get_product id s =
    if id == 0 then none else (try_get_capi_device_by_id id s >>= λ d. some d.product)
