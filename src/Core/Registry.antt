-- ===== src/Core/Registry.antt =====
-- Registration and release of devices and applications: linux/drivers/isdn/capi/core.c, with
-- `capi_device_get` and `capi_device_put` of linux/include/linux/isdn/capidevice.h.
pub mod Invariant
pub mod Grows
pub mod Devices
pub mod Put
pub mod Release
pub mod Register
use capi4linux.Prelude.{
  ℕ, zero, suc, ◌+◌, ◌-◌, ◌<◌, ◌≤◌, ◌≡◌, Bool, true, false, ◌||◌, Option, none, some, List, [], ◌∷◌,
  ◌++◌, ltb, ◌==◌, if◌then◌else◌, get_elem?, length, ◌>>=◌,
}
use capi4linux.Core.State.{Stats, Appl, Device, Core, Driver}
use capi4linux.Core.Numbers.{free_slot, add_capi_device, add_capi_appl}

abbrev pub Table : Type 0
Table = List (Option Device)

abbrev pub slot_at : Table → ℕ → Option Device
slot_at [] i = none
slot_at (s ∷ t) zero = s
slot_at (s ∷ t) (suc i) = slot_at t i

-- Whether a device is on `capi_devs_list`.
abbrev pub listed : ℕ → List ℕ → Bool
listed i [] = false
listed i (j ∷ js) = (j == i) || listed i js

-- `capi_device_alloc`, where the allocation succeeds: all zero, with one reference.
abbrev pub capi_device_alloc : Device
capi_device_alloc = record {
  refs = 1;
  readable = false;
  product = [];
  manufacturer = [];
  serial = [];
  version = [];
  ncontroller = 0;
  profile = [];
}

-- A write to the device in a slot.
unfoldable pub update_slot : ℕ → (Device → Option Device) → Table → Table
update_slot i f [] = []
update_slot zero f (none ∷ t) = none ∷ t
update_slot zero f (some d ∷ t) = f d ∷ t
update_slot (suc i) f (s ∷ t) = s ∷ update_slot i f t

-- `capi_device_get`.
abbrev pub capi_device_get : Device → Option Device
capi_device_get d = some (record d { refs = d.refs + 1 })

-- `capi_device_put`, and `free_capi_device` when the counter reaches zero: the slot is emptied.
abbrev pub capi_device_put : Device → Option Device
capi_device_put d = if ltb 1 d.refs then some (record d { refs = d.refs - 1 }) else none

abbrev pub set_bit : ℕ → (ℕ → Bool) → ℕ → Bool
set_bit i bits = λ j. if j == i then true else bits j

-- `register_capi_appl` for the device in slot `i`.
unfoldable pub register_capi_appl : Driver → Appl → ℕ → Table → Appl × Table
unfolding update_slot
register_capi_appl drv a i t =
    if drv.capi_register (i + 1) a.id == 0
    then (record a { devs = set_bit i a.devs }, update_slot i capi_device_get t)
    else (a, t)

-- The loop of `bind_capi_device` over the applications.
unfoldable pub register_appls : Driver → ℕ → List Appl → Table → List Appl × Table
register_appls drv i [] t = ([], t)
register_appls drv i (a ∷ xs) t =
    let (a', t1) = register_capi_appl drv a i t in
    let (xs', t2) = register_appls drv i xs t1 in (a' ∷ xs', t2)

-- The loop of `bind_capi_appl` over the devices, by slot.
unfoldable pub register_devs : Driver → Appl → List ℕ → Table → Appl × Table
register_devs drv a [] t = (a, t)
register_devs drv a (i ∷ is) t =
    let (a', t') = register_capi_appl drv a i t in register_devs drv a' is t'

abbrev pub lock_readable : Bool → Device → Option Device
lock_readable b d = some (record d { readable = b })

-- `bind_capi_device` after `init_rwsem` and `down_write`; the number is 0 if the table is full.
unfoldable pub bind_capi_device : Driver → Device → Core → ℕ × Core
unfolding free_slot
bind_capi_device drv dev s = elim (free_slot 0 s.table) [
  | none ↦ (0, s)
  | some i ↦
      let t = (add_capi_device (record dev { readable = false }) s.table).1 in
      let (xs, t') = register_appls drv i s.appls t in
      (
        i + 1,
        record s {
          table = update_slot i (lock_readable true) t';
          appls = xs;
          nr_devs = s.nr_devs + 1;
          devs_list = s.devs_list ++ i ∷ [];
        },
      )
]

unfoldable pub remove_slot : ℕ → List ℕ → List ℕ
remove_slot i [] = []
remove_slot i (j ∷ js) = if j == i then js else j ∷ remove_slot i js

-- `unregister_capi_device`, for the device in slot `i`.
unfoldable pub unregister_capi_device : ℕ → Core → Core
unregister_capi_device i s = record s {
  devs_list = remove_slot i s.devs_list;
  table = update_slot i (lock_readable false) s.table;
  nr_devs = s.nr_devs - 1;
}

-- The result of a device registration: the codes of linux/drivers/isdn/capi/core.c.
pub data DeviceResult : Type 0 where
  registered : ℕ → DeviceResult
  einval : DeviceResult
  emfile : DeviceResult
  sysfs_error : ℕ → DeviceResult

-- What `capi_device_register` does with the outcome of `bind_capi_device`. `sysfs` is the result of
-- `capi_device_register_sysfs` for the number, 0 or an error.
unfoldable pub finish_register : (ℕ → ℕ) → ℕ × Core → DeviceResult × Core
finish_register sysfs (id, s) =
    if id == 0
    then (emfile, s)
    else if sysfs id == 0
    then (registered id, s)
    else (sysfs_error (sysfs id), unregister_capi_device (id - 1) s)

-- `capi_device_register`; `none` is a NULL pointer.
unfoldable pub capi_device_register : Driver → (ℕ → ℕ) → Option Device → Core → DeviceResult × Core
unfolding finish_register
capi_device_register drv sysfs none s = (einval, s)
capi_device_register drv sysfs (some dev) s = finish_register sysfs (bind_capi_device drv dev s)

-- `capi_device_unregister`, but for `class_device_del`, which is the driver core's.
abbrev pub capi_device_unregister : ℕ → Core → Core
capi_device_unregister = unregister_capi_device

-- The driver drops its reference to the device in slot `i`.
unfoldable pub driver_put : ℕ → Core → Core
driver_put i s = record s { table = update_slot i capi_device_put s.table }

-- `find_next_bit` of the kernel: the first set bit from an offset on, or the size.
pub record FindNextBit : Type 0 where
  pub run : (ℕ → Bool) → ℕ → ℕ → ℕ
  pub from : (bits : ℕ → Bool) (size off : ℕ) → off ≤ size → off ≤ run bits size off
  pub found :
      (bits : ℕ → Bool) (size off : ℕ) → run bits size off < size → bits (run bits size off) ≡ true
  pub skips :
      (bits : ℕ → Bool) (size off j : ℕ)
      → off ≤ j
      → j < run bits size off
      → j < size
      → bits j ≡ false

-- The loop of `capi_release` over the set bits. It gives the slots whose driver is called and the
-- table afterwards; `none` is the `BUG_ON`, or fuel that ran out.
unfoldable pub release_loop :
    FindNextBit → ℕ → (ℕ → Bool) → List ℕ → ℕ → Table → ℕ → Option (List ℕ × Table)
release_loop fnb max_devs bits devs_list zero t i = none
release_loop fnb max_devs bits devs_list (suc fuel) t i =
    let k = fnb.run bits max_devs i in
    elim (ltb k max_devs) [
      | false ↦ some ([], t)
      | true ↦ elim (slot_at t k) [
        | none ↦ none
        | some dev ↦
            release_loop fnb max_devs bits devs_list fuel (update_slot k capi_device_put t) (k + 1)
            >>= λ (called, t'). some (if listed k devs_list then k ∷ called else called, t')
      ]
    ]

unfoldable pub remove_appl : ℕ → List Appl → List Appl
remove_appl id [] = []
remove_appl id (a ∷ xs) = if a.id == id then xs else a ∷ remove_appl id xs

-- `capi_release`: the slots whose driver is called, the application's error, and the state. Its
-- message queue goes with it.
unfoldable pub capi_release : FindNextBit → Appl → Core → Option (List ℕ × ℕ × Core)
capi_release fnb a s =
    release_loop fnb (length s.table) a.devs s.devs_list (suc (length s.table)) s.table 0
    >>= λ (called, t).
        some (called, a.info, record s { table = t; appls = remove_appl a.id s.appls })

-- `bind_capi_appl`: a number, a place on the list, and the registration with each listed device,
-- for which the drivers do not look at the list. The code is that of `capi_register`.
unfoldable pub bind_capi_appl : Driver → ℕ → Appl → Core → ℕ × Core
bind_capi_appl drv max_appls a s =
    let id = (add_capi_appl max_appls a s.appls).0 in
    if id == 0
    then (0x1001, record s { appls = (add_capi_appl max_appls a s.appls).1 })
    else let (a', t) = register_devs drv (record a { id = id }) s.devs_list s.table in
      (0, record s { table = t; appls = (add_capi_appl max_appls a' s.appls).1 })

-- `capi_register`, with the codes of
-- linux/include/linux/isdn/capinfo.h; `none` is a NULL pointer.
unfoldable pub capi_register : Driver → ℕ → Option Appl → Core → ℕ × Core
capi_register drv max_appls none s = (0x1008, s)
capi_register drv max_appls (some a) s =
    if ltb a.datablklen 128
    then (0x1002, s)
    else let a0 = record a {
      msg_queue = [];
      info = 0;
      stats = record { rx_bytes = 0; tx_bytes = 0; rx_packets = 0; tx_packets = 0 };
      devs = λ _. false;
    } in
      bind_capi_appl drv max_appls a0 s
