-- ===== src/Core/Queries/Listed.antt =====
-- What the queries of linux/drivers/isdn/capi/core.c answer about listed devices.
use capi4linux.Prelude.{
  ℕ, ◌+◌, ◌-◌, ◌<◌, ◌≡◌, ◌%◌, refl, ap, inl, inr, ◌⊎◌, true, false, Option, none, some, List, [],
  ◌∷◌, ◌==◌, ltb, length, arith,
}
use capi4linux.Core.State.{Device, Core}
use capi4linux.Core.Registry.{slot_at, listed}
use capi4linux.Core.Registry.Invariant.{Inv, bit, slot_readable}
use capi4linux.Core.Registry.Release.{refs_at-outside}
use capi4linux.Core.Queries.{
  capi_isinstalled, lock_device, try_get_capi_device_by_id, capi_get_manufacturer,
  capi_get_serial_number, capi_get_version, capi_get_profile, capi_get_product,
}

-- All getters answer the data of the device `d` under the number `id`.
pub record Answers (s : Core) (id : ℕ) (d : Device) : Type 0 where
  pub manufacturer : capi_get_manufacturer id s ≡ some d.manufacturer
  pub serial : capi_get_serial_number id s ≡ some d.serial
  pub version : capi_get_version id s ≡ some d.version
  pub product : capi_get_product id s ≡ some d.product
  pub profile :
      (old : List ℕ) → capi_get_profile id old s ≡ some (length s.devs_list % 65536, d.profile)

lock_device-readable :
    (slot : Option Device)
    → slot_readable slot ≡ true
    → (d : Device) × (slot ≡ some d) × (lock_device slot ≡ some d)
lock_device-readable none h = cc
lock_device-readable (some d) h = (d, refl, rw h refl)

module _ (max_appls : ℕ) (s : Core) (v : Inv max_appls s) where
  try_get-listed :
      (i : ℕ)
      → listed i s.devs_list ≡ true
      → (d : Device) × (slot_at s.table i ≡ some d) × (try_get_capi_device_by_id (i + 1) s ≡ some d)
  unfolding try_get_capi_device_by_id
  try_get-listed i on =
      let (d, at, e) = lock_device-readable (slot_at s.table i) (v.readable i on) in
      let inside : i < length s.table =
        refs_at-outside s.table i (omega (arith, v.counted i, ap bit on)) in
      let low : ltb (i + 1) 1 ≡ false = ground arith in
      let high : ltb (length s.table) (i + 1) ≡ false = ground arith in
      let slot : i + 1 - 1 ≡ i = omega arith in
      (d, at, (rw (low, high, slot, try_get_capi_device_by_id) e))

  answers :
      (i : ℕ) (d : Device) → try_get_capi_device_by_id (i + 1) s ≡ some d → Answers s (i + 1) d
  unfolding capi_get_manufacturer capi_get_serial_number capi_get_version capi_get_profile
      capi_get_product
  answers i d e =
      let test : (i + 1 == 0) ≡ false = ground arith in
      record {
        manufacturer = rw (test, e, capi_get_manufacturer) refl;
        serial = rw (test, e, capi_get_serial_number) refl;
        version = rw (test, e, capi_get_version) refl;
        product = rw (test, e, capi_get_product) refl;
        profile = λ old. rw (test, e, v.number, capi_get_profile) refl;
      }

  -- Under the invariant every getter answers, for a listed device, the data of the device in its
  -- slot, and the profile the number of listed devices.
  pub queries-listed :
      (i : ℕ)
      → listed i s.devs_list ≡ true
      → (d : Device) × (slot_at s.table i ≡ some d) × Answers s (i + 1) d
  queries-listed i on = let (d, at, e) = try_get-listed i on in (d, at, answers i d e)

  listed-nonempty :
      (is : List ℕ)
      → ((length is == 0) ≡ false) × ((i : ℕ) × (listed i is ≡ true))
        ⊎ ((length is == 0) ≡ true) × ((i : ℕ) → listed i is ≡ false)
  listed-nonempty [] = inr (ground arith, λ i. refl)
  listed-nonempty (i ∷ is) = inl (ground arith, (i, ground arith))

  -- Under the invariant capi_isinstalled answers 0 exactly when some device is listed.
  pub capi_isinstalled-listed :
      (capi_isinstalled s ≡ 0) × ((i : ℕ) × (listed i s.devs_list ≡ true))
      ⊎ (capi_isinstalled s ≡ 0x1109) × ((i : ℕ) → listed i s.devs_list ≡ false)
  unfolding capi_isinstalled
  capi_isinstalled-listed = elim (listed-nonempty s.devs_list) [
    | inl (some_there, w) ↦ inl ((rw (v.number, some_there, capi_isinstalled) refl), w)
    | inr (none_there, w) ↦ inr ((rw (v.number, none_there, capi_isinstalled) refl), w)
  ]
