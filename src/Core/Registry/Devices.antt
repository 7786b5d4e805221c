-- ===== src/Core/Registry/Devices.antt =====
-- Registering and removing devices, in linux/drivers/isdn/capi/core.c, and the registry's invariant.
mod Binding
use capi4linux.Prelude.{
  ℕ, zero, suc, ◌+◌, ◌-◌, ◌<◌, ◌≤◌, ◌≡◌, ◌≢◌, refl, ap, sym, ◌∙◌, ◌⊎◌, inl, inr, Bool, true, false,
  ◌||◌, Option, none, some, List, [], ◌∷◌, ◌++◌, ◌==◌, set, length, arith, Bool-cases, Option-cases,
  ==_iff,
}
use mathlib.Core.Path.{subst}
use mathlib.Core.Bool.{false≢true}
use capi4linux.Core.State.{Device, Core, Driver}
use capi4linux.Core.Numbers.{free_slot, add_capi_device}
use capi4linux.Core.Registry.{
  Table, slot_at, listed, update_slot, register_appls, lock_readable, bind_capi_device, remove_slot,
  unregister_capi_device, finish_register, capi_device_register,
}
use capi4linux.Core.Registry.Invariant.{
  Inv, Once, bit, slot_refs, slot_readable, on_slot, slot_at-update_self, slot_at-update_ne,
}
use capi4linux.Core.Registry.Grows.{refs_at, register_appls-AllGrow}
use capi4linux.Core.Registry.Devices.Binding.{refs_at-lock, Bound, bind_capi_device-Bound}

listed-remove_slot :
    (i j : ℕ) (is : List ℕ) → listed j (remove_slot i is) ≡ true → listed j is ≡ true
unfolding remove_slot
listed-remove_slot i j [] h = h
listed-remove_slot i j (k ∷ is) h = ground (arith, listed-remove_slot i j is)

bit_mono : (a b : Bool) → (a ≡ true → b ≡ true) → bit a ≤ bit b
bit_mono false b h = omega arith
bit_mono true b h = rw (h refl) (omega arith)

length-remove_slot :
    (i : ℕ) (is : List ℕ) → listed i is ≡ true → length (remove_slot i is) ≡ length is - 1
unfolding remove_slot
length-remove_slot i [] h = cc
length-remove_slot i (k ∷ []) h = ground arith
length-remove_slot i (k ∷ j ∷ is) h = ground (arith, length-remove_slot i (j ∷ is))

lock-readable_ne :
    (b : Bool) (i j : ℕ) (t : Table)
    → i ≢ j
    → slot_readable (slot_at (update_slot i (lock_readable b) t) j) ≡ slot_readable (slot_at t j)
lock-readable_ne b i j t ne = ap slot_readable (slot_at-update_ne i j (lock_readable b) t ne)

remove_slot-gone : (i : ℕ) (is : List ℕ) → Once is → listed i (remove_slot i is) ≡ false
unfolding remove_slot
remove_slot-gone i [] o = refl
remove_slot-gone i (k ∷ is) o = elim (Bool-cases (k == i)) [
  | inl same ↦
      let e : k ≡ i = (==_iff k i).0 same in rw same (subst (λ x. listed x is ≡ false) e o.0)
  | inr other ↦ rw (other, other) (remove_slot-gone i is o.1)
]

not-listed-remove :
    (i j : ℕ) (is : List ℕ) → listed j is ≡ false → listed j (remove_slot i is) ≡ false
unfolding remove_slot
not-listed-remove i j [] h = refl
not-listed-remove i j (k ∷ is) h = ground (arith, not-listed-remove i j is)

remove_slot-Once : (i : ℕ) (is : List ℕ) → Once is → Once (remove_slot i is)
unfolding remove_slot
remove_slot-Once i [] o = tt
remove_slot-Once i (k ∷ is) o = elim (Bool-cases (k == i)) [
  | inl same ↦ rw same o.1
  | inr other ↦ rw other (not-listed-remove i k is o.0, remove_slot-Once i is o.1)
]

module _ (max_appls : ℕ) (s : Core) (v : Inv max_appls s) (i : ℕ) where
  -- Unregistering a listed device keeps the invariant.
  pub unregister_capi_device-Inv :
      listed i s.devs_list ≡ true → Inv max_appls (unregister_capi_device i s)
  unfolding unregister_capi_device
  unregister_capi_device-Inv on = record {
    ids = v.ids;
    id_bound = v.id_bound;
    counted = λ j. rw (refs_at-lock false i j s.table) (
        omega (
          arith,
          v.counted j,
          bit_mono (listed j (remove_slot i s.devs_list)) (listed j s.devs_list)
              (listed-remove_slot i j s.devs_list),
        ));
    readable = λ j h.
        let ne : i ≢ j = λ e. false≢true (
          sym (remove_slot-gone i s.devs_list v.once)
          ∙ ap (λ x. listed x (remove_slot i s.devs_list)) e
          ∙ h) in
        lock-readable_ne false i j s.table ne ∙ v.readable j (listed-remove_slot i j s.devs_list h);
    number = omega (arith, v.number, length-remove_slot i s.devs_list on);
    once = remove_slot-Once i s.devs_list v.once;
  }

module _ (max_appls : ℕ) (sysfs : ℕ → ℕ) (s : Core) (v : Inv max_appls s) where
  finish_register-Inv :
      (r : ℕ × Core) → Bound max_appls s r → Inv max_appls (finish_register sysfs r).1
  unfolding finish_register
  finish_register-Inv r (inl e) = subst (λ q. Inv max_appls (finish_register sysfs q).1) (sym e) v
  finish_register-Inv (id, s') (inr (i, e, on, v')) =
      let test : (id == 0) ≡ false = ground arith in
      let slot : id - 1 ≡ i = omega arith in
      elim (Bool-cases (sysfs id == 0)) [
        | inl fine ↦ rw (test, fine) v'
        | inr error ↦ rw (test, error, slot) (unregister_capi_device-Inv max_appls s' v' i on)
      ]

  -- Registering a device that its driver holds keeps the registry invariant on every branch:
  -- NULL, full table, sysfs error, success.
  pub capi_device_register-Inv :
      (drv : Driver) (dev : Option Device)
      → 0 < slot_refs dev ⊎ (dev ≡ none)
      → Inv max_appls (capi_device_register drv sysfs dev s).1
  unfolding capi_device_register
  capi_device_register-Inv drv none held = v
  capi_device_register-Inv drv (some dev) (inl held) =
      finish_register-Inv (bind_capi_device drv dev s)
        (bind_capi_device-Bound drv dev s max_appls v held)
  capi_device_register-Inv drv (some dev) (inr bad) = cc
