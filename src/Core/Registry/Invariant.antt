-- ===== src/Core/Registry/Invariant.antt =====
-- What holds of the registry of linux/drivers/isdn/capi/core.c between operations.
use capi4linux.Prelude.{
  ℕ, zero, suc, ◌+◌, ◌≤◌, ◌≡◌, ◌≢◌, refl, ap, Bool, true, false, Option, none, some, List, [], ◌∷◌,
  length,
}
use capi4linux.Core.State.{Appl, Device, Core}
use capi4linux.Core.Numbers.Free.{Ascends, AllUpTo}
use capi4linux.Core.Registry.{Table, slot_at, listed, update_slot}

abbrev pub bit : Bool → ℕ
bit true = 1
bit false = 0

-- How many applications hold a reference to the device in a slot.
abbrev pub holders : ℕ → List Appl → ℕ
holders i [] = 0
holders i (a ∷ xs) = bit (a.devs i) + holders i xs

abbrev pub slot_refs : Option Device → ℕ
slot_refs none = 0
slot_refs (some d) = d.refs

abbrev pub slot_readable : Option Device → Bool
slot_readable none = false
slot_readable (some d) = d.readable

-- A number stands on the device list once.
abbrev pub Once : List ℕ → Type 0
Once [] = Unit {0}
Once (i ∷ is) = (listed i is ≡ false) × Once is

-- Every bit of an application is a reference to a device that is there, and the driver of a listed
-- device holds one more; listed devices are readable; the counter counts the listed devices.
pub record Inv (max_appls : ℕ) (s : Core) : Type 0 where
  pub ids : Ascends 0 s.appls
  pub id_bound : AllUpTo max_appls s.appls
  pub counted :
      (i : ℕ) → holders i s.appls + bit (listed i s.devs_list) ≤ slot_refs (slot_at s.table i)
  pub readable : (i : ℕ) → listed i s.devs_list ≡ true → slot_readable (slot_at s.table i) ≡ true
  pub number : s.nr_devs ≡ length s.devs_list
  pub once : Once s.devs_list

abbrev pub on_slot : (Device → Option Device) → Option Device → Option Device
on_slot f none = none
on_slot f (some d) = f d

pub slot_at-update_self :
    (i : ℕ) (f : Device → Option Device) (t : Table)
    → slot_at (update_slot i f t) i ≡ on_slot f (slot_at t i)
unfolding update_slot
slot_at-update_self i f [] = refl
slot_at-update_self zero f (none ∷ t) = refl
slot_at-update_self zero f (some d ∷ t) = refl
slot_at-update_self (suc i) f (s ∷ t) = slot_at-update_self i f t

pub slot_at-update_ne :
    (i j : ℕ) (f : Device → Option Device) (t : Table)
    → i ≢ j
    → slot_at (update_slot i f t) j ≡ slot_at t j
unfolding update_slot
slot_at-update_ne i j f [] ne = refl
slot_at-update_ne zero zero f (s ∷ t) ne = absurd (ne refl)
slot_at-update_ne zero (suc j) f (none ∷ t) ne = refl
slot_at-update_ne zero (suc j) f (some d ∷ t) ne = refl
slot_at-update_ne (suc i) zero f (s ∷ t) ne = refl
slot_at-update_ne (suc i) (suc j) f (s ∷ t) ne = slot_at-update_ne i j f t (λ e. ne (ap suc e))
