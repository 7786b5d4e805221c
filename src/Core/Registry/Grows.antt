-- ===== src/Core/Registry/Grows.antt =====
-- Registering an application with a device, in linux/drivers/isdn/capi/core.c: bits and references.
use capi4linux.Prelude.{
  ℕ, ◌+◌, ◌<◌, ◌≤◌, ◌≡◌, ◌≢◌, refl, ap, ◌∙◌, inl, inr, Option, none, some, List, [], ◌∷◌, ◌==◌,
  arith, Bool-cases, ==_iff,
}
use capi4linux.Core.State.{Appl, Device, Driver}
use capi4linux.Core.Numbers.Free.{Ascends, AllUpTo}
use capi4linux.Core.Registry.{
  Table, slot_at, update_slot, capi_device_get, register_capi_appl, register_appls, register_devs,
}
use capi4linux.Core.Registry.Invariant.{
  bit, holders, slot_refs, slot_readable, on_slot, slot_at-update_self, slot_at-update_ne,
}

abbrev pub refs_at : Table → ℕ → ℕ
refs_at t j = slot_refs (slot_at t j)

-- From one table to a later one.
pub record Later (t t' : Table) : Type 0 where
  pub kept : (j : ℕ) → refs_at t j ≤ refs_at t' j
  pub readable : (j : ℕ) → slot_readable (slot_at t' j) ≡ slot_readable (slot_at t j)

pub record Grows (a : Appl) (t : Table) (a' : Appl) (t' : Table) : Type 0 where
  pub gained : (j : ℕ) → bit (a'.devs j) + refs_at t j ≤ bit (a.devs j) + refs_at t' j
  pub later : Later t t'
  pub id : a'.id ≡ a.id

pub Later-refl : (t : Table) → Later t t
Later-refl t = record { kept = λ j. omega arith; readable = λ j. refl }

pub Later-trans : {t t' t'' : Table} → Later t t' → Later t' t'' → Later t t''
Later-trans {t} {t'} {t''} u v = record {
  kept = λ j. omega (arith, u.kept j, v.kept j);
  readable = λ j. v.readable j ∙ u.readable j;
}

get-refs :
    (s : Option Device) → 0 < slot_refs s → slot_refs (on_slot capi_device_get s) ≡ slot_refs s + 1
get-refs none h = absurd (omega arith)
get-refs (some d) h = refl

get-readable : (s : Option Device) → slot_readable (on_slot capi_device_get s) ≡ slot_readable s
get-readable none = refl
get-readable (some d) = refl

module _ (i : ℕ) (t : Table) (present : 0 < refs_at t i) where
  refs_at-get : (j : ℕ) → refs_at (update_slot i capi_device_get t) j ≡ refs_at t j + bit (j == i)
  refs_at-get j = elim (Bool-cases (j == i)) [
    | inl same ↦
        let e : j ≡ i = (==_iff j i).0 same in
        rw (same, e, slot_at-update_self i capi_device_get t) (get-refs (slot_at t i) present)
    | inr other ↦
        let ne : i ≢ j = ground arith in
        rw (other, slot_at-update_ne i j capi_device_get t ne) (omega arith)
  ]

  readable-get :
      (j : ℕ)
      → slot_readable (slot_at (update_slot i capi_device_get t) j) ≡ slot_readable (slot_at t j)
  readable-get j = elim (Bool-cases (j == i)) [
    | inl same ↦
        let e : j ≡ i = (==_iff j i).0 same in
        rw (e, slot_at-update_self i capi_device_get t) (get-readable (slot_at t i))
    | inr other ↦
        let ne : i ≢ j = ground arith in
        ap slot_readable (slot_at-update_ne i j capi_device_get t ne)
  ]

  pub register_capi_appl-Grows :
      (drv : Driver) (a : Appl)
      → Grows a t (register_capi_appl drv a i t).0 (register_capi_appl drv a i t).1
  unfolding register_capi_appl
  register_capi_appl-Grows drv a = elim (Bool-cases (drv.capi_register (i + 1) a.id == 0)) [
    | inl accepted ↦ rw accepted record {
      gained = λ j. ground (arith, refs_at-get j);
      later = record { kept = λ j. omega (arith, refs_at-get j); readable = readable-get };
      id = refl;
    }
    | inr refused ↦ rw refused record { gained = λ j. omega arith; later = Later-refl t; id = refl }
  ]

abbrev pub AllPresent : Table → List ℕ → Type 0
AllPresent t [] = Unit {0}
AllPresent t (i ∷ is) = (0 < refs_at t i) × AllPresent t is

AllPresent-Later : {t t' : Table} (is : List ℕ) → Later t t' → AllPresent t is → AllPresent t' is
AllPresent-Later [] l p = tt
AllPresent-Later (i ∷ is) l p = (omega (arith, l.kept i), AllPresent-Later is l p.1)

-- An application registered with devices that are there.
pub register_devs-Grows :
    (drv : Driver) (is : List ℕ) (a : Appl) (t : Table)
    → AllPresent t is
    → Grows a t (register_devs drv a is t).0 (register_devs drv a is t).1
unfolding register_devs
register_devs-Grows drv [] a t p = record {
  gained = λ j. omega arith;
  later = Later-refl t;
  id = refl;
}
register_devs-Grows drv (i ∷ is) a t p =
    let g = register_capi_appl-Grows i t p.0 drv a in
    let r = register_capi_appl drv a i t in
    let h = register_devs-Grows drv is r.0 r.1 (AllPresent-Later is g.later p.1) in
    record {
      gained = λ j. omega (arith, g.gained j, h.gained j);
      later = Later-trans g.later h.later;
      id = h.id ∙ g.id;
    }

pub record AllGrow (xs : List Appl) (t : Table) (xs' : List Appl) (t' : Table) : Type 0 where
  pub gained : (j : ℕ) → holders j xs' + refs_at t j ≤ holders j xs + refs_at t' j
  pub later : Later t t'
  pub ids : (lo : ℕ) → Ascends lo xs → Ascends lo xs'
  pub id_bound : (hi : ℕ) → AllUpTo hi xs → AllUpTo hi xs'

-- All applications registered with a device that is there.
pub register_appls-AllGrow :
    (drv : Driver) (i : ℕ) (xs : List Appl) (t : Table)
    → 0 < refs_at t i
    → AllGrow xs t (register_appls drv i xs t).0 (register_appls drv i xs t).1
unfolding register_appls
register_appls-AllGrow drv i [] t p = record {
  gained = λ j. omega arith;
  later = Later-refl t;
  ids = λ lo h. tt;
  id_bound = λ hi h. tt;
}
register_appls-AllGrow drv i (a ∷ xs) t p =
    let g = register_capi_appl-Grows i t p drv a in
    let r = register_capi_appl drv a i t in
    let h = register_appls-AllGrow drv i xs r.1 (omega (arith, g.later.kept i)) in
    record {
      gained = λ j. omega (arith, g.gained j, h.gained j);
      later = Later-trans g.later h.later;
      ids = λ lo (le, asc). (omega (arith, g.id), h.ids r.0.id (rw g.id asc));
      id_bound = λ hi (le, rest). (omega (arith, g.id), h.id_bound hi rest);
    }
