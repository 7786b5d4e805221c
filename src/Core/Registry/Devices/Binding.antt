-- ===== src/Core/Registry/Devices/Binding.antt =====
-- `bind_capi_device` of linux/drivers/isdn/capi/core.c: the slot and the list.
use capi4linux.Prelude.{
  ℕ, zero, suc, ◌+◌, ◌<◌, ◌≤◌, ◌≡◌, ◌≢◌, refl, ap, sym, ◌∙◌, ◌⊎◌, inl, inr, Bool, true, false, ◌||◌,
  Option, none, some, List, [], ◌∷◌, ◌++◌, ◌==◌, set, length, arith, Bool-cases, Option-cases,
  ==_iff,
}
use mathlib.Core.Path.{subst}
use capi4linux.Core.State.{Device, Core, Driver}
use capi4linux.Core.Numbers.{free_slot, add_capi_device}
use capi4linux.Core.Registry.{
  Table, slot_at, listed, update_slot, register_appls, lock_readable, bind_capi_device,
}
use capi4linux.Core.Registry.Invariant.{
  Inv, Once, bit, slot_refs, slot_readable, on_slot, slot_at-update_self, slot_at-update_ne,
}
use capi4linux.Core.Registry.Grows.{refs_at, register_appls-AllGrow}

-- The lock of a device changes no counter.
lock-refs : (b : Bool) (s : Option Device) → slot_refs (on_slot (lock_readable b) s) ≡ slot_refs s
lock-refs b none = refl
lock-refs b (some d) = refl

pub refs_at-lock :
    (b : Bool) (i j : ℕ) (t : Table) → refs_at (update_slot i (lock_readable b) t) j ≡ refs_at t j
refs_at-lock b i j t = elim (Bool-cases (j == i)) [
  | inl same ↦
      let e : j ≡ i = (==_iff j i).0 same in
      rw (e, slot_at-update_self i (lock_readable b) t) (lock-refs b (slot_at t i))
  | inr other ↦
      let ne : i ≢ j = ground arith in ap slot_refs (slot_at-update_ne i j (lock_readable b) t ne)
]

lock-readable :
    (s : Option Device) → 0 < slot_refs s → slot_readable (on_slot (lock_readable true) s) ≡ true
lock-readable none h = absurd (omega arith)
lock-readable (some d) h = refl

-- The slot that `add_capi_device` finds is empty, and only it is written.
record Placed (t : Table) (i : ℕ) (v : Option Device) : Type 0 where
  was : slot_at t i ≡ none
  is : slot_at (set t i v) i ≡ v
  others : (j : ℕ) → j ≢ i → slot_at (set t i v) j ≡ slot_at t j

Placed-here : (t : Table) (v : Option Device) → Placed (none ∷ t) 0 v
Placed-here t v = record { was = refl; is = refl; others = others }
  where
    others : (j : ℕ) → j ≢ 0 → slot_at (v ∷ t) j ≡ slot_at (none ∷ t) j
    others zero ne = absurd (ne refl)
    others (suc j) ne = refl

Placed-later :
    (t : Table) (s : Option Device) (m : ℕ) (v : Option Device)
    → Placed t m v
    → Placed (s ∷ t) (suc m) v
Placed-later t s m v p = record { was = p.was; is = p.is; others = others }
  where
    others : (j : ℕ) → j ≢ suc m → slot_at (s ∷ set t m v) j ≡ slot_at (s ∷ t) j
    others zero ne = refl
    others (suc j) ne = p.others j (λ e. ne (ap suc e))

free_slot-Placed :
    (k i : ℕ) (t : Table) (v : Option Device)
    → free_slot k t ≡ some i
    → (m : ℕ) × (i ≡ k + m) × Placed t m v
unfolding free_slot
free_slot-Placed k i [] v e = cc
free_slot-Placed k i (none ∷ t) v e = (0, ground arith, Placed-here t v)
free_slot-Placed k i (some d ∷ t) v e =
    let (m, at, p) = free_slot-Placed (suc k) i t v e in
    (suc m, omega arith, Placed-later t (some d) m v p)

listed-append : (j i : ℕ) (is : List ℕ) → listed j (is ++ i ∷ []) ≡ (listed j is || (i == j))
listed-append j i [] = ground arith
listed-append j i (k ∷ is) = ground (arith, listed-append j i is)

length-append_one : (i : ℕ) (is : List ℕ) → length (is ++ i ∷ []) ≡ length is + 1
length-append_one i [] = omega arith
length-append_one i (k ∷ is) = omega (arith, length-append_one i is)

add_capi_device-set :
    (d : Device) (i : ℕ) (t : Table)
    → free_slot 0 t ≡ some i
    → (add_capi_device d t).1 ≡ set t i (some d)
unfolding add_capi_device
add_capi_device-set d i t e = rw (e, add_capi_device)

bit-le-one : (b : Bool) → bit b ≤ 1
bit-le-one true = omega arith
bit-le-one false = omega arith

listed-append_ne : (j i : ℕ) (is : List ℕ) → j ≢ i → listed j (is ++ i ∷ []) ≡ listed j is
listed-append_ne j i is ne = listed-append j i is ∙ ground arith

append-Once : (i : ℕ) (is : List ℕ) → Once is → listed i is ≡ false → Once (is ++ i ∷ [])
append-Once i [] o h = (refl, tt)
append-Once i (k ∷ is) o h =
    let ne : k ≢ i = ground arith in
    (listed-append_ne k i is ne ∙ o.0, append-Once i is o.1 (ground arith))

bit_zero : (b : Bool) → bit b ≡ 0 → b ≡ false
bit_zero b h = ground arith

-- What `bind_capi_device` does: nothing, with the number 0, or a new listed device.
abbrev pub Bound : ℕ → Core → ℕ × Core → Type 0
Bound max_appls s r =
    (r ≡ (0, s)) ⊎ ((i : ℕ) × (r.0 ≡ i + 1) × (listed i r.1.devs_list ≡ true) × Inv max_appls r.1)

module _ (drv : Driver) (dev : Device) (s : Core) (max_appls : ℕ) (v : Inv max_appls s)
    (held : 0 < dev.refs) where
  abbrev locked : Device
  locked = record dev { readable = false }

  -- The state that `bind_capi_device` leaves, with the device in slot `i`.
  abbrev bound : ℕ → Core
  bound i =
      let r = register_appls drv i s.appls (set s.table i (some locked)) in
      record s {
        table = update_slot i (lock_readable true) r.1;
        appls = r.0;
        nr_devs = s.nr_devs + 1;
        devs_list = s.devs_list ++ i ∷ [];
      }

  bound-Inv : (i : ℕ) → Placed s.table i (some locked) → Inv max_appls (bound i)
  bound-Inv i p =
      let t1 = set s.table i (some locked) in
      let here : refs_at t1 i ≡ dev.refs = ap slot_refs p.is in
      let g = register_appls-AllGrow drv i s.appls t1 (omega arith) in
      let t2 = (register_appls drv i s.appls t1).1 in
      let empty : refs_at s.table i ≡ 0 = ap slot_refs p.was in
      record {
        ids = g.ids 0 v.ids;
        id_bound = g.id_bound max_appls v.id_bound;
        counted = λ j. elim (Bool-cases (j == i)) [
          | inl same ↦
              let e : j ≡ i = (==_iff j i).0 same in
              let none_before : refs_at s.table j ≡ 0 = ap (refs_at s.table) e ∙ empty in
              let new : refs_at t1 j ≡ dev.refs = ap (refs_at t1) e ∙ here in
              rw (refs_at-lock true i j t2) (
                omega (
                  arith,
                  bit-le-one (listed j (s.devs_list ++ i ∷ [])),
                  v.counted j,
                  none_before,
                  new,
                  held,
                  g.gained j,
                ))
          | inr other ↦
              let ne : j ≢ i = ground arith in
              let old : refs_at t1 j ≡ refs_at s.table j = ap slot_refs (p.others j ne) in
              rw (refs_at-lock true i j t2, listed-append_ne j i s.devs_list ne)
                (omega (arith, v.counted j, old, g.gained j))
        ];
        readable = λ j h. elim (Bool-cases (j == i)) [
          | inl same ↦
              let e : j ≡ i = (==_iff j i).0 same in
              rw (e, slot_at-update_self i (lock_readable true) t2)
                (lock-readable (slot_at t2 i) (omega (arith, here, held, g.later.kept i)))
          | inr other ↦
              let ne : j ≢ i = ground arith in
              let before : listed j s.devs_list ≡ true =
                sym (listed-append_ne j i s.devs_list ne) ∙ h in
              ap slot_readable (slot_at-update_ne i j (lock_readable true) t2 (λ q. ne (sym q)))
              ∙ g.later.readable j
              ∙ ap slot_readable (p.others j ne)
              ∙ v.readable j before
        ];
        number = omega (arith, v.number, length-append_one i s.devs_list);
        once =
            append-Once i s.devs_list v.once
              (bit_zero (listed i s.devs_list) (omega (arith, v.counted i, empty)));
      }

  pub bind_capi_device-Bound : Bound max_appls s (bind_capi_device drv dev s)
  unfolding bind_capi_device
  bind_capi_device-Bound = elim (Option-cases (free_slot 0 s.table)) [
    | inl full ↦ rw (full, bind_capi_device) (inl refl)
    | inr (i, e) ↦
        let (m, at, p) = free_slot-Placed 0 i s.table (some locked) e in
        let at' : m ≡ i = omega arith in
        rw (e, bind_capi_device)
          (rw (add_capi_device-set locked i s.table e) (
            inr (
              i,
              refl,
              listed-append i i s.devs_list ∙ ground arith,
              bound-Inv i (subst (λ k. Placed s.table k (some locked)) at' p),
            )))
  ]
