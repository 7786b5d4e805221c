-- ===== src/Core/Registry/Put.antt =====
-- Dropping references to devices.
use capi4linux.Prelude.{
  ℕ, ◌+◌, ◌-◌, ◌<◌, ◌≡◌, ◌≢◌, refl, ap, sym, ◌∙◌, inl, inr, Option, none, some, ◌==◌, arith,
  Bool-cases, ==_iff,
}
use capi4linux.Core.State.{Device, Core}
use capi4linux.Core.Registry.{Table, slot_at, listed, update_slot, capi_device_put, driver_put}
use capi4linux.Core.Registry.Invariant.{
  Inv, bit, holders, slot_refs, slot_readable, on_slot, slot_at-update_self, slot_at-update_ne,
}
use capi4linux.Core.Registry.Grows.{refs_at}

put-refs : (s : Option Device) → slot_refs (on_slot capi_device_put s) ≡ slot_refs s - 1
put-refs none = omega arith
put-refs (some d) = ground arith

put-readable :
    (s : Option Device)
    → 1 < slot_refs s
    → slot_readable (on_slot capi_device_put s) ≡ slot_readable s
put-readable none h = refl
put-readable (some d) h = ground arith

module _ (i : ℕ) (t : Table) (j : ℕ) where
  pub refs_at-put : refs_at (update_slot i capi_device_put t) j ≡ refs_at t j - bit (j == i)
  refs_at-put = elim (Bool-cases (j == i)) [
    | inl same ↦
        let e : j ≡ i = (==_iff j i).0 same in
        rw (same, e, slot_at-update_self i capi_device_put t) (put-refs (slot_at t i))
    | inr other ↦
        let ne : i ≢ j = ground arith in
        rw (other, slot_at-update_ne i j capi_device_put t ne) (omega arith)
  ]

  -- A device that stays keeps its lock.
  pub readable-put :
      bit (j == i) < refs_at t j
      → slot_readable (slot_at (update_slot i capi_device_put t) j) ≡ slot_readable (slot_at t j)
  readable-put h = elim (Bool-cases (j == i)) [
    | inl same ↦
        let e : j ≡ i = (==_iff j i).0 same in
        let two : bit (j == i) ≡ 1 = ap bit same in
        let at : refs_at t j ≡ refs_at t i = ap (refs_at t) e in
        let h' : 1 < refs_at t i = omega (arith, h, two, at) in
        rw (e, slot_at-update_self i capi_device_put t) (put-readable (slot_at t i) h')
    | inr other ↦
        let ne : i ≢ j = ground arith in
        ap slot_readable (slot_at-update_ne i j capi_device_put t ne)
  ]

-- A driver that drops a reference which no application and no listing counts keeps the invariant.
pub driver_put-Inv :
    (max_appls : ℕ) (s : Core) (i : ℕ)
    → Inv max_appls s
    → holders i s.appls + bit (listed i s.devs_list) < refs_at s.table i
    → Inv max_appls (driver_put i s)
unfolding driver_put
driver_put-Inv max_appls s i v spare = record {
  ids = v.ids;
  id_bound = v.id_bound;
  counted = λ j. elim (Bool-cases (j == i)) [
    | inl same ↦
        let e : j ≡ i = (==_iff j i).0 same in
        rw (refs_at-put i s.table j, same, e) (omega (arith, spare))
    | inr other ↦ rw (refs_at-put i s.table j, other) (omega (arith, v.counted j))
  ];
  readable = λ j h.
      let on : bit (listed j s.devs_list) ≡ 1 = ap bit h in
      let many : bit (j == i) < refs_at s.table j = elim (Bool-cases (j == i)) [
        | inl same ↦
            let e : j ≡ i = (==_iff j i).0 same in
            let here : bit (listed i s.devs_list) ≡ 1 =
              ap (λ x. bit (listed x s.devs_list)) (sym e) ∙ on in
            let at : refs_at s.table j ≡ refs_at s.table i = ap (refs_at s.table) e in
            rw same (omega (arith, spare, here, at))
        | inr other ↦ rw other (omega (arith, v.counted j, on))
      ] in
      readable-put i s.table j many ∙ v.readable j h;
  number = v.number;
  once = v.once;
}
