-- ===== src/Core/Registry/Release.antt =====
-- `capi_release` of linux/drivers/isdn/capi/core.c and the references of the application.
mod Loop
use capi4linux.Prelude.{
  ℕ, zero, suc, ◌+◌, ◌<◌, ◌≤◌, ◌≡◌, refl, ◌∙◌, ap, inl, inr, ◌&&◌, Option, none, some, List, [],
  ◌∷◌, ◌==◌, if◌then◌else◌, length, arith, Bool-cases,
}
use capi4linux.Core.State.{Appl, Device, Core}
use capi4linux.Core.Numbers.Free.{Ascends, AllUpTo}
use capi4linux.Core.Registry.{Table, listed, FindNextBit, remove_appl, capi_release}
use capi4linux.Core.Registry.Invariant.{Inv, Once, bit, holders}
use capi4linux.Core.Registry.Grows.{refs_at}
use capi4linux.Core.Registry.Release.Loop.{Released, BitsPresent, release_loop-Released}

-- The first application of the list with a number.
abbrev pub find_appl : ℕ → List Appl → Option Appl
find_appl id [] = none
find_appl id (a ∷ xs) = if a.id == id then some a else find_appl id xs

pub holders-remove_appl :
    (j : ℕ) (a : Appl) (xs : List Appl)
    → find_appl a.id xs ≡ some a
    → holders j (remove_appl a.id xs) + bit (a.devs j) ≡ holders j xs
unfolding remove_appl
holders-remove_appl j a [] e = cc
holders-remove_appl j a (b ∷ xs) e = elim (Bool-cases (b.id == a.id)) [
  | inl same ↦
      let it : some b ≡ some a = (rw same at e) in
      let it' : b ≡ a = cc in rw (same, it') (omega arith)
  | inr other ↦
      let rest : find_appl a.id xs ≡ some a = (rw other at e) in
      rw other (omega (arith, holders-remove_appl j a xs rest))
]

Ascends-lower : (lo lo' : ℕ) (xs : List Appl) → lo ≤ lo' → Ascends lo' xs → Ascends lo xs
Ascends-lower lo lo' [] le h = tt
Ascends-lower lo lo' (a ∷ xs) le h = (omega (arith, h.0), h.1)

remove_appl-Ascends : (id lo : ℕ) (xs : List Appl) → Ascends lo xs → Ascends lo (remove_appl id xs)
unfolding remove_appl
remove_appl-Ascends id lo [] h = tt
remove_appl-Ascends id lo (a ∷ xs) h = elim (Bool-cases (a.id == id)) [
  | inl same ↦ rw same (Ascends-lower lo a.id xs (omega (arith, h.0)) h.1)
  | inr other ↦ rw other (h.0, remove_appl-Ascends id a.id xs h.1)
]

remove_appl-AllUpTo : (id hi : ℕ) (xs : List Appl) → AllUpTo hi xs → AllUpTo hi (remove_appl id xs)
unfolding remove_appl
remove_appl-AllUpTo id hi [] h = tt
remove_appl-AllUpTo id hi (a ∷ xs) h = elim (Bool-cases (a.id == id)) [
  | inl same ↦ rw same h.1
  | inr other ↦ rw other (h.0, remove_appl-AllUpTo id hi xs h.1)
]

pub refs_at-outside : (t : Table) (j : ℕ) → 0 < refs_at t j → j < length t
refs_at-outside [] j h = absurd (omega arith)
refs_at-outside (s ∷ t) zero h = omega arith
refs_at-outside (s ∷ t) (suc j) h = omega (arith, refs_at-outside t j h)

-- The outcome of a release.
pub record GaveBack (a : Appl) (max_appls : ℕ) (s : Core) (called : List ℕ) (info : ℕ) (s' : Core)
    : Type 0 where
  pub invariant : Inv max_appls s'
  pub error : info ≡ a.info
  pub drops : (j : ℕ) → refs_at s'.table j + bit (a.devs j) ≡ refs_at s.table j
  pub calls : (j : ℕ) → listed j called ≡ (a.devs j && listed j s.devs_list)
  pub once : Once called
  pub gone : s'.appls ≡ remove_appl a.id s.appls

module _ (fnb : FindNextBit) (max_appls : ℕ) (a : Appl) (s : Core) (v : Inv max_appls s)
    (found : find_appl a.id s.appls ≡ some a) where
  appl-BitsPresent : BitsPresent a.devs (length s.table) 0 s.table
  appl-BitsPresent j ij on =
      let present : 0 < refs_at s.table j =
        omega (arith, v.counted j, holders-remove_appl j a s.appls found, ap bit on) in
      (refs_at-outside s.table j present, present)

  Released-GaveBack :
      (called : List ℕ) (t : Table)
      → Released a.devs s.devs_list 0 s.table called t
      → GaveBack a max_appls s called a.info
          (record s { table = t; appls = remove_appl a.id s.appls })
  Released-GaveBack called t r = record {
    invariant = record {
      ids = remove_appl-Ascends a.id 0 s.appls v.ids;
      id_bound = remove_appl-AllUpTo a.id max_appls s.appls v.id_bound;
      counted = λ j.
          omega
            (arith, v.counted j, holders-remove_appl j a s.appls found, r.drops j (omega arith));
      readable = λ j h.
          r.readable j (
            omega (
              arith,
              v.counted j,
              holders-remove_appl j a s.appls found,
              r.drops j (omega arith),
              ap bit h,
            ))
          ∙ v.readable j h;
      number = v.number;
      once = v.once;
    };
    error = refl;
    drops = λ j. r.drops j (omega arith);
    calls = λ j. r.calls j (omega arith);
    once = r.once;
    gone = refl;
  }

  -- Under the registry invariant and the laws of find_next_bit, capi_release of a listed
  -- application ends without BUG_ON, drops exactly one reference per set bit, calls each listed
  -- driver with a set bit once, takes the application off the list and keeps the invariant.
  pub capi_release-GaveBack :
      (called : List ℕ) × (info : ℕ) × (s' : Core) × (capi_release fnb a s
        ≡ some (called, info, s'))
      × GaveBack a max_appls s called info s'
  unfolding capi_release
  capi_release-GaveBack =
      let (called, t, e, r) =
        release_loop-Released fnb (length s.table) a.devs s.devs_list (suc (length s.table)) s.table
          0 (omega arith) (omega arith) appl-BitsPresent in
      (
        called,
        a.info,
        record s { table = t; appls = remove_appl a.id s.appls },
        rw (e, capi_release) refl,
        Released-GaveBack called t r,
      )
