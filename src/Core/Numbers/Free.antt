-- ===== src/Core/Numbers/Free.antt =====
-- The numbers that `add_capi_appl` of linux/drivers/isdn/capi/core.c gives.
use capi4linux.Prelude.{
  ℕ, suc, ◌+◌, ◌%◌, ◌≤◌, ◌<◌, ◌≡◌, refl, inl, inr, Bool, true, false, ◌||◌, List, [], ◌∷◌, ◌==◌,
  ltb, Bool-cases, ltb→lt, arith, length, ap, ◌∙◌,
}
use capi4linux.Core.State.{Appl}
use capi4linux.Core.Numbers.{free_id, insert_at, add_capi_appl}

-- The list is in strictly ascending order of numbers above `lo`.
abbrev pub Ascends : ℕ → List Appl → Type 0
Ascends lo [] = Unit {0}
Ascends lo (a ∷ xs) = (lo < a.id) × Ascends a.id xs

abbrev pub AllUpTo : ℕ → List Appl → Type 0
AllUpTo hi [] = Unit {0}
AllUpTo hi (a ∷ xs) = (a.id ≤ hi) × AllUpTo hi xs

-- Whether a number is in use.
abbrev pub uses : ℕ → List Appl → Bool
uses j [] = false
uses j (a ∷ xs) = (a.id == j) || uses j xs

uses_above : (j lo : ℕ) (xs : List Appl) → Ascends lo xs → j ≤ lo → uses j xs ≡ false
uses_above j lo [] h le = refl
uses_above j lo (a ∷ xs) h le = ground (arith, uses_above j a.id xs h.1)

free_id-nil : (id : ℕ) → free_id id [] ≡ id
unfolding free_id
free_id-nil id = refl

insert_at-nil : (id : ℕ) (x : Appl) → insert_at id x [] ≡ x ∷ []
unfolding insert_at
insert_at-nil id x = refl

-- One round of each loop.
module _ (id : ℕ) (a : Appl) (xs : List Appl) where
  free_id-gap : ltb id a.id ≡ true → free_id id (a ∷ xs) ≡ id
  unfolding free_id
  free_id-gap h = rw h

  free_id-next : ltb id a.id ≡ false → free_id id (a ∷ xs) ≡ free_id ((id + 1) % 65536) xs
  unfolding free_id
  free_id-next h = rw h

  insert_at-gap : (x : Appl) → ltb id a.id ≡ true → insert_at id x (a ∷ xs) ≡ x ∷ a ∷ xs
  unfolding insert_at
  insert_at-gap x h = rw h

  insert_at-next :
      (x : Appl)
      → ltb id a.id ≡ false
      → insert_at id x (a ∷ xs) ≡ a ∷ insert_at ((id + 1) % 65536) x xs
  unfolding insert_at
  insert_at-next x h = rw h

-- `r` is the smallest number above `lo` that is not in use.
pub record IsFree (lo hi r : ℕ) (xs : List Appl) : Type 0 where
  pub above : lo < r
  pub bounded : r ≤ hi + 1
  pub unused : uses r xs ≡ false
  pub least : (j : ℕ) → lo < j → j < r → uses j xs ≡ true

module _ (hi : ℕ) (small : hi < 65535) where
  -- Where the element has the number `lo + 1`, the loop goes on as from `a.id`.
  module _ (lo : ℕ) (a : Appl) (h : lo < a.id) (le : a.id ≤ hi)
      (e : ltb (lo + 1) a.id ≡ false) where
    here : a.id ≡ lo + 1
    here = ground arith

    next : (lo + 1 + 1) % 65536 ≡ a.id + 1
    next = omega (arith, here)

  -- At `lo + 1` all numbers up to `lo` have been passed.
  pub free_id-IsFree :
      (lo : ℕ) (xs : List Appl)
      → Ascends lo xs
      → AllUpTo hi xs
      → lo ≤ hi
      → IsFree lo hi (free_id (lo + 1) xs) xs
  free_id-IsFree lo [] h u le = rw (free_id-nil (lo + 1)) record {
    above = omega arith;
    bounded = omega arith;
    unused = refl;
    least = λ j p q. absurd (omega arith);
  }
  free_id-IsFree lo (a ∷ xs) h u le = elim (Bool-cases (ltb (lo + 1) a.id)) [
    | inl gap ↦ rw (free_id-gap (lo + 1) a xs gap) record {
      above = omega arith;
      bounded = omega arith;
      unused = ground (arith, uses_above (lo + 1) a.id xs h.1);
      least = λ j p q. absurd (omega arith);
    }
    | inr stays ↦
        let e = here lo a h.0 u.0 stays in
        let f = free_id-IsFree a.id xs h.1 u.1 u.0 in
        rw (free_id-next (lo + 1) a xs stays, next lo a h.0 u.0 stays)
          record {
            above = omega (arith, f.above);
            bounded = f.bounded;
            unused = ground (arith, f.above, f.unused);
            least = λ j p q. ground (arith, f.least j);
          }
  ]

  insert_at-Ascends :
      (lo : ℕ) (x : Appl) (xs : List Appl)
      → Ascends lo xs
      → AllUpTo hi xs
      → x.id ≡ free_id (lo + 1) xs
      → Ascends lo (insert_at (lo + 1) x xs)
  insert_at-Ascends lo x [] h u e =
      rw (insert_at-nil (lo + 1) x) (omega (arith, free_id-nil (lo + 1)), tt)
  insert_at-Ascends lo x (a ∷ xs) h u e = elim (Bool-cases (ltb (lo + 1) a.id)) [
    | inl gap ↦
        let at = e ∙ free_id-gap (lo + 1) a xs gap in
        rw (insert_at-gap (lo + 1) a xs x gap) (omega arith, (ground arith, h.1))
    | inr stays ↦
        let e' = next lo a h.0 u.0 stays in
        rw (insert_at-next (lo + 1) a xs x stays, e')
          (
            h.0,
            insert_at-Ascends a.id x xs h.1 u.1
                (e ∙ free_id-next (lo + 1) a xs stays ∙ ap (λ i. free_id i xs) e'),
          )
  ]

-- The list gains the new element and no other.
insert_at-AllUpTo :
    (hi id : ℕ) (x : Appl) (xs : List Appl)
    → x.id ≤ hi
    → AllUpTo hi xs
    → AllUpTo hi (insert_at id x xs)
unfolding insert_at
insert_at-AllUpTo hi id x [] le u = (le, tt)
insert_at-AllUpTo hi id x (a ∷ xs) le u =
    ground (arith, insert_at-AllUpTo hi ((id + 1) % 65536) x xs)

uses-insert_at :
    (j id : ℕ) (x : Appl) (xs : List Appl) → uses j (insert_at id x xs) ≡ ((x.id == j) || uses j xs)
unfolding insert_at
uses-insert_at j id x [] = refl
uses-insert_at j id x (a ∷ xs) = ground (arith, uses-insert_at j ((id + 1) % 65536) x xs)

pub length-insert_at :
    (id : ℕ) (x : Appl) (xs : List Appl) → length (insert_at id x xs) ≡ suc (length xs)
unfolding insert_at
length-insert_at id x [] = refl
length-insert_at id x (a ∷ xs) = ground (arith, length-insert_at ((id + 1) % 65536) x xs)

-- What a registration of a number means: the outcome `r` over the list `xs`.
pub data Numbered (max_appls : ℕ) (xs : List Appl) (r : ℕ × List Appl) : Type 0 where
  refused :
      r ≡ (0, xs) → ((j : ℕ) → 0 < j → j ≤ max_appls → uses j xs ≡ true) → Numbered max_appls xs r
  numbered :
      IsFree 0 max_appls r.0 xs
      → r.0 ≤ max_appls
      → Ascends 0 r.1
      → AllUpTo max_appls r.1
      → ((j : ℕ) → uses j r.1 ≡ ((r.0 == j) || uses j xs))
      → Numbered max_appls xs r

-- With fewer than 65535 numbers and an ascending list, an application gets the smallest number
-- not in use and the list stays ascending and within the limit; it is refused, with nothing
-- changed, only when all numbers are in use.
pub add_capi_appl-Numbered :
    (max_appls : ℕ) (x : Appl) (xs : List Appl)
    → max_appls < 65535
    → Ascends 0 xs
    → AllUpTo max_appls xs
    → Numbered max_appls xs (add_capi_appl max_appls x xs)
unfolding add_capi_appl
add_capi_appl-Numbered max_appls x xs small h u =
    let f = free_id-IsFree max_appls small 0 xs h u (omega arith) in
    let y = record x { id = free_id 1 xs } in
    elim (Bool-cases (ltb max_appls (free_id 1 xs))) [
      | inl full ↦ rw full (refused refl (λ j p q. f.least j p (omega (arith, ltb→lt _ _ full))))
      | inr room ↦
          let le : free_id 1 xs ≤ max_appls = ground arith in
          rw room (
            numbered f le (insert_at-Ascends max_appls small 0 y xs h u refl)
              (insert_at-AllUpTo max_appls 1 y xs le u) (λ j. uses-insert_at j 1 y xs))
    ]

-- The numbers `lo + 1`, `lo + 2` and so on, with no gap.
abbrev pub Consecutive : ℕ → List Appl → Type 0
Consecutive lo [] = Unit {0}
Consecutive lo (a ∷ xs) = (a.id ≡ suc lo) × Consecutive (suc lo) xs

free_id-Consecutive :
    (lo : ℕ) (xs : List Appl)
    → Consecutive lo xs
    → lo + length xs ≡ 65535
    → free_id ((lo + 1) % 65536) xs ≡ 0
free_id-Consecutive lo [] h e = free_id-nil _ ∙ omega arith
free_id-Consecutive lo (a ∷ xs) h e =
    let here : (lo + 1) % 65536 ≡ a.id = omega arith in
    let test : ltb ((lo + 1) % 65536) a.id ≡ false = ground arith in
    let step : ((lo + 1) % 65536 + 1) % 65536 ≡ (suc lo + 1) % 65536 = omega arith in
    free_id-next ((lo + 1) % 65536) a xs test
    ∙ ap (λ i. free_id i xs) step
    ∙ free_id-Consecutive (suc lo) xs h.1 (omega arith)

-- With the limit 65535 and all numbers in use, the 16-bit counter wraps to 0: failure is
-- answered, and the application is on the list with the number 0.
pub add_capi_appl-wraps :
    (x : Appl) (xs : List Appl)
    → Consecutive 0 xs
    → length xs ≡ 65535
    → (add_capi_appl 65535 x xs ≡ (0, insert_at 1 (record x { id = 0 }) xs))
      × (length (add_capi_appl 65535 x xs).1 ≡ 65536)
unfolding add_capi_appl
add_capi_appl-wraps x xs h e =
    let zero_id : free_id 1 xs ≡ 0 = free_id-Consecutive 0 xs h (omega arith) in
    rw zero_id (refl, omega (arith, length-insert_at 1 (record x { id = 0 }) xs))
