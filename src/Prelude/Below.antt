-- ===== src/Prelude/Below.antt =====
-- Facts over small ranges and finite tables, checked by evaluation.
use Prim.Native.Nat.{ℕ, zero, suc, ◌<◌}
use mathlib.Core.Path.{◌≡◌, refl, sym, ap, ◌∙◌}
use mathlib.Core.Bool.{Bool, true, ◌&&◌, not}
use mathlib.Core.List.{List, [], ◌∷◌}
use mathlib.Core.Option.{some}
use native.Mathlib.Omega.{arith}
use capi4linux.Prelude.Tests.{◌==◌}
use capi4linux.Prelude.Lists.{get_elem?}

-- Every number below a bound passes a test.
unfoldable pub all_below : ℕ → (ℕ → Bool) → Bool
all_below zero test = true
all_below (suc top) test = test top && all_below top test

pub all_below_sound :
    (bound : ℕ) (test : ℕ → Bool) (k : ℕ) → all_below bound test ≡ true → k < bound → test k ≡ true
unfolding all_below
all_below_sound zero test k all inside = absurd (omega arith)
all_below_sound (suc top) test k all inside = ground (arith, all_below_sound top test k)

pub and_left : (a b : Bool) → (a && b) ≡ true → a ≡ true
and_left a b h = ground arith

pub and_right : (a b : Bool) → (a && b) ≡ true → b ≡ true
and_right a b h = ground arith

-- Every entry of a list passes a test.
unfoldable pub all_of {ℓ} : {A : Type ℓ} → (A → Bool) → List A → Bool
all_of p [] = true
all_of p (x ∷ xs) = p x && all_of p xs

pub all_of_sound {ℓ} :
    {A : Type ℓ} (p : A → Bool) (xs : List A) (i : ℕ) (x : A)
    → all_of p xs ≡ true
    → get_elem? xs i ≡ some x
    → p x ≡ true
unfolding all_of
all_of_sound p [] i x h e = cc
all_of_sound p (y ∷ xs) zero x h e = ground arith
all_of_sound p (y ∷ xs) (suc i) x h e = all_of_sound p xs i x (and_right (p y) _ h) e

-- The entries of a list have different numbers.
unfoldable pub distinct {ℓ} : {A : Type ℓ} → (A → ℕ) → List A → Bool
unfolding all_of
distinct f [] = true
distinct f (x ∷ xs) = all_of (λ y. not (f y == f x)) xs && distinct f xs

differ {ℓ} : {A : Type ℓ} (f : A → ℕ) (x y : A) → not (f y == f x) ≡ true → f x ≡ f y → ⊥
differ f x y h e = ground arith

pub distinct_sound {ℓ} :
    {A : Type ℓ} (f : A → ℕ) (xs : List A) (i j : ℕ) (x y : A)
    → distinct f xs ≡ true
    → get_elem? xs i ≡ some x
    → get_elem? xs j ≡ some y
    → f x ≡ f y
    → i ≡ j
unfolding distinct
distinct_sound f [] i j x y h e e' same = cc
distinct_sound f (z ∷ xs) zero zero x y h e e' same = refl
distinct_sound f (z ∷ xs) zero (suc j) x y h e e' same =
    let first : z ≡ x = cc in
    let test = all_of_sound (λ u. not (f u == f z)) xs j y (and_left _ _ h) e' in
    absurd (differ f z y test (ap f first ∙ same))
distinct_sound f (z ∷ xs) (suc i) zero x y h e e' same =
    let first : z ≡ y = cc in
    let test = all_of_sound (λ u. not (f u == f z)) xs i x (and_left _ _ h) e in
    absurd (differ f z x test (ap f first ∙ sym same))
distinct_sound f (z ∷ xs) (suc i) (suc j) x y h e e' same =
    ap suc (distinct_sound f xs i j x y (and_right _ _ h) e e' same)
