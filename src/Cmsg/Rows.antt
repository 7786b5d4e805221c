-- ===== src/Cmsg/Rows.antt =====
-- The rows of `cpars` of linux/drivers/isdn/capi/capiutil.c as layouts.
use capi4linux.Prelude.{
  ℕ, zero, suc, ◌≤◌, ◌≡◌, refl, Bool, true, false, not, ◌&&◌, none, some, List, [], ◌∷◌, ◌==◌,
  ==_iff, Option-cases, ap, leb, leb→le, inl, inr, length, lookup, and_left, and_right, arith,
  and_left, and_right,
}
use mathlib.Core.Bool.{false≢true}
use capi4linux.Cmsg.Table.{
  Typ, cbyte, cword, cdword, cstruct, cmstruct, cend, cdef_typ, cpars, cpars_rows,
}
use capi4linux.Cmsg.Layout.{
  Layout, done, item, group, flat, size, has, is_scalar, IsLayout, StartsWithItem,
}

-- A parameter string read as a tree.
unfoldable pub build : ℕ → List ℕ → Layout × List ℕ
build zero p = (done, p)
build (suc n) [] = (done, [])
build (suc n) (k ∷ p) = elim (cdef_typ k) [
  | none ↦ (done, p)
  | some cend ↦ (done, p)
  | some cmstruct ↦ let (g, q) = build n p in let (r, q') = build n q in (group k g r, q')
  | some t ↦ let (r, q) = build n p in (item t k r, q)
]

unfoldable pub layout : List ℕ → Layout
unfolding build cdef_typ
layout par = (build (length par) par).0

typ_number : Typ → ℕ
typ_number cbyte = 1
typ_number cword = 2
typ_number cdword = 3
typ_number cstruct = 4
typ_number cmstruct = 5
typ_number cend = 6

typ_number-injective : (t u : Typ) → typ_number t ≡ typ_number u → t ≡ u
unfolding typ_number
typ_number-injective t u = ground arith

has_typ : ℕ → Typ → Bool
has_typ k t = elim (cdef_typ k) [ none ↦ false | some u ↦ typ_number u == typ_number t ]

has_typ_sound : (k : ℕ) (t : Typ) → has_typ k t ≡ true → cdef_typ k ≡ some t
unfolding has_typ
has_typ_sound k t h = elim (Option-cases (cdef_typ k)) [
  | inl e ↦ absurd (false≢true (rw (e, has_typ) at h))
  | inr (u, e) ↦ rw e (ap some (typ_number-injective u t ((==_iff _ _).0 (rw (e, has_typ) at h))))
]

starts_with_item : Layout → Bool
starts_with_item (item t k r) = true
starts_with_item _ = false

apart : Layout → Layout → Bool
apart done r = true
apart (item t k g) r = not (has r k) && apart g r
apart (group k g h) r = not (has r k) && (apart g r && apart h r)

is_layout : Layout → Bool
is_layout done = true
is_layout (item t k r) = has_typ k t && (is_scalar t && (not (has r k) && is_layout r))
is_layout (group k g r) =
    has_typ k cmstruct
    && (starts_with_item g
        && (not (has g k) && (not (has r k) && (apart g r && (is_layout g && is_layout r)))))

starts_with_item_sound : (L : Layout) → starts_with_item L ≡ true → StartsWithItem L
unfolding starts_with_item
starts_with_item_sound done h = cc
starts_with_item_sound (item t k r) h = tt
starts_with_item_sound (group k g r) h = cc

apart_sound : (g r : Layout) (j : ℕ) → apart g r ≡ true → has g j ≡ true → has r j ≡ false
unfolding apart
apart_sound done r j h i = cc
apart_sound (item t k g) r j h i = ground (arith, apart_sound g r j, ==_iff j k)
apart_sound (group k g h) r j e i = ground (arith, apart_sound g r j, apart_sound h r j, ==_iff j k)

not-true : (a : Bool) → not a ≡ true → a ≡ false
not-true a h = ground arith

is_layout_sound : (L : Layout) → is_layout L ≡ true → IsLayout L
unfolding is_layout
is_layout_sound done h = tt
is_layout_sound (item t k r) h =
    let h1 = and_right (has_typ k t) _ h in
    let h2 = and_right (is_scalar t) _ h1 in
    (
      has_typ_sound k t (and_left (has_typ k t) _ h),
      and_left (is_scalar t) _ h1,
      not-true (has r k) (and_left (not (has r k)) _ h2),
      is_layout_sound r (and_right (not (has r k)) _ h2),
    )
is_layout_sound (group k g r) h =
    let h1 = and_right (has_typ k cmstruct) _ h in
    let h2 = and_right (starts_with_item g) _ h1 in
    let h3 = and_right (not (has g k)) _ h2 in
    let h4 = and_right (not (has r k)) _ h3 in
    let h5 = and_right (apart g r) _ h4 in
    (
      has_typ_sound k cmstruct (and_left (has_typ k cmstruct) _ h),
      starts_with_item_sound g (and_left (starts_with_item g) _ h1),
      not-true (has g k) (and_left (not (has g k)) _ h2),
      not-true (has r k) (and_left (not (has r k)) _ h3),
      λ j i. apart_sound g r j (and_left (apart g r) _ h4) i,
      is_layout_sound g (and_left (is_layout g) _ h5),
      is_layout_sound r (and_right (is_layout g) _ h5),
    )

same_string : List ℕ → List ℕ → Bool
same_string [] [] = true
same_string (a ∷ xs) (b ∷ ys) = (a == b) && same_string xs ys
same_string _ _ = false

same_string_sound : (xs ys : List ℕ) → same_string xs ys ≡ true → xs ≡ ys
unfolding same_string
same_string_sound [] [] h = refl
same_string_sound [] (b ∷ ys) h = cc
same_string_sound (a ∷ xs) [] h = cc
same_string_sound (a ∷ xs) (b ∷ ys) h = ground (arith, ==_iff a b, same_string_sound xs ys)

row_is_layout : List ℕ → Bool
row_is_layout par =
    same_string (flat (layout par) []) par
    && (is_layout (layout par) && leb (size (layout par)) (length par))

all_rows : List (ℕ × List ℕ) → Bool
all_rows [] = true
all_rows ((i, par) ∷ t) = row_is_layout par && all_rows t

all_rows_sound :
    (t : List (ℕ × List ℕ)) (i : ℕ) (par : List ℕ)
    → all_rows t ≡ true
    → lookup i t ≡ some par
    → row_is_layout par ≡ true
unfolding all_rows
all_rows_sound [] i par h e = cc
all_rows_sound ((j, q) ∷ t) i par h e = ground (arith, all_rows_sound t i par)

cpars_rows_checked : all_rows cpars_rows ≡ true
unfolding all_rows row_is_layout same_string layout is_layout has_typ typ_number starts_with_item
    apart cdef_typ
cpars_rows_checked = refl

-- What a parameter string of the table is worth to the conversions.
pub record IsRow (par : List ℕ) : Type 0 where
  pub string : flat (layout par) [] ≡ par
  pub ok : IsLayout (layout par)
  pub short : size (layout par) ≤ length par

pub cpars-IsRow : (i : ℕ) (par : List ℕ) → cpars i ≡ some par → IsRow par
unfolding cpars row_is_layout
cpars-IsRow i par e =
    let h = all_rows_sound cpars_rows i par cpars_rows_checked e in
    let h1 = and_right (same_string (flat (layout par) []) par) _ h in
    record {
      string = same_string_sound _ par (and_left (same_string (flat (layout par) []) par) _ h);
      ok = is_layout_sound _ (and_left (is_layout (layout par)) _ h1);
      short = leb→le _ _ (and_right (is_layout (layout par)) _ h1);
    }
