-- ===== src/Cmsg/Names/Match.antt =====
-- The tables of names of linux/drivers/isdn/capi/capiutil.c beside the tables of parameters and the
-- error codes of linux/include/linux/isdn/capinfo.h.
use capi4linux.Prelude.{
  ℕ, ◌≡◌, refl, ◌↔◌, ◌&&◌, Bool, true, false, none, some, List, [], ◌∷◌, lookup, ◌==◌, ==_iff,
  Bool-cases, inl, inr, all_of, all_of_sound, get_elem?,
}
use Prim.Native.String.{String}
use capi4linux.Cmsg.Table.{cpars, cpars_rows, command_2_index}
use capi4linux.Prelude.{and_left, and_right, Option-cases, none-ne-some, ◌⊎◌, suc}
use mathlib.Core.Path.{ap₂}
use mathlib.Core.Bool.{false≢true}
use capi4linux.Cmsg.Names.{mnames, capi_cmd2str, name, info_rows, capi_info2str}

module _ {A B : Type 0} where
  -- The same keys in the same order.
  same_keys : List (ℕ × A) → List (ℕ × B) → Bool
  same_keys [] [] = true
  same_keys ((i, a) ∷ s) ((j, b) ∷ t) = (i == j) && same_keys s t
  same_keys _ _ = false

  lookup-same_keys :
      (i : ℕ) (s : List (ℕ × A)) (t : List (ℕ × B))
      → same_keys s t ≡ true
      → (lookup i s ≡ none) ↔ (lookup i t ≡ none)
  unfolding same_keys
  lookup-same_keys i [] [] h = (λ _. refl, λ _. refl)
  lookup-same_keys i [] (y ∷ t) h = cc
  lookup-same_keys i (x ∷ s) [] h = cc
  lookup-same_keys i ((j, a) ∷ s) ((k, b) ∷ t) h =
      let e : j ≡ k = (==_iff j k).0 (and_left (j == k) _ h) in
      elim (Bool-cases (k == i)) [
        | inl same ↦ rw (e, same) (λ q. cc, λ q. cc)
        | inr other ↦ rw (e, other) (lookup-same_keys i s t (and_right (j == k) _ h))
      ]

same_messages : same_keys mnames cpars_rows ≡ true
unfolding same_keys
same_messages = refl

-- A message has a name exactly when it has a parameter string.
pub capi_cmd2str-cpars :
    (cmd subcmd : ℕ)
    → (capi_cmd2str cmd subcmd ≡ none) ↔ (cpars (command_2_index cmd subcmd) ≡ none)
unfolding capi_cmd2str cpars
capi_cmd2str-cpars cmd subcmd =
    lookup-same_keys (command_2_index cmd subcmd) mnames cpars_rows same_messages

has_name : ℕ → Bool
has_name k = elim (name k) [ none ↦ k == 1 | some t ↦ true ]

named_row : ℕ × List ℕ → Bool
named_row (i, par) = all_of has_name par

rows_named : all_of named_row cpars_rows ≡ true
unfolding named_row has_name name all_of
rows_named = refl

lookup-elem :
    {A : Type 0} (i : ℕ) (t : List (ℕ × A)) (v : A)
    → lookup i t ≡ some v
    → (n : ℕ) × (get_elem? t n ≡ some (i, v))
lookup-elem i [] v h = absurd (none-ne-some h)
lookup-elem i ((j, w) ∷ t) v h = elim (Bool-cases (j == i)) [
  | inl same ↦
      let e : j ≡ i = (==_iff j i).0 same in
      let it : some w ≡ some v = (rw same at h) in
      let it' : w ≡ v = cc in (0, ap₂ (λ a b. some (a, b)) e it')
  | inr other ↦ let (n, at) = lookup-elem i t v (rw other at h) in (suc n, at)
]

name_of : (k : ℕ) → has_name k ≡ true → (k ≡ 1) ⊎ ((t : String) × (name k ≡ some t))
unfolding has_name name
name_of k h = elim (Option-cases (name k)) [
  | inl nothing ↦ inl ((==_iff k 1).0 (rw nothing at h))
  | inr found ↦ inr found
]

-- Every parameter of a parameter string but the end mark has a name.
cpars-name :
    (i n k : ℕ) (par : List ℕ)
    → cpars i ≡ some par
    → get_elem? par n ≡ some k
    → (k ≡ 1) ⊎ ((t : String) × (name k ≡ some t))
unfolding cpars named_row
cpars-name i n k par row at =
    let (m, e) = lookup-elem i cpars_rows par row in
    let named = all_of_sound named_row cpars_rows m (i, par) rows_named e in
    name_of k (all_of_sound has_name par n k named at)

-- The error codes of linux/include/linux/isdn/capinfo.h.
abbrev pub capinfo : List ℕ
capinfo =
    0x1001 ∷ 0x1002 ∷ 0x1003 ∷ 0x1004 ∷ 0x1005 ∷ 0x1006 ∷ 0x1007 ∷ 0x1008 ∷ 0x1009 ∷ 0x100a ∷ 0x100b
    ∷ 0x1101 ∷ 0x1102 ∷ 0x1103 ∷ 0x1104 ∷ 0x1105 ∷ 0x1106 ∷ 0x1107 ∷ 0x1108 ∷ 0x1109 ∷ 0x110a
    ∷ 0x110b ∷ []

has_text : ℕ → Bool
has_text c = elim (lookup c info_rows) [ none ↦ false | some t ↦ true ]

capinfo_texts : all_of has_text capinfo ≡ true
unfolding has_text all_of
capinfo_texts = refl

text_of :
    (c : ℕ)
    → has_text c ≡ true
    → (t : String) × (lookup c info_rows ≡ some t) × (capi_info2str c ≡ t)
unfolding has_text capi_info2str
text_of c h = elim (Option-cases (lookup c info_rows)) [
  | inl nothing ↦ absurd (false≢true (rw (nothing, has_text) at h))
  | inr (t, e) ↦ (t, e, (rw (e, capi_info2str) refl))
]

-- Every error code of capinfo.h has a case of its own in capi_info2str, which returns the text of
-- that case.
capi_info2str-capinfo :
    (i c : ℕ)
    → get_elem? capinfo i ≡ some c
    → (t : String) × (lookup c info_rows ≡ some t) × (capi_info2str c ≡ t)
capi_info2str-capinfo i c at = text_of c (all_of_sound has_text capinfo i c capinfo_texts at)
