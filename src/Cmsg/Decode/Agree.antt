-- ===== src/Cmsg/Decode/Agree.antt =====
-- When two `_cmsg` structures carry the same parameters, and what a decoder leaves alone.
use capi4linux.Prelude.{ℕ, ◌≡◌, ◌∙◌, true, false, arith}
use capi4linux.Cmsg.Table.{Typ, cbyte, cword, cdword, cstruct, cmstruct, cend}
use capi4linux.Cmsg.Struct.{Cmsg, CmStruct, capi_compose, capi_default}
use capi4linux.Cmsg.Layout.{Layout, done, item, group, has}
use capi4linux.Cmsg.Wire.{struct_wire}

-- One field. Structures agree when they have the same encoding.
abbrev pub AgreeAt : Cmsg → Cmsg → Typ → ℕ → Type 0
AgreeAt c d cstruct k = struct_wire (d.structs k) ≡ struct_wire (c.structs k)
AgreeAt c d cmstruct k = d.modes k ≡ c.modes k
AgreeAt c d cend k = Unit
AgreeAt c d _ k = d.nums k ≡ c.nums k

abbrev pub IfComposed : CmStruct → Type 0 → Type 0
IfComposed capi_default P = Unit {0}
IfComposed capi_compose P = P

-- All fields of a layout; the members of a composed structure count if it is composed.
abbrev pub Agree : Cmsg → Cmsg → Layout → Type 0
Agree c d done = Unit {0}
Agree c d (item t k r) = AgreeAt c d t k × Agree c d r
Agree c d (group k g r) =
    (d.modes k ≡ c.modes k) × IfComposed (c.modes k) (Agree c d g) × Agree c d r

pub record SameAt (d d' : Cmsg) (j : ℕ) : Type 0 where
  pub nums : d'.nums j ≡ d.nums j
  pub structs : d'.structs j ≡ d.structs j
  pub modes : d'.modes j ≡ d.modes j

-- The fields that the layout does not name, and the header's command, are as before.
pub record SameOutside (L : Layout) (d d' : Cmsg) : Type 0 where
  pub same : (j : ℕ) → has L j ≡ false → SameAt d d' j
  pub command : d'.command ≡ d.command
  pub subcommand : d'.subcommand ≡ d.subcommand

pub SameAt-trans : {d d' d'' : Cmsg} {j : ℕ} → SameAt d d' j → SameAt d' d'' j → SameAt d d'' j
SameAt-trans s t = record {
  nums = t.nums ∙ s.nums;
  structs = t.structs ∙ s.structs;
  modes = t.modes ∙ s.modes;
}

pub AgreeAt-same :
    (c d d' : Cmsg) (t : Typ) (k : ℕ) → SameAt d d' k → AgreeAt c d t k → AgreeAt c d' t k
AgreeAt-same c d d' cbyte k s a = s.nums ∙ a
AgreeAt-same c d d' cword k s a = s.nums ∙ a
AgreeAt-same c d d' cdword k s a = s.nums ∙ a
AgreeAt-same c d d' cstruct k s a = rw s.structs a
AgreeAt-same c d d' cmstruct k s a = s.modes ∙ a
AgreeAt-same c d d' cend k s a = tt

IfComposed-map : {P Q : Type 0} (x : CmStruct) → (P → Q) → IfComposed x P → IfComposed x Q
IfComposed-map capi_default f a = tt
IfComposed-map capi_compose f a = f a

-- Agreement outlasts changes to other fields.
pub Agree-same :
    (c d d' : Cmsg) (L : Layout)
    → ((j : ℕ) → has L j ≡ true → SameAt d d' j)
    → Agree c d L
    → Agree c d' L
Agree-same c d d' done s a = tt
Agree-same c d d' (item t k r) s a = (
  AgreeAt-same c d d' t k (s k (ground arith)) a.0,
  Agree-same c d d' r (λ j h. s j (ground arith)) a.1,
)
Agree-same c d d' (group k g r) s (mode, inner, rest) = (
  (s k (ground arith)).modes ∙ mode,
  IfComposed-map (c.modes k) (Agree-same c d d' g (λ j h. s j (ground arith))) inner,
  Agree-same c d d' r (λ j h. s j (ground arith)) rest,
)
