-- ===== src/Cmsg/Layout.antt =====
-- The rows of `cpars` read as trees: what the parameter strings of
-- linux/drivers/isdn/capi/capiutil.c stand for. A composed structure is a group; its members end
-- at the next end mark.
use capi4linux.Prelude.{
  ℕ, suc, ◌+◌, ◌≤◌, ◌≡◌, refl, ◌∙◌, Bool, true, false, ◌||◌, some, List, ◌∷◌, ◌==◌, arith,
}
use capi4linux.Cmsg.Table.{Typ, cbyte, cword, cdword, cstruct, cmstruct, cend, cdef_typ}
use capi4linux.Cmsg.Encode.{jump_loop, jumpcstruct}

pub data Layout : Type 0 where
  done : Layout
  item : Typ → ℕ → Layout → Layout
  group : ℕ → Layout → Layout → Layout

-- The parameter string, with what follows it.
abbrev pub flat : Layout → List ℕ → List ℕ
flat done rest = 0x01 ∷ rest
flat (item t k r) rest = k ∷ flat r rest
flat (group k g r) rest = k ∷ flat g (flat r rest)

abbrev pub size : Layout → ℕ
size done = 1
size (item t k r) = suc (size r)
size (group k g r) = suc (size g + size r)

abbrev pub is_scalar : Typ → Bool
is_scalar cmstruct = false
is_scalar cend = false
is_scalar _ = true

abbrev pub IsScalar : Typ → Type 0
IsScalar t = is_scalar t ≡ true

abbrev pub StartsWithItem : Layout → Type 0
StartsWithItem (item t k r) = Unit {0}
StartsWithItem _ = ⊥

-- Whether a parameter stands in the layout.
abbrev pub has : Layout → ℕ → Bool
has done j = false
has (item t k r) j = (j == k) || has r j
has (group k g r) j = (j == k) || (has g j || has r j)

abbrev pub Apart : Layout → Layout → Type 0
Apart g r = (j : ℕ) → has g j ≡ true → has r j ≡ false

-- The tree agrees with `cdef`, a group begins with a plain parameter, which `jumpcstruct` steps
-- over unread, and no parameter stands twice.
abbrev pub IsLayout : Layout → Type 0
IsLayout done = Unit {0}
IsLayout (item t k r) = (cdef_typ k ≡ some t) × IsScalar t × (has r k ≡ false) × IsLayout r
IsLayout (group k g r) =
    (cdef_typ k ≡ some cmstruct)
    × StartsWithItem g
    × (has g k ≡ false)
    × (has r k ≡ false)
    × Apart g r
    × IsLayout g
    × IsLayout r

pub size-pos : (L : Layout) → 1 ≤ size L
size-pos done = omega arith
size-pos (item t k r) = omega arith
size-pos (group k g r) = omega arith

module _ (x layer k : ℕ) (p : List ℕ) where
  jump_loop-item :
      (t : Typ)
      → cdef_typ k ≡ some t
      → IsScalar t
      → jump_loop (suc layer) (x ∷ k ∷ p) ≡ jump_loop (suc layer) (k ∷ p)
  unfolding jump_loop
  jump_loop-item cbyte e sc = rw (e, jump_loop)
  jump_loop-item cword e sc = rw (e, jump_loop)
  jump_loop-item cdword e sc = rw (e, jump_loop)
  jump_loop-item cstruct e sc = rw (e, jump_loop)
  jump_loop-item cmstruct e sc = cc
  jump_loop-item cend e sc = cc

  jump_loop-group :
      cdef_typ k ≡ some cmstruct
      → jump_loop (suc layer) (x ∷ k ∷ p) ≡ jump_loop (suc (suc layer)) (k ∷ p)
  unfolding jump_loop
  jump_loop-group e = rw (e, jump_loop)

-- The loop of `jumpcstruct` leaves the level at the end mark of its group.
jump_loop-flat :
    (L : Layout) (layer x : ℕ) (rest : List ℕ)
    → IsLayout L
    → jump_loop (suc layer) (x ∷ flat L rest) ≡ jump_loop layer (0x01 ∷ rest)
unfolding jump_loop cdef_typ
jump_loop-flat done layer x rest ok = refl
jump_loop-flat (item t k r) layer x rest (e, sc, _, ok) =
    jump_loop-item x layer k (flat r rest) t e sc ∙ jump_loop-flat r layer k rest ok
jump_loop-flat (group k g r) layer x rest (e, _, _, _, _, og, ok) =
    jump_loop-group x layer k (flat g (flat r rest)) e
    ∙ jump_loop-flat g (suc layer) k (flat r rest) og
    ∙ jump_loop-flat r layer 0x01 rest ok

-- `jumpcstruct` at a composed parameter stops at the end mark of its members.
pub jumpcstruct-flat :
    (g : Layout) (k : ℕ) (rest : List ℕ)
    → StartsWithItem g
    → IsLayout g
    → jumpcstruct (k ∷ flat g rest) ≡ some (0x01 ∷ rest)
unfolding jumpcstruct
jumpcstruct-flat done k rest s ok = elim s [ ]
jumpcstruct-flat (item t j r) k rest s (_, _, _, ok) = jump_loop-flat r 0 j rest ok
jumpcstruct-flat (group j g r) k rest s ok = elim s [ ]
