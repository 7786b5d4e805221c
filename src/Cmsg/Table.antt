-- ===== src/Cmsg/Table.antt =====
-- The parameter tables of linux/drivers/isdn/capi/capiutil.c: `cdef`, `cpars` and
-- `command_2_index`. A parameter's number is also the position of its field in `_cmsg`, and stands
-- here for the field's offset.
use capi4linux.Prelude.{
  ℕ, ◌+◌, ◌*◌, Option, some, List, [], ◌∷◌, bit_and, ltb, leb, ◌==◌, if◌then◌else◌, get_elem?,
  lookup,
}

pub data Typ : Type 0 where
  cbyte cword cdword cstruct cmstruct cend : Typ

-- `cdef[]`, the `typ` member.
abbrev pub cdef : List Typ
cdef =
    cend ∷ cend ∷ cend ∷ cdword ∷ cmstruct ∷ cstruct ∷ cword ∷ cstruct ∷ cword ∷ cstruct ∷ cword
    ∷ cstruct ∷ cstruct ∷ cmstruct ∷ cstruct ∷ cstruct ∷ cstruct ∷ cstruct ∷ cdword ∷ cdword ∷ cword
    ∷ cdword ∷ cstruct ∷ cstruct ∷ cdword ∷ cword ∷ cword ∷ cstruct ∷ cstruct ∷ cstruct ∷ cstruct
    ∷ cword ∷ cword ∷ cdword ∷ cstruct ∷ cword ∷ cstruct ∷ cdword ∷ cword ∷ cstruct ∷ cstruct
    ∷ cstruct ∷ cdword ∷ cstruct ∷ cword ∷ cword ∷ cword ∷ cstruct ∷ []

-- `cdef[k].typ`; `none` is a read outside the table.
unfoldable pub cdef_typ : ℕ → Option Typ
cdef_typ k = get_elem? cdef k

-- The macro `TYP`. A parameter string ends with a zero byte, which is `cdef[0]`.
unfoldable pub typ : List ℕ → Option Typ
typ [] = some cend
typ (k ∷ p) = cdef_typ k

-- `cpars[]`: the rows that are not NULL.
abbrev pub cpars_rows : List (ℕ × List ℕ)
cpars_rows =
    (0x01, 0x03 ∷ 0x04 ∷ 0x0c ∷ 0x27 ∷ 0x2f ∷ 0x1c ∷ 0x01 ∷ 0x01 ∷ [])
    ∷ (
      0x02,
      0x03 ∷ 0x14 ∷ 0x0e ∷ 0x10 ∷ 0x0f ∷ 0x11 ∷ 0x0d ∷ 0x06 ∷ 0x08 ∷ 0x0a ∷ 0x05 ∷ 0x07 ∷ 0x09
          ∷ 0x01 ∷ 0x0b ∷ 0x28 ∷ 0x22 ∷ 0x04 ∷ 0x0c ∷ 0x27 ∷ 0x2f ∷ 0x1c ∷ 0x01 ∷ 0x01 ∷ [],
    )
    ∷ (0x04, 0x03 ∷ 0x04 ∷ 0x0c ∷ 0x27 ∷ 0x2f ∷ 0x1c ∷ 0x01 ∷ 0x01 ∷ [])
    ∷ (0x05, 0x03 ∷ 0x25 ∷ 0x12 ∷ 0x13 ∷ 0x10 ∷ 0x11 ∷ 0x01 ∷ [])
    ∷ (0x08, 0x03 ∷ 0x0e ∷ 0x04 ∷ 0x0c ∷ 0x27 ∷ 0x2f ∷ 0x1c ∷ 0x01 ∷ 0x01 ∷ [])
    ∷ (0x09, 0x03 ∷ 0x1f ∷ 0x1e ∷ 0x01 ∷ [])
    ∷ (0x0a, 0x03 ∷ 0x0d ∷ 0x06 ∷ 0x08 ∷ 0x0a ∷ 0x05 ∷ 0x07 ∷ 0x09 ∷ 0x01 ∷ 0x01 ∷ [])
    ∷ (0x0b, 0x03 ∷ 0x2b ∷ 0x01 ∷ [])
    ∷ (0x0d, 0x03 ∷ 0x2b ∷ 0x01 ∷ [])
    ∷ (0x0f, 0x03 ∷ 0x18 ∷ 0x1a ∷ 0x19 ∷ 0x20 ∷ 0x01 ∷ [])
    ∷ (0x10, 0x03 ∷ 0x2b ∷ 0x01 ∷ [])
    ∷ (0x13, 0x03 ∷ 0x23 ∷ 0x01 ∷ [])
    ∷ (0x14, 0x03 ∷ 0x23 ∷ 0x01 ∷ [])
    ∷ (0x16, 0x03 ∷ 0x23 ∷ 0x01 ∷ [])
    ∷ (0x17, 0x03 ∷ 0x23 ∷ 0x01 ∷ [])
    ∷ (0x18, 0x03 ∷ 0x2a ∷ 0x15 ∷ 0x21 ∷ 0x29 ∷ 0x01 ∷ [])
    ∷ (0x1a, 0x03 ∷ 0x23 ∷ 0x01 ∷ [])
    ∷ (0x1b, 0x03 ∷ 0x23 ∷ 0x1f ∷ 0x1b ∷ 0x01 ∷ [])
    ∷ (0x1c, 0x03 ∷ 0x23 ∷ 0x01 ∷ [])
    ∷ (0x1d, 0x03 ∷ 0x23 ∷ 0x01 ∷ [])
    ∷ (0x1f, 0x03 ∷ 0x23 ∷ 0x01 ∷ [])
    ∷ (0x21, 0x03 ∷ 0x19 ∷ 0x23 ∷ 0x01 ∷ [])
    ∷ (0x22, 0x03 ∷ 0x23 ∷ 0x01 ∷ [])
    ∷ (
      0x26,
      0x03 ∷ 0x14 ∷ 0x0e ∷ 0x10 ∷ 0x0f ∷ 0x11 ∷ 0x0b ∷ 0x28 ∷ 0x22 ∷ 0x04 ∷ 0x0c ∷ 0x27 ∷ 0x2f
          ∷ 0x1c ∷ 0x01 ∷ 0x01 ∷ [],
    )
    ∷ (0x27, 0x03 ∷ 0x16 ∷ 0x17 ∷ 0x28 ∷ 0x01 ∷ [])
    ∷ (0x28, 0x03 ∷ 0x2c ∷ 0x01 ∷ [])
    ∷ (0x2a, 0x03 ∷ 0x2a ∷ 0x15 ∷ 0x21 ∷ 0x29 ∷ 0x01 ∷ [])
    ∷ (0x2c, 0x03 ∷ 0x26 ∷ 0x24 ∷ 0x01 ∷ [])
    ∷ (0x2d, 0x03 ∷ 0x1f ∷ 0x1d ∷ 0x01 ∷ [])
    ∷ (0x2f, 0x03 ∷ 0x2b ∷ 0x01 ∷ [])
    ∷ (0x30, 0x03 ∷ 0x2b ∷ 0x01 ∷ [])
    ∷ (0x31, 0x03 ∷ 0x2d ∷ 0x2b ∷ 0x01 ∷ [])
    ∷ (0x33, 0x03 ∷ 0x18 ∷ 0x1a ∷ 0x19 ∷ 0x20 ∷ 0x01 ∷ [])
    ∷ (0x34, 0x03 ∷ 0x2b ∷ 0x01 ∷ [])
    ∷ (0x35, 0x03 ∷ 0x2b ∷ 0x01 ∷ [])
    ∷ (
      0x38,
      0x03 ∷ 0x2e ∷ 0x0d ∷ 0x06 ∷ 0x08 ∷ 0x0a ∷ 0x05 ∷ 0x07 ∷ 0x09 ∷ 0x01 ∷ 0x16 ∷ 0x17 ∷ 0x28
          ∷ 0x04 ∷ 0x0c ∷ 0x27 ∷ 0x2f ∷ 0x1c ∷ 0x01 ∷ 0x01 ∷ [],
    )
    ∷ (0x39, 0x03 ∷ 0x01 ∷ [])
    ∷ (0x3a, 0x03 ∷ 0x01 ∷ [])
    ∷ (0x3c, 0x03 ∷ 0x2a ∷ 0x15 ∷ 0x21 ∷ 0x29 ∷ 0x01 ∷ [])
    ∷ (0x3e, 0x03 ∷ 0x01 ∷ [])
    ∷ (0x3f, 0x03 ∷ 0x1f ∷ 0x01 ∷ [])
    ∷ (0x41, 0x03 ∷ 0x2e ∷ 0x2b ∷ 0x01 ∷ [])
    ∷ (0x42, 0x03 ∷ 0x01 ∷ [])
    ∷ (0x43, 0x03 ∷ 0x01 ∷ [])
    ∷ (0x45, 0x03 ∷ 0x19 ∷ 0x01 ∷ [])
    ∷ (0x46, 0x03 ∷ 0x01 ∷ [])
    ∷ (0x47, 0x03 ∷ 0x01 ∷ [])
    ∷ (0x4e, 0x03 ∷ 0x2a ∷ 0x15 ∷ 0x21 ∷ 0x29 ∷ 0x01 ∷ [])
    ∷ []

-- `cpars[i]`; `none` is a NULL row or an index outside the table, where the C code would read
-- through a bad pointer.
unfoldable pub cpars : ℕ → Option (List ℕ)
cpars i = lookup i cpars_rows

unfoldable pub command_2_index : ℕ → ℕ → ℕ
command_2_index c sc =
    let c' =
      if ltb 0 (bit_and c 0x80)
      then 0x9 + bit_and c 0x0f
      else if leb c 0x0f
      then c
      else if c == 0x41
      then 0x9 + 0x1
      else if c == 0xff
      then 0
      else c in
    bit_and sc 3 * (0x9 + 0x9) + c'
