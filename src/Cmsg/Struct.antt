-- ===== src/Cmsg/Struct.antt =====
-- `_cmsg` of linux/include/linux/isdn/capiutil.h. The members `l`, `p`, `par` and `m`, which are
-- working state of one conversion, are the cursors of the encoder and the decoder; `len` is what
-- the decoder leaves in `l`. The member `buf`, of 180 bytes, is the memory that the encoder writes
-- to; its bound is tested where a message is sent, in Capidrv/Card.
use capi4linux.Prelude.{
  ℕ, ◌≡◌, refl, ◌⊎◌, inl, inr, false, Option, none, arith, ◌==◌, if◌then◌else◌,
}
use capi4linux.Memory.{Mem}

-- `_cstruct`: NULL, or a pointer to a length-prefixed structure, as the bytes from there on.
abbrev pub CStruct : Type 0
CStruct = Option Mem

pub data CmStruct : Type 0 where
  capi_compose capi_default : CmStruct

pub CmStruct-cases : (x : CmStruct) → (x ≡ capi_compose) ⊎ (x ≡ capi_default)
CmStruct-cases capi_compose = inl refl
CmStruct-cases capi_default = inr refl

-- The parameter fields, by offset: numbers, structures, and modes of composed structures.
pub record Cmsg : Type 0 where
  pub appl_id : ℕ
  pub command : ℕ
  pub subcommand : ℕ
  pub messagenumber : ℕ
  pub nums : ℕ → ℕ
  pub structs : ℕ → CStruct
  pub modes : ℕ → CmStruct
  pub len : ℕ

-- A write of one field.
unfoldable pub update : {A : Type 0} → ℕ → A → (ℕ → A) → ℕ → A
update k v f = λ j. if j == k then v else f j

pub update_self : {A : Type 0} (k : ℕ) (v : A) (f : ℕ → A) → update k v f k ≡ v
unfolding update
update_self k v f = ground arith

pub update_other :
    {A : Type 0} (k j : ℕ) (v : A) (f : ℕ → A) → (j == k) ≡ false → update k v f j ≡ f j
unfolding update
update_other k j v f h = rw h

abbrev pub adr_controller : ℕ
adr_controller = 0x03

-- `memset(cmsg, 0, sizeof(_cmsg))`.
abbrev pub zeroed : Cmsg
zeroed = record {
  appl_id = 0;
  command = 0;
  subcommand = 0;
  messagenumber = 0;
  nums = λ _. 0;
  structs = λ _. none;
  modes = λ _. capi_compose;
  len = 0;
}

unfoldable pub capi_cmsg_header : ℕ → ℕ → ℕ → ℕ → ℕ → Cmsg
unfolding update
capi_cmsg_header appl_id command subcommand messagenumber controller = record zeroed {
  appl_id = appl_id;
  command = command;
  subcommand = subcommand;
  messagenumber = messagenumber;
  nums = update adr_controller controller zeroed.nums;
}
