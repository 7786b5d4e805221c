-- ===== src/Cmsg/Decode/Field.antt =====
-- One field of the wire form, and the decoder of linux/drivers/isdn/capi/capiutil.c.
use capi4linux.Prelude.{
  ℕ, zero, suc, ◌+◌, ◌<◌, ◌≡◌, refl, sym, ap, ◌∙◌, none, some, [], ◌∷◌, Bool, false, ◌||◌, inl, inr,
  ◌==◌, length, Bool-cases, arith,
}
use native.Mathlib.Nat.{add-zero}
use capi4linux.Memory.{Mem, shift, load16, load32, load_bytes}
use capi4linux.Memory.Holds.{Holds, load_bytes-Holds, length-load_bytes, load_bytes-shift}
use capi4linux.Cmsg.Table.{Typ, cbyte, cword, cdword, cstruct, cmstruct, cend}
use capi4linux.Cmsg.Struct.{Cmsg, CStruct, update, update_self, update_other}
use capi4linux.Cmsg.Encode.{struct_size}
use capi4linux.Cmsg.Decode.{get_par}
use capi4linux.Cmsg.Decode.Agree.{AgreeAt, SameOutside}
use capi4linux.Cmsg.Layout.{done, item, IsScalar}
use capi4linux.Cmsg.Wire.{struct_wire, par_wire, InRange}

-- A byte of a range that was loaded from elsewhere.
load_bytes-at :
    (m t : Mem) (l o i n : ℕ) → i < n → Holds m l (load_bytes t o n) → m (l + i) ≡ t (o + i)
unfolding load_bytes
load_bytes-at m t l o i zero lt h = absurd (omega arith)
load_bytes-at m t l o zero (suc n) lt h =
    let e : l + 0 ≡ l = omega arith in let e' : o + 0 ≡ o = omega arith in rw (e, e') h.0
load_bytes-at m t l o (suc i) (suc n) lt h =
    let e : l + suc i ≡ suc l + i = omega arith in
    let e' : o + suc i ≡ suc o + i = omega arith in
    rw (e, e') (load_bytes-at m t (suc l) (suc o) i n (omega arith) h.1)

-- The size of a structure can be read off its copy.
struct_size-copy :
    (m t : Mem) (l n : ℕ)
    → n ≡ struct_size t
    → Holds m l (load_bytes t 0 n)
    → struct_size (shift m l) ≡ n
unfolding struct_size
struct_size-copy m t l n e h =
    let first = load_bytes-at m t l 0 0 n (ground arith) h in
    elim (Bool-cases (t 0 == 0xff)) [
      | inl long ↦
          let second = load_bytes-at m t l 0 1 n (ground arith) h in
          let third = load_bytes-at m t l 0 2 n (ground arith) h in ground arith
      | inr short ↦ ground arith
    ]

struct_size-null : (m : Mem) (l : ℕ) → m l ≡ 0 → struct_size (shift m l) ≡ 1
unfolding struct_size
struct_size-null m l e = let first : m (l + 0) ≡ 0 = rw (add-zero l) e in ground arith

pub struct_size-pos : (t : Mem) → 0 < struct_size t
unfolding struct_size
struct_size-pos t = ground arith

-- A field that points at the encoding of a structure has that encoding.
struct_wire-shift :
    (s : CStruct) (m : Mem) (l : ℕ)
    → Holds m l (struct_wire s)
    → (struct_wire (some (shift m l)) ≡ struct_wire s)
      × (struct_size (shift m l) ≡ length (struct_wire s))
unfolding struct_wire load_bytes
struct_wire-shift none m l h =
    let size : struct_size (shift m l) ≡ 1 = struct_size-null m l h.0 in
    (rw (size, load_bytes) (ap (λ b. b ∷ []) (rw (add-zero l) h.0)), size)
struct_wire-shift (some t) m l h =
    let same = struct_size-copy m t l (struct_size t) refl h in
    let bytes : load_bytes m l (struct_size t) ≡ load_bytes t 0 (struct_size t) =
      ap (λ n. load_bytes m l n) (sym (length-load_bytes t 0 (struct_size t)))
      ∙ load_bytes-Holds m l (load_bytes t 0 (struct_size t)) h in
    (
      rw same (
          load_bytes-shift m l 0 (struct_size t)
          ∙ ap (λ o. load_bytes m o (struct_size t)) (omega arith)
          ∙ bytes),
      same ∙ sym (length-load_bytes t 0 (struct_size t)),
    )

-- The last entry of the chain of tests that `has` of one item is.
other : {a : Bool} → (a || false) ≡ false → a ≡ false
other {a} h = ground arith

module _ (d : Cmsg) (t : Typ) (k : ℕ) where
  write_num-SameOutside :
      (v : ℕ) → SameOutside (item t k done) d (record d { nums = update k v d.nums })
  write_num-SameOutside v = record {
    same =
        λ j h. record { nums = update_other k j v d.nums (other h); structs = refl; modes = refl };
    command = refl;
    subcommand = refl;
  }

  write_struct-SameOutside :
      (v : CStruct) → SameOutside (item t k done) d (record d { structs = update k v d.structs })
  write_struct-SameOutside v = record {
    same = λ j h. record {
      nums = refl;
      structs = update_other k j v d.structs (other h);
      modes = refl;
    };
    command = refl;
    subcommand = refl;
  }

-- One field is read back, and no other changes.
pub get_par-wire :
    (c d : Cmsg) (t : Typ) (k : ℕ) (m : Mem) (l : ℕ)
    → IsScalar t
    → InRange c (item t k done)
    → Holds m l (par_wire c t k)
    → AgreeAt c (get_par m t k d l).0 t k
      × SameOutside (item t k done) d (get_par m t k d l).0
      × ((get_par m t k d l).1 ≡ l + length (par_wire c t k))
unfolding get_par par_wire
get_par-wire c d cbyte k m l sc r h =
    (update_self k (m l) d.nums ∙ omega arith, write_num-SameOutside d cbyte k (m l), refl)
get_par-wire c d cword k m l sc r h = (
  update_self k (load16 m l) d.nums ∙ omega arith,
  write_num-SameOutside d cword k (load16 m l),
  refl,
)
get_par-wire c d cdword k m l sc r h = (
  update_self k (load32 m l) d.nums ∙ omega arith,
  write_num-SameOutside d cdword k (load32 m l),
  refl,
)
get_par-wire c d cstruct k m l sc r h =
    let (bytes, len) = struct_wire-shift (c.structs k) m l h in
    (
      ap struct_wire (update_self k (some (shift m l)) d.structs) ∙ bytes,
      write_struct-SameOutside d cstruct k (some (shift m l)),
      ap (λ n. l + n) len,
    )
get_par-wire c d cmstruct k m l sc r h = cc
get_par-wire c d cend k m l sc r h = cc
