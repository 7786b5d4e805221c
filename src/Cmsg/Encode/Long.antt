-- ===== src/Cmsg/Encode/Long.antt =====
-- Composed structures of 255 bytes and more.
use capi4linux.Prelude.{
  ℕ, zero, suc, ◌+◌, ◌-◌, ◌≤◌, ◌≡◌, refl, sym, ap, ◌∙◌, some, false, List, ◌∷◌, ◌++◌, length, ltb,
  arith,
}
use mathlib.Core.Path.{subst}
use capi4linux.Memory.{Mem, le16, store_bytes, move}
use capi4linux.Memory.Holds.{
  Holds, Holds-frame, Holds-append, Holds-store_bytes, store_bytes_above, load_bytes-Holds,
}
use capi4linux.Cmsg.Struct.{Cmsg, capi_compose}
use capi4linux.Cmsg.Encode.{close_struct, pars_2_message}
use capi4linux.Cmsg.Encode.Refines.{
  pars_2_message-wire, pars_2_message-compose, pars_2_message-done,
}
use capi4linux.Cmsg.Layout.{Layout, done, group, flat, size, IsLayout, size-pos}
use capi4linux.Cmsg.Wire.{wire, Fits}

close_struct-moves :
    (l n : ℕ) (m : Mem)
    → 255 ≤ n
    → close_struct l m (l + 1 + n) ≡ store_bytes l (0xff ∷ le16 n) (move (l + 3) (l + 1) n m)
unfolding close_struct
close_struct-moves l n m long =
    let e : l + 1 + n - l - 1 ≡ n = omega arith in
    let test : ltb n 255 ≡ false = ground arith in rw (e, test)

close_struct-long :
    (l : ℕ) (bs : List ℕ) (m : Mem)
    → 255 ≤ length bs
    → Holds m (l + 1) bs
    → Holds (close_struct l m (l + 1 + length bs)) l (0xff ∷ (le16 (length bs) ++ bs))
close_struct-long l bs m long h =
    let moved = move (l + 3) (l + 1) (length bs) m in
    let prefix = 0xff ∷ le16 (length bs) in
    let body : Holds moved (l + 3) bs =
      subst (λ xs. Holds (store_bytes (l + 3) xs m) (l + 3) bs)
        (sym (load_bytes-Holds m (l + 1) bs h)) (Holds-store_bytes (l + 3) bs m) in
    let beside : Holds (store_bytes l prefix moved) (l + 3) bs =
      Holds-frame moved (store_bytes l prefix moved) (l + 3) bs
        (λ a p _. store_bytes_above l a prefix moved p) body in
    subst (λ x. Holds x l (prefix ++ bs)) (sym (close_struct-moves l (length bs) m long))
      (Holds-append (store_bytes l prefix moved) l (l + 3) prefix bs refl
        (Holds-store_bytes l prefix moved) beside)

-- A composed structure of 255 bytes or more, whose own composed members are shorter, is written
-- with a three-byte prefix, taking 3 + length bytes, while the encoder goes on only 1 + length
-- bytes further.
pub pars_2_message-long :
    (g : Layout) (n : ℕ) (c : Cmsg) (m : Mem) (l k : ℕ) (rest : List ℕ)
    → IsLayout (group k g done)
    → c.modes k ≡ capi_compose
    → Fits c g
    → 255 ≤ length (wire c g)
    → size (group k g done) ≤ n
    → (m' : Mem) × (pars_2_message n c m l (flat (group k g done) rest)
        ≡ some (m', l + 1 + length (wire c g), 0x01 ∷ rest))
      × Holds m' l (0xff ∷ (le16 (length (wire c g)) ++ wire c g))
pars_2_message-long g zero c m l k rest ok compose fit long enough = absurd (omega arith)
pars_2_message-long g (suc zero) c m l k rest ok compose fit long enough =
    absurd (omega (arith, size-pos g))
pars_2_message-long g (suc (suc n)) c m l k rest (e, _, _, _, _, og, _) compose fit long enough =
    let (m1, w, run) =
      pars_2_message-wire g (suc n) c m (l + 1) (0x01 ∷ rest) og fit (omega arith) in
    let l1 = l + 1 + length (wire c g) in
    (
      close_struct l m1 l1,
      pars_2_message-compose (suc n) c m l k (flat g (0x01 ∷ rest)) e compose run
          ∙ pars_2_message-done n c (close_struct l m1 l1) l1 rest
          ∙ ap (λ j. some (close_struct l m1 l1, j, 0x01 ∷ rest)) (omega arith),
      close_struct-long l (wire c g) m1 long w.holds,
    )
