-- ===== src/Memory.antt =====
-- Memory as the C code sees it through a pointer: the byte at each offset from the pointer.
-- The stores and loads of `u8`, `u16` and `u32` values are those of a little-endian machine.
-- It models the copy macros of linux/drivers/isdn/capi/capiutil.c and `memcpy`, `memmove`.
pub mod Holds
use capi4linux.Prelude.{ℕ, zero, suc, ◌+◌, ◌*◌, ◌/◌, ◌%◌, ◌^◌, List, [], ◌∷◌, ◌==◌, if◌then◌else◌}

abbrev pub Mem : Type 0
Mem = ℕ → ℕ

-- `m + o`, as a pointer of its own.
abbrev pub shift : Mem → ℕ → Mem
shift m o i = m (o + i)

unfoldable pub store : ℕ → ℕ → Mem → Mem
store o b m = λ a. if a == o then b else m a

unfoldable pub store_bytes : ℕ → List ℕ → Mem → Mem
store_bytes o [] m = m
store_bytes o (b ∷ bs) m = store_bytes (suc o) bs (store o b m)

-- The `n` bytes from offset `o` on.
unfoldable pub load_bytes : Mem → ℕ → ℕ → List ℕ
load_bytes m o zero = []
load_bytes m o (suc n) = m o ∷ load_bytes m (suc o) n

abbrev pub le16 : ℕ → List ℕ
le16 v = (v % 256) ∷ (v / 256 % 256) ∷ []

abbrev pub le32 : ℕ → List ℕ
le32 v = (v % 256) ∷ (v / 2 ^ 8 % 256) ∷ (v / 2 ^ 16 % 256) ∷ (v / 2 ^ 24 % 256) ∷ []

abbrev pub load16 : Mem → ℕ → ℕ
load16 m o = m o + 256 * m (suc o)

abbrev pub load32 : Mem → ℕ → ℕ
load32 m o = m o + 2 ^ 8 * m (suc o) + 2 ^ 16 * m (suc (suc o)) + 2 ^ 24 * m (suc (suc (suc o)))

-- `memcpy(m + o, s, n)` from another object, and `memmove` inside one.
abbrev pub copy : ℕ → Mem → ℕ → Mem → Mem
copy o s n m = store_bytes o (load_bytes s 0 n) m

abbrev pub move : ℕ → ℕ → ℕ → Mem → Mem
move o from n m = store_bytes o (load_bytes m from n) m
