-- ===== src/Memory/Holds.antt =====
-- What a range of memory holds, after a store and beside one.
use capi4linux.Prelude.{
  ℕ, zero, suc, ◌+◌, ◌≤◌, ◌<◌, ◌≡◌, refl, ap, ◌∙◌, List, [], ◌∷◌, ◌++◌, length, arith,
}
use mathlib.Core.Path.{subst}
use capi4linux.Memory.{Mem, shift, store, store_bytes, load_bytes}

-- The bytes from offset `o` on begin with the list.
abbrev pub Holds : Mem → ℕ → List ℕ → Type 0
Holds m o [] = Unit {0}
Holds m o (b ∷ bs) = (m o ≡ b) × Holds m (suc o) bs

-- Two memories agree below an offset.
abbrev pub SameBelow : ℕ → Mem → Mem → Type 0
SameBelow l m m' = (a : ℕ) → a < l → m' a ≡ m a

pub store_bytes_below : (o a : ℕ) (bs : List ℕ) (m : Mem) → a < o → store_bytes o bs m a ≡ m a
unfolding store_bytes store
store_bytes_below o a [] m h = refl
store_bytes_below o a (b ∷ bs) m h = ground (arith, store_bytes_below (suc o) a bs (store o b m))

pub store_bytes_above :
    (o a : ℕ) (bs : List ℕ) (m : Mem) → o + length bs ≤ a → store_bytes o bs m a ≡ m a
unfolding store_bytes store
store_bytes_above o a [] m h = refl
store_bytes_above o a (b ∷ bs) m h = ground (arith, store_bytes_above (suc o) a bs (store o b m))

pub Holds-frame :
    (m m' : Mem) (o : ℕ) (bs : List ℕ)
    → ((a : ℕ) → o ≤ a → a < o + length bs → m' a ≡ m a)
    → Holds m o bs
    → Holds m' o bs
Holds-frame m m' o [] same h = tt
Holds-frame m m' o (b ∷ bs) same h = (
  same o (omega arith) (omega arith) ∙ h.0,
  Holds-frame m m' (suc o) bs (λ a p q. same a (omega arith) (omega arith)) h.1,
)

pub Holds-store_bytes : (o : ℕ) (bs : List ℕ) (m : Mem) → Holds (store_bytes o bs m) o bs
unfolding store_bytes store
Holds-store_bytes o [] m = tt
Holds-store_bytes o (b ∷ bs) m = (
  ground (arith, store_bytes_below (suc o) o bs (store o b m)),
  Holds-store_bytes (suc o) bs (store o b m),
)

pub Holds-append :
    (m : Mem) (o p : ℕ) (xs ys : List ℕ)
    → p ≡ o + length xs
    → Holds m o xs
    → Holds m p ys
    → Holds m o (xs ++ ys)
Holds-append m o p [] ys e h k = subst (λ q. Holds m q ys) (omega arith) k
Holds-append m o p (x ∷ xs) ys e h k = (h.0, Holds-append m (suc o) p xs ys (omega arith) h.1 k)

pub Holds-take : (m : Mem) (o : ℕ) (xs ys : List ℕ) → Holds m o (xs ++ ys) → Holds m o xs
Holds-take m o [] ys h = tt
Holds-take m o (x ∷ xs) ys h = (h.0, Holds-take m (suc o) xs ys h.1)

pub Holds-drop :
    (m : Mem) (o p : ℕ) (xs ys : List ℕ) → p ≡ o + length xs → Holds m o (xs ++ ys) → Holds m p ys
Holds-drop m o p [] ys e h = subst (λ q. Holds m q ys) (omega arith) h
Holds-drop m o p (x ∷ xs) ys e h = Holds-drop m (suc o) p xs ys (omega arith) h.1

-- Bytes that a range holds are what a load of the range reads.
pub load_bytes-Holds :
    (m : Mem) (o : ℕ) (bs : List ℕ) → Holds m o bs → load_bytes m o (length bs) ≡ bs
unfolding load_bytes
load_bytes-Holds m o [] h = refl
load_bytes-Holds m o (b ∷ bs) h = ground (arith, h.0, load_bytes-Holds m (suc o) bs h.1)

pub Holds-load_bytes : (m : Mem) (o n : ℕ) → Holds m o (load_bytes m o n)
unfolding load_bytes
Holds-load_bytes m o zero = tt
Holds-load_bytes m o (suc n) = (refl, Holds-load_bytes m (suc o) n)

pub length-load_bytes : (m : Mem) (o n : ℕ) → length (load_bytes m o n) ≡ n
unfolding load_bytes
length-load_bytes m o zero = refl
length-load_bytes m o (suc n) = ap suc (length-load_bytes m (suc o) n)

-- Loads through a shifted pointer.
pub load_bytes-shift : (m : Mem) (o i n : ℕ) → load_bytes (shift m o) i n ≡ load_bytes m (o + i) n
unfolding load_bytes
load_bytes-shift m o i zero = refl
load_bytes-shift m o i (suc n) =
    let next : o + suc i ≡ suc (o + i) = omega arith in
    ap (λ t. m (o + i) ∷ t) (load_bytes-shift m o (suc i) n ∙ ap (λ q. load_bytes m q n) next)
