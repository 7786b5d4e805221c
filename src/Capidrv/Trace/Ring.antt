-- ===== src/Capidrv/Trace/Ring.antt =====
-- Writing to and reading from the ring of linux/drivers/isdn/capi/capidrv.c.
use capi4linux.Prelude.{
  ℕ, suc, ◌+◌, ◌-◌, ◌*◌, ◌≤◌, ◌<◌, ◌≡◌, refl, sym, ◌∙◌, Bool, false, some, List, [], ◌∷◌, ltb, ◌==◌,
  length, length-append, if◌then◌else◌, arith,
}
use mathlib.Core.Path.{subst}
use capi4linux.Memory.{Mem}
use capi4linux.Cmsg.Struct.{update_self, update_other}
use capi4linux.Capidrv.Trace.{
  Q931, behind, putbyte_to_status, put_bytes, dtrace_bytes, dtrace_text, handle_dtrace_data,
  if_readstat,
}

-- How many bytes can be written from the place `w` on before the place `p`.
abbrev gap : ℕ → ℕ → ℕ → ℕ
gap end w p = if ltb p w then (end + 1 + p) - w else p - w

gap-behind :
    (end w p : ℕ)
    → w ≤ end
    → p ≤ end
    → 0 < gap end w p
    → ((p == w) ≡ false) × (behind end w ≤ end) × (suc (gap end (behind end w) p) ≡ gap end w p)
gap-behind end w p hw hp h = (ground arith, ground arith, ground arith)

gap_around : (end w : ℕ) → w ≤ end → gap end (behind end w) w ≡ end
gap_around end w h = ground arith

put_bytes_other :
    (xs : List ℕ) (r : Q931) (p : ℕ)
    → r.write ≤ r.end
    → p ≤ r.end
    → length xs ≤ gap r.end r.write p
    → (put_bytes xs r).buf p ≡ r.buf p
unfolding put_bytes putbyte_to_status
put_bytes_other [] r p hw hp h = refl
put_bytes_other (x ∷ xs) r p hw hp h =
    let (other, inside, less) = gap-behind r.end r.write p hw hp (omega (arith, h)) in
    put_bytes_other xs (putbyte_to_status x r) p inside hp (omega (arith, h, less))
    ∙ update_other r.write p x r.buf other

-- The places from `p` on hold a text.
abbrev Written : ℕ → Mem → ℕ → List ℕ → Type 0
Written end buf p [] = Unit
Written end buf p (x ∷ xs) = (buf p ≡ x) × Written end buf (behind end p) xs

put_bytes-Written :
    (xs : List ℕ) (r : Q931)
    → r.write ≤ r.end
    → length xs ≤ r.end + 1
    → Written r.end (put_bytes xs r).buf r.write xs
unfolding put_bytes putbyte_to_status
put_bytes-Written [] r hw h = tt
put_bytes-Written (x ∷ xs) r hw h = (
  put_bytes_other xs (putbyte_to_status x r) r.write (ground arith) hw
        (omega (arith, h, gap_around r.end r.write hw))
      ∙ update_self r.write x r.buf,
  put_bytes-Written xs (putbyte_to_status x r) (ground arith) (omega (arith, h)),
)

put_bytes-rest :
    (xs : List ℕ) (r : Q931) → ((put_bytes xs r).read ≡ r.read) × ((put_bytes xs r).end ≡ r.end)
unfolding put_bytes putbyte_to_status
put_bytes-rest [] r = (refl, refl)
put_bytes-rest (x ∷ xs) r = put_bytes-rest xs (putbyte_to_status x r)

if_readstat-Written :
    (xs : List ℕ) (r : Q931) → Written r.end r.buf r.read xs → (if_readstat (length xs) r).0 ≡ xs
unfolding if_readstat
if_readstat-Written [] r w = refl
if_readstat-Written (x ∷ xs) r (e, w) =
    rw (e, if_readstat-Written xs (record r { read = behind r.end r.read }) w) refl

dtrace_bytes-length : (bytes : List ℕ) → length (dtrace_bytes bytes) ≡ length bytes * 3
unfolding dtrace_bytes
dtrace_bytes-length [] = refl
dtrace_bytes-length (x ∷ xs) = omega (arith, dtrace_bytes-length xs)

dtrace_text-length :
    (send level2 : Bool) (bytes : List ℕ)
    → length (dtrace_text send level2 bytes) ≡ length bytes * 3 + 5
unfolding dtrace_text
dtrace_text-length send level2 bytes =
    omega (arith, dtrace_bytes-length bytes, length-append (dtrace_bytes bytes) (10 ∷ []))

-- For some bytes of trace data, at a ring that has been read to its end and has room for their
-- text, handle_dtrace_data tells ISDN4Linux a number of characters, and reading as many gives the
-- whole text, also where the ring wraps around.
pub if_readstat-handle_dtrace_data :
    (send level2 : Bool) (x : ℕ) (xs : List ℕ) (r : Q931)
    → r.read ≡ r.write
    → r.write ≤ r.end
    → length (x ∷ xs) * 3 + 5 ≤ r.end + 1
    → (n : ℕ) × ((handle_dtrace_data send level2 (x ∷ xs) r).0 ≡ some n)
      × ((if_readstat n (handle_dtrace_data send level2 (x ∷ xs) r).1).0
          ≡ dtrace_text send level2 (x ∷ xs))
unfolding handle_dtrace_data
if_readstat-handle_dtrace_data send level2 x xs r empty inside fits =
    let text = dtrace_text send level2 (x ∷ xs) in
    let count : length text ≡ length (x ∷ xs) * 3 + 5 = dtrace_text-length send level2 (x ∷ xs) in
    let written : Written r.end (put_bytes text r).buf r.write text =
      put_bytes-Written text r inside (omega (arith, fits, count)) in
    let (read, end) = put_bytes-rest text r in
    let there : Written (put_bytes text r).end (put_bytes text r).buf (put_bytes text r).read text =
      subst (λ e. Written e (put_bytes text r).buf (put_bytes text r).read text) (sym end)
        (subst (λ p. Written r.end (put_bytes text r).buf p text) (sym (read ∙ empty)) written) in
    (
      length (x ∷ xs) * 3 + 5,
      refl,
      subst (λ n. (if_readstat n (put_bytes text r)).0 ≡ text) count
          (if_readstat-Written text (put_bytes text r) there),
    )
