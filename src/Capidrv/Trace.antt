-- ===== src/Capidrv/Trace.antt =====
-- The D-channel trace of linux/drivers/isdn/capi/capidrv.c: a ring of characters that
-- `handle_dtrace_data` writes and `if_readstat` reads.
pub mod Ring
use capi4linux.Prelude.{
  ℕ, zero, suc, ◌+◌, ◌*◌, ◌/◌, ◌%◌, Bool, Option, none, some, List, [], ◌∷◌, ◌++◌, ltb, length,
  if◌then◌else◌,
}
use capi4linux.Memory.{Mem}
use capi4linux.Cmsg.Struct.{update}

-- `q931_buf` with the places of `q931_read` and `q931_write`; `q931_end` is the last place.
pub record Q931 : Type 0 where
  pub buf : Mem
  pub read : ℕ
  pub write : ℕ
  pub end : ℕ

-- The place behind one, from the end back to the start.
abbrev pub behind : ℕ → ℕ → ℕ
behind end p = if ltb end (p + 1) then 0 else p + 1

-- `PUTBYTE_TO_STATUS`.
unfoldable pub putbyte_to_status : ℕ → Q931 → Q931
unfolding update
putbyte_to_status byte r = record r {
  buf = update r.write byte r.buf;
  write = behind r.end r.write;
}

unfoldable pub put_bytes : List ℕ → Q931 → Q931
unfolding putbyte_to_status
put_bytes [] r = r
put_bytes (x ∷ xs) r = put_bytes xs (putbyte_to_status x r)

-- `(w < 10) ? '0'+w : 'A'-10+w`.
abbrev pub hex_digit : ℕ → ℕ
hex_digit w = if ltb w 10 then 48 + w else 55 + w

-- The loop of `handle_dtrace_data`: a blank and two digits for each byte.
unfoldable pub dtrace_bytes : List ℕ → List ℕ
dtrace_bytes [] = []
dtrace_bytes (x ∷ xs) = 32 ∷ hex_digit (x / 16 % 16) ∷ hex_digit (x % 16) ∷ dtrace_bytes xs

-- What `handle_dtrace_data` writes for some data: D2 or D3, the direction, a colon, the bytes, and the
-- end of the line.
unfoldable pub dtrace_text : Bool → Bool → List ℕ → List ℕ
unfolding dtrace_bytes
dtrace_text send level2 bytes =
    68
    ∷ (if level2 then 50 else 51)
    ∷ (if send then 62 else 60)
    ∷ 58
    ∷ (dtrace_bytes bytes ++ 10 ∷ [])

-- `handle_dtrace_data`: the ring, and the number of characters that ISDN4Linux is told; nothing is
-- done without data.
unfoldable pub handle_dtrace_data : Bool → Bool → List ℕ → Q931 → Option ℕ × Q931
unfolding put_bytes dtrace_text
handle_dtrace_data send level2 [] r = (none, r)
handle_dtrace_data send level2 (x ∷ xs) r =
    (some (length (x ∷ xs) * 3 + 5), put_bytes (dtrace_text send level2 (x ∷ xs)) r)

-- `if_readstat`, for `len` characters.
unfoldable pub if_readstat : ℕ → Q931 → List ℕ × Q931
if_readstat zero r = ([], r)
if_readstat (suc len) r =
    let (xs, r') = if_readstat len (record r { read = behind r.end r.read }) in
    (r.buf r.read ∷ xs, r')
