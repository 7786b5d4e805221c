-- ===== src/Capidrv/Handlers/Leased.antt =====
-- Leased lines in linux/drivers/isdn/capi/capidrv.c. A text is the list of its characters, without the
-- NUL. The set of channels that is `bmask` in C is a test here.
use capi4linux.Prelude.{
  ℕ, zero, suc, ◌+◌, ◌-◌, ◌*◌, Bool, true, false, ◌&&◌, ◌||◌, List, [], ◌∷◌, ltb, leb, ◌==◌,
  if◌then◌else◌,
}
use capi4linux.Cmsg.Struct.{CStruct}
use capi4linux.Capidrv.Handlers.Protocols.{structure}

-- What `decodeFVteln` returns: 1 for a text that does not begin with FV:, a number below 0, or 0 with
-- the channels and whether the line is active.
pub data Leased : Type 0 where
  not_leased : Leased
  refused : ℕ → Leased
  channels : (ℕ → Bool) → Bool → Leased

-- Where the second loop of `decodeFVteln` is: before a number, in the first number, before the second
-- one, and in it.
pub data Place : Type 0 where
  start : Place
  first : ℕ → Place
  dash : ℕ → Place
  second : ℕ → ℕ → Place

abbrev pub isdigit : ℕ → Bool
isdigit x = leb 48 x && leb x 57

-- A comma or a blank.
abbrev pub separates : ℕ → Bool
separates x = (x == 44) || (x == 32)

-- `1 << i`, by its bits: a parameter, since C leaves it open from 31 on.
abbrev pub Shift : Type 0
Shift = ℕ → ℕ → Bool

-- `bmask |= (1 << i)`, for `left` values of `i` from the first on.
unfoldable pub mark : Shift → ℕ → ℕ → (ℕ → Bool) → ℕ → Bool
mark shl1 zero i bmask = bmask
mark shl1 (suc left) i bmask = mark shl1 left (i + 1) (λ j. bmask j || shl1 i j)

-- The ends of a range, in order.
abbrev pub lower : ℕ → ℕ → ℕ
lower a b = if ltb b a then b else a

abbrev pub upper : ℕ → ℕ → ℕ
upper a b = if ltb b a then a else b

-- What a character leads to: an end, or the next place.
pub data Step : Type 0 where
  stop : Leased → Step
  go : Place → (ℕ → Bool) → Step

-- A number or a range, and the end of the text or a separator behind it.
unfoldable pub marked : Shift → ℕ → ℕ → (ℕ → Bool) → Step
unfolding mark
marked shl1 low high bmask = go start (mark shl1 (high + 1 - low) low bmask)

-- One character. The tests `digit1 <= 0 && digit1 > 30` are never true.
unfoldable pub fv_step : Shift → Place → (ℕ → Bool) → ℕ → Step
unfolding marked
fv_step shl1 start bmask x = if isdigit x then go (first (x - 48)) bmask else stop (refused 3)
fv_step shl1 (first d) bmask x =
    if isdigit x
    then go (first (d * 10 + (x - 48))) bmask
    else if separates x
    then marked shl1 d d bmask
    else if x == 45
    then go (dash d) bmask
    else stop (refused 5)
fv_step shl1 (dash d) bmask x = if isdigit x then go (second d (x - 48)) bmask else stop (refused 3)
fv_step shl1 (second d e) bmask x =
    if isdigit x
    then go (second d (e * 10 + (x - 48))) bmask
    else if separates x
    then marked shl1 (lower d e) (upper d e) bmask
    else stop (refused 6)

-- The end of the text.
unfoldable pub fv_end : Shift → Place → (ℕ → Bool) → Step
unfolding marked
fv_end shl1 start bmask = go start bmask
fv_end shl1 (first d) bmask = marked shl1 d d bmask
fv_end shl1 (dash d) bmask = stop (refused 3)
fv_end shl1 (second d e) bmask = marked shl1 (lower d e) (upper d e) bmask

-- The second loop of `decodeFVteln`.
unfoldable pub decode_channels : Shift → Bool → Place → (ℕ → Bool) → List ℕ → Leased
unfolding fv_step fv_end
decode_channels shl1 active place bmask [] = elim (fv_end shl1 place bmask) [
  | stop r ↦ r
  | go _ result ↦ channels result active
]
decode_channels shl1 active place bmask (x ∷ xs) = elim (fv_step shl1 place bmask x) [
  | stop r ↦ r
  | go place' bmask' ↦ decode_channels shl1 active place' bmask' xs
]

-- `while (*s && *s == ' ') s++;`
unfoldable pub skip_blanks : List ℕ → List ℕ
skip_blanks [] = []
skip_blanks (x ∷ xs) = let rest = skip_blanks xs in if x == 32 then rest else x ∷ xs

-- An `a` or `A` that is there is skipped, and makes the line active.
unfoldable pub decode_active : Shift → Bool → List ℕ → Leased
unfolding decode_channels
decode_active shl1 active [] = decode_channels shl1 active start (λ _. false) []
decode_active shl1 active (x ∷ xs) =
    if (x == 97) || (x == 65)
    then decode_channels shl1 true start (λ _. false) xs
    else decode_channels shl1 active start (λ _. false) (x ∷ xs)

-- A `p` or `P` that is there makes it passive.
unfoldable pub decode_passive : Shift → List ℕ → Leased
unfolding decode_active
decode_passive shl1 [] = refused 2
decode_passive shl1 (x ∷ xs) =
    if (x == 112) || (x == 80)
    then decode_active shl1 false xs
    else decode_active shl1 true (x ∷ xs)

-- `decodeFVteln`.
unfoldable pub decode_fv_teln : Shift → List ℕ → Leased
unfolding skip_blanks decode_passive
decode_fv_teln shl1 (f ∷ v ∷ colon ∷ xs) =
    if (f == 70) && ((v == 86) && (colon == 58))
    then decode_passive shl1 (skip_blanks xs)
    else not_leased
decode_fv_teln shl1 _ = not_leased

-- The bytes of the channel mask, from channel `i` on.
unfoldable pub mask_bytes : (ℕ → Bool) → ℕ → ℕ → List ℕ
mask_bytes bmask zero i = []
mask_bytes bmask (suc left) i = (if bmask i then 0xff else 0) ∷ mask_bytes bmask left (i + 1)

-- `AdditionalInfo` of `FVteln2capi20`.
unfoldable pub additional_info_of : (ℕ → Bool) → Bool → CStruct
unfolding mask_bytes
additional_info_of bmask active =
    structure (35 ∷ 3 ∷ 0 ∷ (if active then 0 else 1) ∷ 0 ∷ 0 ∷ mask_bytes bmask 30 1)
