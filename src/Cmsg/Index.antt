-- ===== src/Cmsg/Index.antt =====
-- Which rows of the tables of linux/drivers/isdn/capi/capiutil.c the commands of
-- linux/include/linux/isdn/capicmd.h select.
use capi4linux.Prelude.{
  ℕ, ◌≤◌, ◌<◌, ◌≡◌, refl, ◌⊎◌, inl, inr, Bool, true, false, none, some, List, [], ◌∷◌, bit_and,
  ◌==◌, ltb, leb, ltb→lt, get_elem?, all_below, all_below_sound, all_of, all_of_sound, distinct,
  distinct_sound, arith, if◌then◌else◌,
}
use capi4linux.Cmsg.Table.{cpars, command_2_index}

-- `CAPI_DISCONNECT_REQ` and the other combined commands, as command and subcommand, but for those of
-- `unused_commands`.
abbrev pub commands : List (ℕ × ℕ)
commands =
    (0x04, 0x80)
    ∷ (0x04, 0x81)
    ∷ (0x04, 0x82)
    ∷ (0x04, 0x83)
    ∷ (0x01, 0x80)
    ∷ (0x01, 0x81)
    ∷ (0x02, 0x80)
    ∷ (0x02, 0x81)
    ∷ (0x02, 0x82)
    ∷ (0x02, 0x83)
    ∷ (0x03, 0x82)
    ∷ (0x03, 0x83)
    ∷ (0x41, 0x80)
    ∷ (0x41, 0x81)
    ∷ (0x83, 0x82)
    ∷ (0x83, 0x83)
    ∷ (0x82, 0x80)
    ∷ (0x82, 0x81)
    ∷ (0x82, 0x82)
    ∷ (0x82, 0x83)
    ∷ (0x88, 0x82)
    ∷ (0x88, 0x83)
    ∷ (0x86, 0x80)
    ∷ (0x86, 0x81)
    ∷ (0x86, 0x82)
    ∷ (0x86, 0x83)
    ∷ (0x84, 0x80)
    ∷ (0x84, 0x81)
    ∷ (0x84, 0x82)
    ∷ (0x84, 0x83)
    ∷ (0x87, 0x80)
    ∷ (0x87, 0x81)
    ∷ (0x87, 0x82)
    ∷ (0x87, 0x83)
    ∷ (0x05, 0x80)
    ∷ (0x05, 0x81)
    ∷ (0xff, 0x80)
    ∷ (0xff, 0x81)
    ∷ (0xff, 0x82)
    ∷ (0xff, 0x83)
    ∷ (0x80, 0x80)
    ∷ (0x80, 0x81)
    ∷ (0x80, 0x82)
    ∷ (0x80, 0x83)
    ∷ (0x08, 0x80)
    ∷ (0x08, 0x81)
    ∷ (0x08, 0x82)
    ∷ (0x08, 0x83)
    ∷ []

-- The requests and confirmations of CONNECT_ACTIVE and CONNECT_B3_ACTIVE.
abbrev pub unused_commands : List (ℕ × ℕ)
unused_commands = (0x03, 0x80) ∷ (0x03, 0x81) ∷ (0x83, 0x80) ∷ (0x83, 0x81) ∷ []

index : ℕ × ℕ → ℕ
index (c, sc) = command_2_index c sc

has_row : ℕ × ℕ → Bool
has_row x = elim (cpars (index x)) [ none ↦ false | some par ↦ true ]

commands_have_rows : all_of has_row commands ≡ true
unfolding all_of has_row index cpars command_2_index
commands_have_rows = refl

commands-distinct : distinct index commands ≡ true
unfolding distinct all_of index command_2_index
commands-distinct = refl

row_of : (x : ℕ × ℕ) → has_row x ≡ true → (par : List ℕ) × (cpars (index x) ≡ some par)
unfolding has_row
row_of x h = ground arith

-- A command and subcommand that select no row.
unfoldable pub lacks_row : ℕ × ℕ → Bool
unfolding cpars command_2_index
lacks_row (c, sc) = elim (cpars (command_2_index c sc)) [ none ↦ true | some par ↦ false ]

unused_lack_rows : all_of lacks_row unused_commands ≡ true
unfolding all_of lacks_row
unused_lack_rows = refl

-- Each of the 48 commands of CAPI has a parameter string, and no two of them share an index; the
-- requests and confirmations of CONNECT_ACTIVE and CONNECT_B3_ACTIVE have none.
pub command_2_index-commands :
    (i j c sc c' sc' : ℕ)
    → get_elem? commands i ≡ some (c, sc)
    → get_elem? commands j ≡ some (c', sc')
    → ((par : List ℕ) × (cpars (command_2_index c sc) ≡ some par))
      × (command_2_index c sc ≡ command_2_index c' sc' → i ≡ j)
      × (all_of lacks_row unused_commands ≡ true)
unfolding index
command_2_index-commands i j c sc c' sc' e e' = (
  row_of (c, sc) (all_of_sound has_row commands i (c, sc) commands_have_rows e),
  λ same. distinct_sound index commands i j (c, sc) (c', sc') commands-distinct e e' same,
  unused_lack_rows,
)

low_nibble_table : all_below 256 (λ c. ltb (bit_and c 0x0f) 16) ≡ true
unfolding all_below
low_nibble_table = refl

low_bits_table : all_below 256 (λ c. ltb (bit_and c 3) 4) ≡ true
unfolding all_below
low_bits_table = refl

top_bit_table :
    all_below 256 (λ c. if leb 0x80 c then ltb 0 (bit_and c 0x80) else bit_and c 0x80 == 0) ≡ true
unfolding all_below
top_bit_table = refl

top_bit_set : (c : ℕ) → c < 256 → 0x80 ≤ c → ltb 0 (bit_and c 0x80) ≡ true
top_bit_set c h big = let t = all_below_sound 256 _ c top_bit_table h in ground arith

top_bit_clear : (c : ℕ) → c < 0x80 → ltb 0 (bit_and c 0x80) ≡ false
top_bit_clear c small = let t = all_below_sound 256 _ c top_bit_table (omega arith) in ground arith

-- For command bytes below 0x10, from 0x80 on, or 0x41, the index is inside the table of 0x4f
-- entries.
pub command_2_index-lt :
    (c sc : ℕ)
    → c < 256
    → sc < 256
    → (c < 0x10) ⊎ ((c ≡ 0x41) ⊎ (0x80 ≤ c))
    → command_2_index c sc < 0x4f
unfolding command_2_index
command_2_index-lt c sc hc hsc known =
    let nib = ltb→lt _ _ (all_below_sound 256 _ c low_nibble_table hc) in
    let low = ltb→lt _ _ (all_below_sound 256 _ sc low_bits_table hsc) in
    elim known [
      | inl small ↦ let clear = top_bit_clear c (omega arith) in ground arith
      | inr (inl sel) ↦ let clear = top_bit_clear c (omega arith) in ground arith
      | inr (inr big) ↦ let on = top_bit_set c hc big in ground arith
    ]

-- For command bytes 0x4f to 0x7f the index is outside the table.
pub command_2_index-outside : (c sc : ℕ) → 0x4f ≤ c → c < 0x80 → 0x4f ≤ command_2_index c sc
unfolding command_2_index
command_2_index-outside c sc lo hi = let clear = top_bit_clear c hi in ground arith
