-- ===== src/Capidrv/Handlers/Calls/Free.antt =====
-- The search of `new_bchan` of linux/drivers/isdn/capi/capidrv.c.
use capi4linux.Prelude.{
  ℕ, zero, suc, ◌+◌, ◌<◌, ◌≤◌, ◌≡◌, refl, sym, ap, ◌∙◌, ◌⊎◌, inl, inr, true, false, Option, none,
  some, ◌==◌, ==_iff, arith, Bool-cases, Option-cases, lt→ltb,
}
use mathlib.Core.Bool.{false≢true}
use capi4linux.Cmsg.Struct.{update, update_self, update_other}
use capi4linux.Capidrv.Card.{Bchan, Card, set_bchan}
use capi4linux.Capidrv.Handlers.Calls.{has_plci, free_chan, found_chan, new_bchan}

pub no_plci : (b : Bchan) → has_plci b ≡ false → b.plcip ≡ none
no_plci b h = elim (Option-cases b.plcip) [
  | inl e ↦ e
  | inr (p, e) ↦ absurd (false≢true (sym (rw e at h)))
]

-- The channels from `i` to before `c` are in use.
abbrev Used : (ℕ → Bchan) → ℕ → ℕ → Type 0
Used bchans i c = (j : ℕ) → i ≤ j → j < c → has_plci (bchans j) ≡ true

widen :
    (bchans : ℕ → Bchan) (i c : ℕ)
    → has_plci (bchans i) ≡ true
    → Used bchans (i + 1) c
    → Used bchans i c
widen bchans i c here rest j low high = elim (Bool-cases (j == i)) [
  | inl same ↦ ap (λ x. has_plci (bchans x)) ((==_iff j i).0 same) ∙ here
  | inr other ↦ rest j (ground arith) high
]

-- The loop finds the first channel that is left and has no PLCI.
free_chan-first :
    (bchans : ℕ → Bchan) (left i : ℕ)
    → ((free_chan bchans left i ≡ none) × Used bchans i (i + left))
      ⊎ ((c : ℕ) × (free_chan bchans left i ≡ some c)
          × (c < i + left)
          × (has_plci (bchans c) ≡ false)
          × Used bchans i c)
unfolding free_chan
free_chan-first bchans zero i = inl (refl, λ j low high. absurd (omega arith))
free_chan-first bchans (suc left) i = elim (Bool-cases (has_plci (bchans i))) [
  | inr free ↦ inr (i, rw free refl, (omega arith), free, λ j low high. absurd (omega arith))
  | inl used ↦ elim (free_chan-first bchans left (i + 1)) [
    | inl (e, all) ↦
        inl (rw used e, widen bchans i (i + suc left) used (λ j low high. all j low (omega arith)))
    | inr (c, e, inside, free, before) ↦
        inr (c, rw used e, (omega arith), free, widen bchans i c used before)
  ]
]

-- A channel with a PLCI.
abbrev pub Taken : Card → ℕ → Type 0
Taken s c = (p : ℕ) × ((s.bchans c).plcip ≡ some p)

-- All channels have a PLCI, and nothing is written; or one is the first without, and only its
-- `disconnecting` is written.
abbrev pub FirstFree : Card → Option (Option ℕ × Card) → Type 0
FirstFree s r =
    ((r ≡ some (none, s)) × ((j : ℕ) → j < s.nbchan → Taken s j))
    ⊎ ((c : ℕ) × (s' : Card) × (r ≡ some (some c, s'))
        × (c < s.nbchan)
        × ((s.bchans c).plcip ≡ none)
        × ((j : ℕ) → j < c → Taken s j)
        × (s'.bchans c ≡ record (s.bchans c) { disconnecting = false })
        × ((j : ℕ) → (j == c) ≡ false → s'.bchans j ≡ s.bchans j))

taken : (s : Card) (c : ℕ) → has_plci (s.bchans c) ≡ true → Taken s c
taken s c h = elim (Option-cases (s.bchans c).plcip) [
  | inl e ↦ absurd (false≢true ((rw e at h)))
  | inr (p, e) ↦ (p, e)
]

-- new_bchan gives -1 and writes nothing when every channel of the controller has a PLCI, and
-- otherwise the first channel that has none, of which it clears disconnecting and nothing else;
-- the other channels stay as they are.
pub new_bchan-first : (s : Card) → FirstFree s (new_bchan s)
unfolding new_bchan found_chan set_bchan
new_bchan-first s = elim (free_chan-first s.bchans s.nbchan 0) [
  | inl (e, used) ↦ inl ((rw e refl), λ j h. taken s j (used j (omega arith) (omega arith)))
  | inr (c, e, below, free, used) ↦
      let inside : c < s.nbchan = omega arith in
      let b = record (s.bchans c) { disconnecting = false } in
      inr (
        c,
        record s { bchans = update c b s.bchans },
        (rw (e, lt→ltb c s.nbchan inside) refl),
        inside,
        no_plci (s.bchans c) free,
        λ j h. taken s j (used j (omega arith) h),
        update_self c b s.bchans,
        λ j other. update_other c j b s.bchans other,
      )
]
