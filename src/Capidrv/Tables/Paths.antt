-- ===== src/Capidrv/Tables/Paths.antt =====
-- The graphs of the state machines of linux/drivers/isdn/capi/capidrv.c.
use capi4linux.Prelude.{
  ℕ, ◌≡◌, ◌<◌, refl, true, none, some, List, [], ◌∷◌, ◌==◌, ==_iff, if◌then◌else◌, all_below,
  all_below_sound,
}
use capi4linux.Capidrv.Tables.{Row, find_row, plcitable, nccitable}

-- The state after an event; an event with no row changes nothing.
unfoldable pub next_state : List Row → ℕ → ℕ → ℕ
unfolding find_row
next_state table state event = elim (find_row state event table) [
  | none ↦ state
  | some r ↦ r.nextstate
]

-- The state after a list of events.
unfoldable pub run_events : List Row → ℕ → List ℕ → ℕ
unfolding next_state
run_events table state [] = state
run_events table state (e ∷ es) = run_events table (next_state table state e) es

-- A way from each PLCI state to P-0.
abbrev pub plci_way : ℕ → List ℕ
plci_way state =
    if state == 0
    then []
    else if state == 1
    then 2 ∷ []
    else if state == 9
    then 15 ∷ []
    else if state == 10
    then 16 ∷ 9 ∷ 11 ∷ []
    else if state == 11
    then 18 ∷ 9 ∷ 11 ∷ []
    else if state == 8
    then 11 ∷ []
    else 9 ∷ 11 ∷ []

abbrev pub ncci_way : ℕ → List ℕ
ncci_way state =
    if state == 0
    then []
    else if state == 1
    then 4 ∷ []
    else if state == 7
    then 13 ∷ []
    else 10 ∷ 13 ∷ []

plci_ways : all_below 12 (λ s. run_events plcitable s (plci_way s) == 0) ≡ true
unfolding all_below run_events
plci_ways = refl

ncci_ways : all_below 8 (λ s. run_events nccitable s (ncci_way s) == 0) ≡ true
unfolding all_below run_events
ncci_ways = refl

-- From every PLCI state some events lead back to P-0.
pub plcitable-liveness :
    (state : ℕ) → state < 12 → (es : List ℕ) × (run_events plcitable state es ≡ 0)
plcitable-liveness state h =
    (plci_way state, (==_iff _ _).0 (all_below_sound 12 _ state plci_ways h))
