-- ===== src/Core/Numbers.antt =====
-- The numbers of applications and devices: the loops of `add_capi_appl` and `add_capi_device` in
-- linux/drivers/isdn/capi/core.c.
pub mod Free
use capi4linux.Prelude.{
  ℕ, zero, suc, ◌+◌, ◌%◌, Option, none, some, List, [], ◌∷◌, set, ltb, if◌then◌else◌,
}
use capi4linux.Core.State.{Appl, Device}

-- `id` where the loop over the list stops; it is a `u16`.
unfoldable pub free_id : ℕ → List Appl → ℕ
free_id id [] = id
free_id id (a ∷ xs) = if ltb id a.id then id else free_id ((id + 1) % 65536) xs

-- `list_add_tail(&appl->entry, &a->entry)` for the `a` where the loop stops.
unfoldable pub insert_at : ℕ → Appl → List Appl → List Appl
insert_at id x [] = x ∷ []
insert_at id x (a ∷ xs) = if ltb id a.id then x ∷ a ∷ xs else a ∷ insert_at ((id + 1) % 65536) x xs

-- `add_capi_appl`, with `CAPI_MAX_APPLS`. It returns the number, 0 for a failure, and the list.
unfoldable pub add_capi_appl : ℕ → Appl → List Appl → ℕ × List Appl
unfolding free_id insert_at
add_capi_appl max_appls x xs =
    let id = free_id 1 xs in
    if ltb max_appls id then (0, xs) else (id, insert_at 1 (record x { id = id }) xs)

-- The loop of `add_capi_device`: the first empty slot from `i` on.
unfoldable pub free_slot : ℕ → List (Option Device) → Option ℕ
free_slot i [] = none
free_slot i (none ∷ t) = some i
free_slot i (some d ∷ t) = free_slot (suc i) t

-- `add_capi_device`: the first empty slot takes the device; the number is the slot's plus one, and
-- 0 if there is none. The table has `CAPI_MAX_DEVS` slots.
unfoldable pub add_capi_device : Device → List (Option Device) → ℕ × List (Option Device)
unfolding free_slot
add_capi_device dev t = elim (free_slot 0 t) [
  | none ↦ (0, t)
  | some i ↦ (i + 1, set t i (some dev))
]
