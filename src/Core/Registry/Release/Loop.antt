-- ===== src/Core/Registry/Release/Loop.antt =====
-- The loop of `capi_release` of linux/drivers/isdn/capi/core.c.
use capi4linux.Prelude.{
  ℕ, zero, suc, ◌+◌, ◌-◌, ◌<◌, ◌≤◌, ◌≡◌, ◌≢◌, refl, ◌∙◌, ◌⊎◌, inl, inr, Bool, true, false, ◌&&◌,
  ◌||◌, Option, none, some, List, [], ◌∷◌, ◌==◌, ltb, if◌then◌else◌, arith, Bool-cases, ==_iff,
  ltb→lt,
}
use capi4linux.Core.State.{Device}
use capi4linux.Core.Registry.{
  Table, slot_at, listed, update_slot, capi_device_put, FindNextBit, release_loop,
}
use capi4linux.Core.Registry.Invariant.{Once, bit, slot_refs, slot_readable}
use capi4linux.Core.Registry.Grows.{refs_at}
use capi4linux.Core.Registry.Put.{refs_at-put, readable-put}

-- A number is below, at, or above another one.
order_cases : (j k : ℕ) → (j < k) ⊎ (j ≡ k) ⊎ (k + 1 ≤ j)
order_cases j k = elim (Bool-cases (ltb j k)) [
  | inl below ↦ inl (ltb→lt j k below)
  | inr not_below ↦ elim (Bool-cases (j == k)) [
    | inl same ↦ inr (inl ((==_iff j k).0 same))
    | inr other ↦ inr (inr (ground arith))
  ]
]

-- What the loop from bit `i` on does.
pub record Released (bits : ℕ → Bool) (devs_list : List ℕ) (i : ℕ) (t : Table) (called : List ℕ)
    (t' : Table) : Type 0 where
  pub drops : (j : ℕ) → i ≤ j → refs_at t' j + bit (bits j) ≡ refs_at t j
  pub keeps : (j : ℕ) → j < i → refs_at t' j ≡ refs_at t j
  pub readable :
      (j : ℕ) → 0 < refs_at t' j → slot_readable (slot_at t' j) ≡ slot_readable (slot_at t j)
  pub calls : (j : ℕ) → i ≤ j → listed j called ≡ (bits j && listed j devs_list)
  pub before : (j : ℕ) → j < i → listed j called ≡ false
  pub once : Once called

-- The bits from `i` on belong to devices that are there.
abbrev pub BitsPresent : (ℕ → Bool) → ℕ → ℕ → Table → Type 0
BitsPresent bits max_devs i t = (j : ℕ) → i ≤ j → bits j ≡ true → (j < max_devs) × (0 < refs_at t j)

module _ (fnb : FindNextBit) (max_devs : ℕ) (bits : ℕ → Bool) (devs_list : List ℕ) where
  -- No bit is set any more.
  Released-end :
      (i : ℕ) (t : Table)
      → BitsPresent bits max_devs i t
      → i ≤ max_devs
      → ltb (fnb.run bits max_devs i) max_devs ≡ false
      → Released bits devs_list i t [] t
  Released-end i t p le h =
      let off : (j : ℕ) → i ≤ j → bits j ≡ false = λ j ij. elim (Bool-cases (bits j)) [
        | inl on ↦
            let past : j < fnb.run bits max_devs i = ground (arith, (p j ij on).0) in
            fnb.skips bits max_devs i j ij past (p j ij on).0
        | inr o ↦ o
      ] in
      record {
        drops = λ j ij. rw (off j ij) (omega arith);
        keeps = λ j ji. refl;
        readable = λ j h. refl;
        calls = λ j ij. rw (off j ij) refl;
        before = λ j ji. refl;
        once = tt;
      }

  -- Bit `k` is the next one.
  record IsNext (i k : ℕ) : Type 0 where
    from : i ≤ k
    on : bits k ≡ true
    skips : (j : ℕ) → i ≤ j → j < k → bits j ≡ false

  run-IsNext :
      (i : ℕ)
      → i ≤ max_devs
      → ltb (fnb.run bits max_devs i) max_devs ≡ true
      → IsNext i (fnb.run bits max_devs i)
  run-IsNext i le h =
      let below : fnb.run bits max_devs i < max_devs =
        ltb→lt (fnb.run bits max_devs i) max_devs h in
      record {
        from = fnb.from bits max_devs i le;
        on = fnb.found bits max_devs i below;
        skips = λ j ij jk. fnb.skips bits max_devs i j ij jk (omega arith);
      }

  module _ (i k : ℕ) (next : IsNext i k) (t : Table) where
    abbrev put_table : Table
    put_table = update_slot k capi_device_put t

    put_self : refs_at put_table k ≡ refs_at t k - 1
    put_self = let same : (k == k) ≡ true = ground arith in refs_at-put k t k ∙ (rw same refl)

    put_ne : (j : ℕ) → j ≢ k → refs_at put_table j ≡ refs_at t j
    put_ne j ne =
        let other : (j == k) ≡ false = ground arith in refs_at-put k t j ∙ (rw other (omega arith))

    put-BitsPresent : BitsPresent bits max_devs i t → BitsPresent bits max_devs (k + 1) put_table
    put-BitsPresent p j kj on =
        let q = p j (omega (arith, next.from)) on in
        (q.0, omega (arith, q.1, put_ne j (omega arith)))

    module _ (called : List ℕ) (t' : Table)
        (r : Released bits devs_list (k + 1) put_table called t') (present : 0 < refs_at t k) where
      abbrev all_called : List ℕ
      all_called = if listed k devs_list then k ∷ called else called

      step-drops : (j : ℕ) → i ≤ j → refs_at t' j + bit (bits j) ≡ refs_at t j
      step-drops j ij = elim (order_cases j k) [
        | inl below ↦
            rw (next.skips j ij below)
              (omega (arith, r.keeps j (omega arith), put_ne j (omega arith)))
        | inr (inl at) ↦
            rw (at, next.on) (omega (arith, r.keeps k (omega arith), put_self, present))
        | inr (inr above) ↦ omega (arith, r.drops j above, put_ne j (omega arith))
      ]

      -- The loop only lowers counters.
      step-lowers : (j : ℕ) → refs_at t' j ≤ refs_at put_table j
      step-lowers j = elim (order_cases j k) [
        | inl below ↦ omega (arith, r.keeps j (omega arith))
        | inr (inl at) ↦ omega (arith, r.keeps j (omega arith))
        | inr (inr above) ↦ omega (arith, r.drops j above)
      ]

      step-readable :
          (j : ℕ) → 0 < refs_at t' j → slot_readable (slot_at t' j) ≡ slot_readable (slot_at t j)
      step-readable j h =
          r.readable j h ∙ readable-put k t j (omega (arith, step-lowers j, h, refs_at-put k t j))

      listed-all_called :
          (j : ℕ) → listed j all_called ≡ (((k == j) && listed k devs_list) || listed j called)
      listed-all_called j = ground arith

      step-calls : (j : ℕ) → i ≤ j → listed j all_called ≡ (bits j && listed j devs_list)
      step-calls j ij = elim (order_cases j k) [
        | inl below ↦
            let other : (k == j) ≡ false = ground arith in
            listed-all_called j ∙ (rw (other, r.before j (omega arith), next.skips j ij below) refl)
        | inr (inl at) ↦
            let same : (k == k) ≡ true = ground arith in
            rw (at, listed-all_called k, same, r.before k (omega arith), next.on) (ground arith)
        | inr (inr above) ↦
            let other : (k == j) ≡ false = ground arith in
            listed-all_called j ∙ (rw other (r.calls j above))
      ]

      Released-step : Released bits devs_list i t all_called t'
      Released-step = record {
        drops = step-drops;
        keeps = λ j ji. r.keeps j (omega (arith, next.from)) ∙ put_ne j (omega (arith, next.from));
        readable = step-readable;
        calls = step-calls;
        before = λ j ji.
            let other : (k == j) ≡ false = ground (arith, next.from) in
            listed-all_called j ∙ (rw (other, r.before j (omega (arith, next.from))) refl);
        once = elim (Bool-cases (listed k devs_list)) [
          | inl on ↦ rw on (r.before k (omega arith), r.once)
          | inr off ↦ rw off r.once
        ];
      }

  release_loop-end :
      (fuel : ℕ) (t : Table) (i : ℕ)
      → ltb (fnb.run bits max_devs i) max_devs ≡ false
      → release_loop fnb max_devs bits devs_list (suc fuel) t i ≡ some ([], t)
  unfolding release_loop
  release_loop-end fuel t i h = rw (h, release_loop) refl

  -- One turn of the loop, for a device that is there.
  release_loop-step :
      (fuel : ℕ) (t : Table) (i : ℕ) (dev : Device) (called : List ℕ) (t' : Table)
      → ltb (fnb.run bits max_devs i) max_devs ≡ true
      → slot_at t (fnb.run bits max_devs i) ≡ some dev
      → release_loop fnb max_devs bits devs_list fuel
          (update_slot (fnb.run bits max_devs i) capi_device_put t)
          (fnb.run bits max_devs i + 1)
        ≡ some (called, t')
      → release_loop fnb max_devs bits devs_list (suc fuel) t i
        ≡ some (
          if listed (fnb.run bits max_devs i) devs_list
              then fnb.run bits max_devs i ∷ called
              else called,
          t',
        )
  unfolding release_loop
  release_loop-step fuel t i dev called t' h at rest = rw (h, at, rest, release_loop) refl

  present-some : (s : Option Device) → 0 < slot_refs s → (d : Device) × (s ≡ some d)
  present-some none h = absurd (omega arith)
  present-some (some d) h = (d, refl)

  pub release_loop-Released :
      (fuel : ℕ) (t : Table) (i : ℕ)
      → i ≤ max_devs
      → max_devs < fuel + i
      → BitsPresent bits max_devs i t
      → (called : List ℕ) × (t' : Table) × (release_loop fnb max_devs bits devs_list fuel t i
          ≡ some (called, t'))
        × Released bits devs_list i t called t'
  release_loop-Released zero t i le enough p = absurd (omega arith)
  release_loop-Released (suc fuel) t i le enough p =
      elim (Bool-cases (ltb (fnb.run bits max_devs i) max_devs)) [
        | inr none_left ↦
            ([], t, release_loop-end fuel t i none_left, Released-end i t p le none_left)
        | inl more ↦
            let k = fnb.run bits max_devs i in
            let next = run-IsNext i le more in
            let (below, present) = p k next.from next.on in
            let (dev, at) = present-some (slot_at t k) present in
            let (called, t', rest, r) =
              release_loop-Released fuel (put_table i k next t) (k + 1) (omega arith)
                (omega (arith, next.from)) (put-BitsPresent i k next t p) in
            (
              all_called i k next t called t' r present,
              t',
              release_loop-step fuel t i dev called t' more at rest,
              Released-step i k next t called t' r present,
            )
      ]
