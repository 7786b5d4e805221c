-- ===== src/Examples/Registry.antt =====
-- A registry for linux/drivers/isdn/capi/core.c with one device and one application.
use capi4linux.Prelude.{
  ℕ, zero, suc, ◌+◌, ◌-◌, ◌<◌, ◌≤◌, ◌≡◌, refl, ap, Bool, true, false, none, some, List, [], ◌∷◌,
  ◌==◌, length, arith, ltb→lt, leb→le, inl, inr, Bool-cases,
}
use capi4linux.Core.State.{Appl, Device, Core, Driver}
use capi4linux.Core.Numbers.{add_capi_appl, insert_at}
use capi4linux.Core.Numbers.Free.{
  Numbered, Consecutive, add_capi_appl-Numbered, add_capi_appl-wraps,
}
use capi4linux.Core.Registry.{
  slot_at, listed, FindNextBit, capi_device_alloc, capi_device_register, unregister_capi_device,
  driver_put, capi_release, capi_register,
}
use capi4linux.Core.Registry.Invariant.{Inv, bit, holders, slot_refs, slot_readable}
use capi4linux.Core.Registry.Devices.{capi_device_register-Inv, unregister_capi_device-Inv}
use capi4linux.Core.Registry.Put.{driver_put-Inv}
use capi4linux.Core.Registry.Register.{Registered, capi_register-Registered}
use capi4linux.Core.Registry.Release.{GaveBack, capi_release-GaveBack}

-- A `find_next_bit`.
next_bit : ℕ → (ℕ → Bool) → ℕ → ℕ
next_bit zero bits off = off
next_bit (suc n) bits off = elim (bits off) [ true ↦ off | false ↦ next_bit n bits (suc off) ]

next_bit-from : (n : ℕ) (bits : ℕ → Bool) (off : ℕ) → off ≤ next_bit n bits off
unfolding next_bit
next_bit-from zero bits off = omega arith
next_bit-from (suc n) bits off = elim (Bool-cases (bits off)) [
  | inl on ↦ rw (on, next_bit) (omega arith)
  | inr clear ↦ rw (clear, next_bit) (omega (arith, next_bit-from n bits (suc off)))
]

next_bit-found :
    (n : ℕ) (bits : ℕ → Bool) (off : ℕ)
    → next_bit n bits off < off + n
    → bits (next_bit n bits off) ≡ true
unfolding next_bit
next_bit-found zero bits off h = absurd (omega arith)
next_bit-found (suc n) bits off h = elim (Bool-cases (bits off)) [
  | inl on ↦ rw (on, next_bit) on
  | inr clear ↦
      let h' : next_bit n bits (suc off) < off + suc n = (rw (clear, next_bit) at h) in
      rw (clear, next_bit) (next_bit-found n bits (suc off) (omega arith))
]

next_bit-skips :
    (n : ℕ) (bits : ℕ → Bool) (off j : ℕ) → off ≤ j → j < next_bit n bits off → bits j ≡ false
unfolding next_bit
next_bit-skips zero bits off j le lt = absurd (omega arith)
next_bit-skips (suc n) bits off j le lt = elim (Bool-cases (bits off)) [
  | inl on ↦ let lt' : j < off = (rw (on, next_bit) at lt) in absurd (omega arith)
  | inr clear ↦
      let lt' : j < next_bit n bits (suc off) = (rw (clear, next_bit) at lt) in
      elim (Bool-cases (off == j)) [
        | inl same ↦ ground arith
        | inr other ↦ next_bit-skips n bits (suc off) j (ground arith) lt'
      ]
]

abbrev find_next_bit : FindNextBit
find_next_bit = record {
  run = λ bits size off. next_bit (size - off) bits off;
  from = λ bits size off le. next_bit-from (size - off) bits off;
  found = λ bits size off h.
      next_bit-found (size - off) bits off (omega (arith, next_bit-from (size - off) bits off));
  skips = λ bits size off j le lt below. next_bit-skips (size - off) bits off j le lt;
}

abbrev dev0 : Device
dev0 = record capi_device_alloc { refs = 3; readable = true }

abbrev pub appl1 : Appl
appl1 = record {
  id = 1;
  sig = 5;
  sig_param = 6;
  msg_queue = [];
  info = 0;
  devs = λ j. j == 0;
  stats = record { rx_bytes = 0; tx_bytes = 0; rx_packets = 0; tx_packets = 0 };
  datablklen = 2048;
}

-- The device is held by its listing, by the application, and once more by its driver.
abbrev pub one_of_each : Core
one_of_each = record {
  table = some dev0 ∷ none ∷ [];
  devs_list = 0 ∷ [];
  appls = appl1 ∷ [];
  nr_devs = 1;
}

pub one_of_each-Inv : Inv 8 one_of_each
one_of_each-Inv = record {
  ids = (ltb→lt 0 1 refl, tt);
  id_bound = (leb→le 1 8 refl, tt);
  counted = counted;
  readable = readable;
  number = refl;
  once = (refl, tt);
}
  where
    counted :
        (i : ℕ)
        → holders i one_of_each.appls + bit (listed i one_of_each.devs_list)
          ≤ slot_refs (slot_at one_of_each.table i)
    counted zero = leb→le 2 3 refl
    counted (suc zero) = leb→le 0 0 refl
    counted (suc (suc i)) = ground arith

    readable :
        (i : ℕ)
        → listed i one_of_each.devs_list ≡ true
        → slot_readable (slot_at one_of_each.table i) ≡ true
    readable zero h = refl
    readable (suc i) h = ground arith

-- A driver that accepts everything.
abbrev pub willing : Driver
willing = record { capi_register = λ _ _. 0; capi_put_message = λ _ _ _. 0 }

abbrev no_error : ℕ → ℕ
no_error _ = 0

capi_release-GaveBack_example :
    (called : List ℕ) × (info : ℕ) × (s' : Core) × (capi_release find_next_bit appl1 one_of_each
      ≡ some (called, info, s'))
    × GaveBack appl1 8 one_of_each called info s'
capi_release-GaveBack_example =
    capi_release-GaveBack find_next_bit 8 appl1 one_of_each one_of_each-Inv refl

capi_register-Registered_example :
    Registered 8 one_of_each (capi_register willing 8 (some appl1) one_of_each)
capi_register-Registered_example =
    capi_register-Registered willing 8 (ltb→lt 8 65535 refl) one_of_each one_of_each-Inv
      (some appl1)

capi_device_register-Inv_example :
    Inv 8 (capi_device_register willing no_error (some capi_device_alloc) one_of_each).1
capi_device_register-Inv_example =
    capi_device_register-Inv 8 no_error one_of_each one_of_each-Inv willing (some capi_device_alloc)
      (inl (ltb→lt 0 1 refl))

unregister_capi_device-Inv_example : Inv 8 (unregister_capi_device 0 one_of_each)
unregister_capi_device-Inv_example = unregister_capi_device-Inv 8 one_of_each one_of_each-Inv 0 refl

driver_put-Inv_example : Inv 8 (driver_put 0 one_of_each)
driver_put-Inv_example = driver_put-Inv 8 one_of_each 0 one_of_each-Inv (ltb→lt 2 3 refl)

add_capi_appl-Numbered_example :
    Numbered 8 one_of_each.appls (add_capi_appl 8 appl1 one_of_each.appls)
add_capi_appl-Numbered_example =
    add_capi_appl-Numbered 8 appl1 one_of_each.appls (ltb→lt 8 65535 refl) one_of_each-Inv.ids
      one_of_each-Inv.id_bound

-- Applications with the `n` numbers after `lo`.
chain : ℕ → ℕ → List Appl
chain lo zero = []
chain lo (suc n) = record appl1 { id = suc lo } ∷ chain (suc lo) n

chain-Consecutive : (lo n : ℕ) → Consecutive lo (chain lo n)
unfolding chain
chain-Consecutive lo zero = tt
chain-Consecutive lo (suc n) = (refl, chain-Consecutive (suc lo) n)

length-chain : (lo n : ℕ) → length (chain lo n) ≡ n
unfolding chain
length-chain lo zero = refl
length-chain lo (suc n) = ap suc (length-chain (suc lo) n)

add_capi_appl-wraps_example :
    (add_capi_appl 65535 appl1 (chain 0 65535)
      ≡ (0, insert_at 1 (record appl1 { id = 0 }) (chain 0 65535)))
    × (length (add_capi_appl 65535 appl1 (chain 0 65535)).1 ≡ 65536)
add_capi_appl-wraps_example =
    add_capi_appl-wraps appl1 (chain 0 65535) (chain-Consecutive 0 65535) (length-chain 0 65535)
