-- ===== src/Core/Messages/Delivery.antt =====
-- What `capi_put_message` of linux/drivers/isdn/capi/core.c does with a message.
use capi4linux.Prelude.{
  ℕ, ◌+◌, ◌-◌, ◌<◌, ◌≤◌, ◌≡◌, refl, ◌∙◌, ap, inl, inr, true, false, Option, none, some, ◌==◌, ltb,
  length, arith, Bool-cases,
}
use capi4linux.Core.State.{Message, Appl, Device, Core, Driver}
use capi4linux.Core.Registry.{slot_at, listed}
use capi4linux.Core.Registry.Invariant.{Inv, bit, slot_refs, slot_readable}
use capi4linux.Core.Registry.Grows.{refs_at}
use capi4linux.Core.Registry.Release.{find_appl, holders-remove_appl, refs_at-outside}
use capi4linux.Core.Messages.{capimsg_controller, addresses, hand_over, capi_put_message}

-- The outcome of a transfer: refused by the capicore, or answered by the driver of a device that the
-- application is registered with and that is readable.
pub data Transfer (drv : Driver) (a : Appl) (msg : Message) (s : Core) : ℕ × Option ℕ → Type 0 where
  refused : (info : ℕ) → 0 < info → Transfer drv a msg s (info, none)
  passed :
      (i : ℕ)
      → capimsg_controller msg ≡ i + 1
      → a.devs i ≡ true
      → slot_readable (slot_at s.table i) ≡ true
      → Transfer drv a msg s (drv.capi_put_message (i + 1) a.id msg, some i)

module _ (drv : Driver) (max_appls : ℕ) (a : Appl) (msg : Message) (s : Core) (v : Inv max_appls s)
    (found : find_appl a.id s.appls ≡ some a) where
  -- A device with the application's bit is there.
  bit-present : (i : ℕ) → a.devs i ≡ true → 0 < refs_at s.table i
  bit-present i on = omega (arith, v.counted i, holders-remove_appl i a s.appls found, ap bit on)

  hand_over-Transfer :
      (i : ℕ) (slot : Option Device)
      → slot_at s.table i ≡ slot
      → capimsg_controller msg ≡ i + 1
      → a.devs i ≡ true
      → 0 < slot_refs slot
      → (r : ℕ × Option ℕ) × (hand_over drv a msg i slot ≡ some r) × Transfer drv a msg s r
  unfolding hand_over
  hand_over-Transfer i none at id on present = absurd (omega arith)
  hand_over-Transfer i (some dev) at id on present = elim (Bool-cases dev.readable) [
    | inl free ↦ (
      (drv.capi_put_message (i + 1) a.id msg, some i),
      (rw (free, hand_over) refl),
      passed i id on (ap slot_readable at ∙ free),
    )
    | inr locked ↦ ((0x1108, none), (rw (locked, hand_over) refl), refused 0x1108 (omega arith))
  ]

  hand_over-free :
      (i : ℕ) (slot : Option Device)
      → slot_readable slot ≡ true
      → hand_over drv a msg i slot ≡ some (drv.capi_put_message (i + 1) a.id msg, some i)
  unfolding hand_over
  hand_over-free i none free = cc
  hand_over-free i (some dev) free = rw (free, hand_over) refl

  -- Under the invariant, capi_put_message of a listed application never meets its BUG_ON: it is
  -- refused with an error and no driver is called, or the driver of the addressed, readable,
  -- registered device answers.
  pub capi_put_message-Transfer :
      (r : ℕ × Option ℕ) × (capi_put_message drv a (some msg) s ≡ some r) × Transfer drv a msg s r
  unfolding capi_put_message
  capi_put_message-Transfer = elim (Bool-cases (a.info == 0)) [
    | inr error ↦
        ((a.info, none), (rw (error, capi_put_message) refl), refused a.info (ground arith))
    | inl fine ↦ elim (Bool-cases (ltb msg.len (8 + 4))) [
      | inl short ↦
          ((0x1102, none), (rw (fine, short, capi_put_message) refl), refused 0x1102 (omega arith))
      | inr long ↦ elim (Bool-cases (addresses (capimsg_controller msg) (length s.table) a)) [
        | inr other ↦ (
          (0x1108, none),
          (rw (fine, long, other, capi_put_message) refl),
          refused 0x1108 (omega arith),
        )
        | inl known ↦
            let i = capimsg_controller msg - 1 in
            let positive : capimsg_controller msg ≡ i + 1 = ground arith in
            let on : a.devs i ≡ true = ground arith in
            let (r, e, t) =
              hand_over-Transfer i (slot_at s.table i) refl positive on (bit-present i on) in
            (r, (rw (fine, long, known, capi_put_message) e), t)
      ]
    ]
  ]

  -- Under the invariant, an error-free application gets the driver's answer for a message of at
  -- least twelve bytes to a listed device that it is registered with.
  pub capi_put_message-listed :
      (i : ℕ)
      → a.info ≡ 0
      → 12 ≤ msg.len
      → capimsg_controller msg ≡ i + 1
      → a.devs i ≡ true
      → listed i s.devs_list ≡ true
      → capi_put_message drv a (some msg) s ≡ some (drv.capi_put_message (i + 1) a.id msg, some i)
  unfolding capi_put_message
  capi_put_message-listed i fine long id on shown =
      let ok : (a.info == 0) ≡ true = ground arith in
      let enough : ltb msg.len (8 + 4) ≡ false = ground arith in
      let inside : i < length s.table = refs_at-outside s.table i (bit-present i on) in
      let known : addresses (capimsg_controller msg) (length s.table) a ≡ true = ground arith in
      let slot : capimsg_controller msg - 1 ≡ i = omega arith in
      rw (ok, enough, known, slot, capi_put_message)
        (hand_over-free i (slot_at s.table i) (v.readable i shown))
