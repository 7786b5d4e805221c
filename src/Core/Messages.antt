-- ===== src/Core/Messages.antt =====
-- Messages between applications and devices: `capi_put_message` of linux/drivers/isdn/capi/core.c,
-- the application's queue of linux/include/linux/isdn/capiappl.h, and the driver's side of it of
-- linux/include/linux/isdn/capidevice.h. The kernel's `sk_buff` queue is a list.
pub mod Delivery
pub mod Queue
use capi4linux.Prelude.{
  ℕ, zero, suc, ◌+◌, ◌-◌, ◌%◌, Bool, true, false, ◌||◌, ◌&&◌, Option, none, some, List, [], ◌∷◌,
  ◌++◌, ltb, leb, ◌==◌, if◌then◌else◌, length,
}
use capi4linux.Core.State.{Message, Appl, Device, Core, Driver}
use capi4linux.Core.Registry.{slot_at}

-- `CAPIMSG_CONTROLLER`: the low seven bits of the byte at 8.
abbrev pub capimsg_controller : Message → ℕ
capimsg_controller m = m.body 8 % 128

-- The test of `capi_put_message` for a device number.
abbrev pub addresses : ℕ → ℕ → Appl → Bool
addresses id max_devs a = if id == 0 then false else leb id max_devs && a.devs (id - 1)

-- The last part of `capi_put_message`, for the device in slot `i`: `none` is the `BUG_ON`. It gives
-- the answer and the slot whose driver took the message.
unfoldable pub hand_over : Driver → Appl → Message → ℕ → Option Device → Option (ℕ × Option ℕ)
hand_over drv a msg i none = none
hand_over drv a msg i (some dev) =
    if dev.readable
    then some (drv.capi_put_message (i + 1) a.id msg, some i)
    else some (0x1108, none)

-- `capi_put_message`; the message is `none` for a NULL pointer.
unfoldable pub capi_put_message : Driver → Appl → Option Message → Core → Option (ℕ × Option ℕ)
unfolding hand_over
capi_put_message drv a none s = some (if a.info == 0 then 0x1102 else a.info, none)
capi_put_message drv a (some msg) s =
    if a.info == 0
    then if ltb msg.len (8 + 4)
      then some (0x1102, none)
      else if addresses (capimsg_controller msg) (length s.table) a
      then hand_over drv a msg (capimsg_controller msg - 1)
          (slot_at s.table (capimsg_controller msg - 1))
      else some (0x1108, none)
    else some (a.info, none)

-- `capi_set_signal`; `none` is a NULL pointer.
unfoldable pub capi_set_signal : Option Appl → ℕ → ℕ → Option Appl
capi_set_signal none signal param = none
capi_set_signal (some a) signal param = some (record a { sig = signal; sig_param = param })

-- `capi_get_message`: the answer, `*msg`, which is `none` where it is NULL or not written, and the
-- application.
unfoldable pub take_message : Appl → List Message → ℕ × Option Message × Appl
take_message a [] = (0x1104, none, a)
take_message a (m ∷ ms) = (0, some m, record a { msg_queue = ms })

unfoldable pub capi_get_message : Appl → ℕ × Option Message × Appl
unfolding take_message
capi_get_message a = if a.info == 0 then take_message a a.msg_queue else (a.info, none, a)

-- `capi_unget_message`.
unfoldable pub capi_unget_message : Appl → Message → Appl
capi_unget_message a m = record a { msg_queue = m ∷ a.msg_queue }

abbrev pub queue_empty : List Message → Bool
queue_empty [] = true
queue_empty (m ∷ ms) = false

-- `capi_peek_message`.
unfoldable pub capi_peek_message : Appl → ℕ
capi_peek_message a = if a.info == 0 then if queue_empty a.msg_queue then 0x1104 else 0 else a.info

-- `capi_appl_enqueue_message`.
unfoldable pub capi_appl_enqueue_message : Appl → Message → Appl
capi_appl_enqueue_message a m = record a { msg_queue = a.msg_queue ++ m ∷ [] }

-- `capi_appl_signal`: the handler that is called and its parameter.
unfoldable pub capi_appl_signal : Appl → ℕ × ℕ
capi_appl_signal a = (a.sig, a.sig_param)

-- `capi_appl_signal_error`.
unfoldable pub capi_appl_signal_error : Appl → ℕ → Appl × (ℕ × ℕ)
unfolding capi_appl_signal
capi_appl_signal_error a info =
    let a' = if a.info == 0 then record a { info = info } else a in (a', capi_appl_signal a')
