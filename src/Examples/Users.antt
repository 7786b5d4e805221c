-- ===== src/Examples/Users.antt =====
-- Users of linux/drivers/isdn/capi/kernelcapi.c.
use capi4linux.Prelude.{◌≡◌, refl, true, none, some, [], ◌∷◌, arith}
use capi4linux.Kernelcapi.{Interfaces, attach_capi_interface, detach_capi_interface}
use capi4linux.Kernelcapi.Users.{
  Told, Chain-Told, attach_capi_interface-Told, detach_capi_interface-drops,
}

abbrev nobody : Interfaces
nobody = record { iface_list = none; next = λ _. none; callback = λ _. true }

nobody-Told : Told nobody []
nobody-Told = Chain-Told nobody [] refl

abbrev two_users : Interfaces
two_users = attach_capi_interface 2 (attach_capi_interface 1 nobody)

two_users-Told : Told two_users (2 ∷ 1 ∷ [])
unfolding attach_capi_interface
two_users-Told =
    attach_capi_interface-Told 2 (attach_capi_interface 1 nobody) (1 ∷ [])
      (attach_capi_interface-Told 1 nobody [] nobody-Told refl refl) refl refl

-- User 1 is detached, and user 2, which stays, is told no more.
detach_capi_interface-drops_example :
    (s' : Interfaces) × (detach_capi_interface 3 1 two_users ≡ some s') × Told s' []
detach_capi_interface-drops_example =
    detach_capi_interface-drops 1 two_users (2 ∷ []) [] 3 two_users-Told refl (omega arith)
