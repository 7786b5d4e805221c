-- ===== src/Kernelcapi.antt =====
-- The users of the legacy kernel interface, linux/drivers/isdn/capi/kernelcapi.c: a chain of
-- `struct capi_interface_user`, with its pointers as a store, whose callbacks are told of devices.
pub mod Users
use capi4linux.Prelude.{
  ℕ, zero, suc, Bool, Option, none, some, List, [], ◌∷◌, ◌==◌, if◌then◌else◌, ◌>>=◌,
}
use capi4linux.Cmsg.Struct.{update}

-- `kernelcapi_iface_list`, and the members of the users.
pub record Interfaces : Type 0 where
  pub iface_list : Option ℕ
  pub next : ℕ → Option ℕ
  pub callback : ℕ → Bool

-- `attach_capi_interface`; a user with no callback is not kept.
unfoldable pub attach_capi_interface : ℕ → Interfaces → Interfaces
unfolding update
attach_capi_interface iface s =
    if s.callback iface
    then record s { iface_list = some iface; next = update iface s.iface_list s.next }
    else s

-- The loop of `detach_capi_interface`, in which `i` stays at the head of the list; `none` when the
-- rounds are used up.
unfoldable pub detach_loop : ℕ → ℕ → Option ℕ → (ℕ → Option ℕ) → Option (Option ℕ)
detach_loop zero iface head next = none
detach_loop (suc rounds) iface none next = some none
detach_loop (suc rounds) iface (some x) next =
    let rest = detach_loop rounds iface (next x) next in
    if x == iface then some (next iface) else rest

-- `detach_capi_interface`.
unfoldable pub detach_capi_interface : ℕ → ℕ → Interfaces → Option Interfaces
unfolding detach_loop
detach_capi_interface rounds iface s =
    detach_loop rounds iface s.iface_list s.next >>= λ i. some (record s { iface_list = i })

-- The users that `kernelcapi_devadd` and `kernelcapi_devremove` call, in order.
unfoldable pub notify_loop : ℕ → Option ℕ → (ℕ → Option ℕ) → Option (List ℕ)
notify_loop zero i next = none
notify_loop (suc rounds) none next = some []
notify_loop (suc rounds) (some x) next = elim (notify_loop rounds (next x) next) [
  | none ↦ none
  | some xs ↦ some (x ∷ xs)
]
