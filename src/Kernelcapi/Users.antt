-- ===== src/Kernelcapi/Users.antt =====
-- Who is told of devices in linux/drivers/isdn/capi/kernelcapi.c.
use capi4linux.Prelude.{
  ℕ, zero, suc, ◌<◌, ◌≡◌, refl, sym, ap, true, false, Option, some, List, [], ◌∷◌, ◌++◌, ◌==◌,
  ==_iff, among, length, ◌>>=◌, arith,
}
use mathlib.Core.Path.{subst}
use capi4linux.Cmsg.Struct.{update, update_self}
use capi4linux.Ncci.Queue.{Chain, Chain-update}
use capi4linux.Kernelcapi.{
  Interfaces, attach_capi_interface, detach_loop, detach_capi_interface, notify_loop,
}

notify_loop-Chain :
    (xs : List ℕ) (rounds : ℕ) (i : Option ℕ) (next : ℕ → Option ℕ)
    → Chain next i xs
    → length xs < rounds
    → notify_loop rounds i next ≡ some xs
unfolding notify_loop
notify_loop-Chain xs zero i next c h = absurd (omega (arith, h))
notify_loop-Chain [] (suc rounds) i next c h = rw c
notify_loop-Chain (x ∷ xs) (suc rounds) i next (c, rest) h =
    rw (c, notify_loop-Chain xs rounds (next x) next rest (omega (arith, h))) refl

-- The users on the list are `xs`, and these are told of a device, in this order, once each.
abbrev pub Told : Interfaces → List ℕ → Type 0
Told s xs =
    Chain s.next s.iface_list xs
    × ((rounds : ℕ) → length xs < rounds → notify_loop rounds s.iface_list s.next ≡ some xs)

pub Chain-Told : (s : Interfaces) (xs : List ℕ) → Chain s.next s.iface_list xs → Told s xs
Chain-Told s xs c = (c, λ rounds h. notify_loop-Chain xs rounds s.iface_list s.next c h)

-- x
pub attach_capi_interface-Told :
    (iface : ℕ) (s : Interfaces) (xs : List ℕ)
    → Told s xs
    → among iface xs ≡ false
    → s.callback iface ≡ true
    → Told (attach_capi_interface iface s) (iface ∷ xs)
unfolding attach_capi_interface
attach_capi_interface-Told iface s xs (c, _) new called =
    let t : Interfaces = record s {
      iface_list = some iface;
      next = update iface s.iface_list s.next;
    } in
    let e : attach_capi_interface iface s ≡ t = rw called refl in
    subst (λ x. Told x (iface ∷ xs)) (sym e)
      (Chain-Told t (iface ∷ xs) (
        refl,
        subst (λ i. Chain t.next i xs) (sym (update_self iface s.iface_list s.next))
            (Chain-update s.next s.iface_list s.iface_list iface xs new c),
      ))

detach_loop-Chain :
    (iface : ℕ) (xs ys : List ℕ) (rounds : ℕ) (i : Option ℕ) (next : ℕ → Option ℕ)
    → Chain next i (xs ++ iface ∷ ys)
    → among iface xs ≡ false
    → length xs < rounds
    → (i' : Option ℕ) × (detach_loop rounds iface i next ≡ some i') × Chain next i' ys
unfolding detach_loop
detach_loop-Chain iface xs ys zero i next c out h = absurd (omega (arith, h))
detach_loop-Chain iface [] ys (suc rounds) i next (c, rest) out h =
    (next iface, rw (c, (==_iff iface iface).1 refl) refl, rest)
detach_loop-Chain iface (x ∷ xs) ys (suc rounds) i next (c, rest) out h =
    let (i', e, chain) =
      detach_loop-Chain iface xs ys rounds (next x) next rest (ground arith) (omega (arith, h)) in
    let other : (x == iface) ≡ false = ground arith in (i', rw (c, other) e, chain)

-- With the users on the list told of a device in its order, once each, detaching one of them
-- leaves only those behind it on the list, and only these are told afterwards; those before it,
-- which attached later, are lost.
pub detach_capi_interface-drops :
    (iface : ℕ) (s : Interfaces) (xs ys : List ℕ) (rounds : ℕ)
    → Told s (xs ++ iface ∷ ys)
    → among iface xs ≡ false
    → length xs < rounds
    → (s' : Interfaces) × (detach_capi_interface rounds iface s ≡ some s') × Told s' ys
unfolding detach_capi_interface
detach_capi_interface-drops iface s xs ys rounds (c, _) out h =
    let (i', e, chain) = detach_loop-Chain iface xs ys rounds s.iface_list s.next c out h in
    let t : Interfaces = record s { iface_list = i' } in
    (t, ap (λ x. x >>= λ i. some (record s { iface_list = i })) e, Chain-Told t ys chain)
