-- ===== src/Cmsg/Decode/Total.antt =====
-- When the decoder of linux/drivers/isdn/capi/capiutil.c returns: its loop and its fuel.
use capi4linux.Prelude.{
  ℕ, zero, suc, ◌+◌, ◌≤◌, ◌≡◌, refl, sym, ◌∙◌, ◌↔◌, Option, none, some, List, [], ◌∷◌, inl, inr,
  ◌==◌, if◌then◌else◌, length, Bool-cases, Option-cases, none-ne-some, arith, ==_iff,
}
use capi4linux.Memory.{Mem}
use capi4linux.Cmsg.Table.{cpars, command_2_index}
use capi4linux.Cmsg.Struct.{Cmsg, capi_compose, capi_default}
use capi4linux.Cmsg.Decode.{get_par, message_2_pars, start, get_header, capi_message2cmsg}
use capi4linux.Cmsg.Decode.Rounds.{
  message_2_pars-done, message_2_pars-item, message_2_pars-default, message_2_pars-compose,
}
use capi4linux.Cmsg.Decode.Inverts.{with_mode}
use capi4linux.Cmsg.Layout.{
  Layout, done, item, group, flat, size, IsLayout, size-pos, jumpcstruct-flat,
}
use capi4linux.Cmsg.Rows.{layout, cpars-IsRow}

abbrev Ends : List ℕ → Option (Cmsg × ℕ × List ℕ) → Type 0
Ends rest r = (d' : Cmsg) × (l' : ℕ) × (r ≡ some (d', l', 0x01 ∷ rest))

message_2_pars-Ends :
    (L : Layout) (n : ℕ) (d : Cmsg) (m : Mem) (l : ℕ) (rest : List ℕ)
    → IsLayout L
    → size L ≤ n
    → Ends rest (message_2_pars n m d l (flat L rest))
message_2_pars-Ends L zero d m l rest ok enough = absurd (omega (arith, size-pos L))
message_2_pars-Ends done (suc n) d m l rest ok enough = (d, l + 0, message_2_pars-done n m d l rest)
message_2_pars-Ends (item t k r) (suc n) d m l rest (e, sc, _, ok) enough =
    let (d', l', run) =
      message_2_pars-Ends r n (get_par m t k d l).0 m (get_par m t k d l).1 rest ok (omega arith) in
    (d', l', message_2_pars-item n m d l k (flat r rest) t e sc ∙ run)
message_2_pars-Ends (group k g r) (suc n) d m l rest (e, starts, _, _, _, og, or) enough =
    elim (Bool-cases (m l == 0)) [
      | inl z ↦
          let (d', l', run) =
            message_2_pars-Ends r n (with_mode d k capi_default) m (l + 1) rest or (omega arith) in
          (
            d',
            l',
            message_2_pars-default n m d l k (flat g (flat r rest)) e ((==_iff (m l) 0).0 z)
                  (jumpcstruct-flat g k (flat r rest) starts og)
                ∙ run,
          )
      | inr nz ↦
          let l1 : ℕ = if m l == 255 then l + 3 else l + 1 in
          let (d1, l2, run) =
            message_2_pars-Ends g n (with_mode d k capi_compose) m l1 (flat r rest) og
              (omega arith) in
          let (d', l', run') = message_2_pars-Ends r n d1 m l2 rest or (omega arith) in
          (d', l', message_2_pars-compose n m d l k l1 (flat g (flat r rest)) e nz refl run ∙ run')
    ]

capi_message2cmsg-some :
    (m : Mem) (par : List ℕ)
    → cpars (command_2_index (m 4) (m 5)) ≡ some par
    → (d : Cmsg) × (capi_message2cmsg m ≡ some d)
unfolding capi_message2cmsg
capi_message2cmsg-some m par row =
    let r = cpars-IsRow _ par row in
    let (d, l, run) =
      message_2_pars-Ends (layout par) (suc (length par)) (start m) m 8 [] r.ok
        (omega (arith, r.short)) in
    let run' : message_2_pars (suc (length par)) m (start m) 8 par ≡ some (d, l, 0x01 ∷ []) =
      rw r.string at run in
    (get_header m d l, rw (row, run'))

capi_message2cmsg-none :
    (m : Mem) → cpars (command_2_index (m 4) (m 5)) ≡ none → capi_message2cmsg m ≡ none
unfolding capi_message2cmsg
capi_message2cmsg-none m row = rw row

-- For every content of the message the decoder returns exactly when the command bytes select a
-- row of cpars.
pub capi_message2cmsg-total :
    (m : Mem)
    → ((d : Cmsg) × (capi_message2cmsg m ≡ some d))
      ↔ ((par : List ℕ) × (cpars (command_2_index (m 4) (m 5)) ≡ some par))
capi_message2cmsg-total m = (
  λ (d, e). elim (Option-cases (cpars (command_2_index (m 4) (m 5)))) [
    | inl bad ↦ absurd (none-ne-some (sym (capi_message2cmsg-none m bad) ∙ e))
    | inr row ↦ row
  ],
  λ (par, row). capi_message2cmsg-some m par row,
)
