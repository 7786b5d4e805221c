-- ===== src/Cmsg/Encode/Total.antt =====
-- When the encoder of linux/drivers/isdn/capi/capiutil.c returns: its loop and its fuel.
use capi4linux.Prelude.{
  ℕ, zero, suc, ◌+◌, ◌≤◌, ◌≡◌, sym, ◌∙◌, ◌↔◌, Option, none, some, List, [], ◌∷◌, inl, inr, length,
  Option-cases, none-ne-some, arith,
}
use capi4linux.Memory.{Mem, store_bytes}
use capi4linux.Cmsg.Table.{cpars, command_2_index}
use capi4linux.Cmsg.Struct.{Cmsg, CmStruct-cases}
use capi4linux.Cmsg.Encode.{put_par, close_struct, pars_2_message, put_header, capi_cmsg2message}
use capi4linux.Cmsg.Encode.Refines.{
  pars_2_message-done, pars_2_message-item, pars_2_message-default, pars_2_message-compose,
}
use capi4linux.Cmsg.Layout.{
  Layout, done, item, group, flat, size, IsLayout, size-pos, jumpcstruct-flat,
}
use capi4linux.Cmsg.Rows.{layout, cpars-IsRow}

abbrev Ends : List ℕ → Option (Mem × ℕ × List ℕ) → Type 0
Ends rest r = (m' : Mem) × (l' : ℕ) × (r ≡ some (m', l', 0x01 ∷ rest))

pars_2_message-Ends :
    (L : Layout) (n : ℕ) (c : Cmsg) (m : Mem) (l : ℕ) (rest : List ℕ)
    → IsLayout L
    → size L ≤ n
    → Ends rest (pars_2_message n c m l (flat L rest))
pars_2_message-Ends L zero c m l rest ok enough = absurd (omega (arith, size-pos L))
pars_2_message-Ends done (suc n) c m l rest ok enough = (m, l + 0, pars_2_message-done n c m l rest)
pars_2_message-Ends (item t k r) (suc n) c m l rest (e, sc, _, ok) enough =
    let (m', l', run) =
      pars_2_message-Ends r n c (put_par c t k m l).0 (put_par c t k m l).1 rest ok (omega arith) in
    (m', l', pars_2_message-item n c m l k (flat r rest) t e sc ∙ run)
pars_2_message-Ends (group k g r) (suc n) c m l rest (e, starts, _, _, _, og, or) enough =
    elim (CmStruct-cases (c.modes k)) [
      | inl compose ↦
          let (m1, l1, run) = pars_2_message-Ends g n c m (l + 1) (flat r rest) og (omega arith) in
          let (m2, l2, run') =
            pars_2_message-Ends r n c (close_struct l m1 l1) l1 rest or (omega arith) in
          (m2, l2, pars_2_message-compose n c m l k (flat g (flat r rest)) e compose run ∙ run')
      | inr default ↦
          let (m1, l1, run) =
            pars_2_message-Ends r n c (store_bytes l (0 ∷ []) m) (l + 1) rest or (omega arith) in
          (
            m1,
            l1,
            pars_2_message-default n c m l k (flat g (flat r rest)) e default
                  (jumpcstruct-flat g k (flat r rest) starts og)
                ∙ run,
          )
    ]

capi_cmsg2message-some :
    (c : Cmsg) (m : Mem) (par : List ℕ)
    → cpars (command_2_index c.command c.subcommand) ≡ some par
    → (m' : Mem) × (capi_cmsg2message c m ≡ some m')
unfolding capi_cmsg2message
capi_cmsg2message-some c m par row =
    let r = cpars-IsRow _ par row in
    let (m', l, run) =
      pars_2_message-Ends (layout par) (suc (length par)) c m 8 [] r.ok (omega (arith, r.short)) in
    let run' : pars_2_message (suc (length par)) c m 8 par ≡ some (m', l, 0x01 ∷ []) =
      rw r.string at run in
    (put_header c l m', rw (row, run'))

capi_cmsg2message-none :
    (c : Cmsg) (m : Mem)
    → cpars (command_2_index c.command c.subcommand) ≡ none
    → capi_cmsg2message c m ≡ none
unfolding capi_cmsg2message
capi_cmsg2message-none c m row = rw row

-- For every content of the fields the encoder returns exactly when the command selects a row of
-- cpars.
pub capi_cmsg2message-total :
    (c : Cmsg) (m : Mem)
    → ((m' : Mem) × (capi_cmsg2message c m ≡ some m'))
      ↔ ((par : List ℕ) × (cpars (command_2_index c.command c.subcommand) ≡ some par))
capi_cmsg2message-total c m = (
  λ (m', e). elim (Option-cases (cpars (command_2_index c.command c.subcommand))) [
    | inl bad ↦ absurd (none-ne-some (sym (capi_cmsg2message-none c m bad) ∙ e))
    | inr row ↦ row
  ],
  λ (par, row). capi_cmsg2message-some c m par row,
)

-- The encoder makes a message of the structure.
abbrev pub Encodes : Cmsg → Type 0
Encodes c = (m : Mem) → (m' : Mem) × (capi_cmsg2message c m ≡ some m')

pub row-Encodes :
    (c : Cmsg) (par : List ℕ)
    → cpars (command_2_index c.command c.subcommand) ≡ some par
    → Encodes c
row-Encodes c par row m = capi_cmsg2message-some c m par row
