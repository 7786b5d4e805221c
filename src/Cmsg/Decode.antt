-- ===== src/Cmsg/Decode.antt =====
-- `message_2_pars` and `capi_message2cmsg` of linux/drivers/isdn/capi/capiutil.c.
pub mod Agree
pub mod Field
pub mod Rounds
pub mod Inverts
pub mod Total
use capi4linux.Prelude.{
  ℕ, zero, suc, ◌+◌, ◌*◌, ◌/◌, true, false, Option, none, some, List, ◌==◌, if◌then◌else◌, ◌>>=◌,
  length,
}
use capi4linux.Memory.{Mem, shift, load16, load32}
use capi4linux.Cmsg.Table.{
  Typ, cbyte, cword, cdword, cstruct, cmstruct, cend, typ, cpars, command_2_index,
}
use capi4linux.Cmsg.Struct.{Cmsg, capi_compose, capi_default, update, zeroed}
use capi4linux.Cmsg.Encode.{jumpcstruct, next, head, struct_size}

-- The cases of the `switch` that read one field, for the parameter `k`. A structure is left in the
-- message, and the field points there.
unfoldable pub get_par : Mem → Typ → ℕ → Cmsg → ℕ → Cmsg × ℕ
unfolding update struct_size
get_par m cbyte k d l = (record d { nums = update k (m l) d.nums }, l + 1)
get_par m cword k d l = (record d { nums = update k (load16 m l) d.nums }, l + 2)
get_par m cdword k d l = (record d { nums = update k (load32 m l) d.nums }, l + 4)
get_par m cstruct k d l =
    (record d { structs = update k (some (shift m l)) d.structs }, l + struct_size (shift m l))
get_par m cmstruct k d l = (d, l)
get_par m cend k d l = (d, l)

unfoldable pub message_2_pars : ℕ → Mem → Cmsg → ℕ → List ℕ → Option (Cmsg × ℕ × List ℕ)
unfolding typ
message_2_pars zero m d l p = none
message_2_pars (suc fuel) m d l p = elim (typ p) [
  | none ↦ none
  | some cend ↦ some (d, l, p)
  | some cmstruct ↦ elim (m l == 0) [
    | true ↦ jumpcstruct p >>= λ p'.
        message_2_pars fuel m (record d { modes = update (head p) capi_default d.modes }) (l + 1)
          (next p')
    | false ↦
        message_2_pars fuel m (record d { modes = update (head p) capi_compose d.modes })
          (if m l == 255 then l + 3 else l + 1) (next p)
        >>= λ (d', l', p'). message_2_pars fuel m d' l' (next p')
  ]
  | some t ↦ let r = get_par m t (head p) d l in message_2_pars fuel m (r.0) (r.1) (next p)
]

-- The structure before its parameters are read: `memset`, and the two command bytes.
unfoldable pub start : Mem → Cmsg
start m = record zeroed { command = m 4; subcommand = m 5 }

-- The rest of the header, read last. The store of the length word writes the low half of `l`.
unfoldable pub get_header : Mem → Cmsg → ℕ → Cmsg
get_header m d l = record d {
  len = l / 65536 * 65536 + load16 m 0;
  appl_id = load16 m 2;
  messagenumber = load16 m 6;
}

unfoldable pub capi_message2cmsg : Mem → Option Cmsg
capi_message2cmsg m = cpars (command_2_index (m 4) (m 5)) >>= λ par.
    message_2_pars (suc (length par)) m (start m) 8 par >>= λ (d, l, _). some (get_header m d l)
