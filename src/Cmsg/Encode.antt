-- ===== src/Cmsg/Encode.antt =====
-- `jumpcstruct`, `pars_2_message` and `capi_cmsg2message` of linux/drivers/isdn/capi/capiutil.c.
-- The position `p` in the parameter string is the rest of the string. `none` is a read behind the
-- string or outside a table, or fuel that ran out.
pub mod Refines
pub mod Total
pub mod Long
use capi4linux.Prelude.{
  ℕ, zero, suc, ◌+◌, ◌-◌, ◌%◌, Option, none, some, List, [], ◌∷◌, ltb, ◌==◌, if◌then◌else◌, ◌>>=◌,
  length,
}
use capi4linux.Memory.{Mem, copy, move, load16, le16, le32, store_bytes}
use capi4linux.Cmsg.Table.{
  Typ, cbyte, cword, cdword, cstruct, cmstruct, cend, typ, cpars, command_2_index,
}
use capi4linux.Cmsg.Struct.{Cmsg, CStruct, CmStruct, capi_compose, capi_default}

-- The loop of `jumpcstruct`: each round steps to the next parameter and then reads its type.
unfoldable pub jump_loop : ℕ → List ℕ → Option (List ℕ)
unfolding typ
jump_loop zero p = some p
jump_loop (suc layer) [] = none
jump_loop (suc layer) (x ∷ p) = elim (typ p) [
  | none ↦ none
  | some cmstruct ↦ jump_loop (suc (suc layer)) p
  | some cend ↦ jump_loop layer p
  | some _ ↦ jump_loop (suc layer) p
]

unfoldable pub jumpcstruct : List ℕ → Option (List ℕ)
unfolding jump_loop
jumpcstruct [] = none
jumpcstruct (x ∷ p) = jump_loop 1 p

-- `*s`, and how many bytes the structure takes, its length prefix included.
unfoldable pub struct_size : Mem → ℕ
struct_size s = if s 0 == 0xff then 3 + load16 s 1 else 1 + s 0

-- A structure with its length prefix; NULL is written as the empty one.
unfoldable pub put_struct : CStruct → Mem → ℕ → Mem × ℕ
put_struct none m l = (store_bytes l (0 ∷ []) m, l + 1)
put_struct (some s) m l = (copy l s (struct_size s) m, l + struct_size s)

-- The cases of the `switch` that write one field, for the parameter `k`.
unfoldable pub put_par : Cmsg → Typ → ℕ → Mem → ℕ → Mem × ℕ
unfolding put_struct
put_par c cbyte k m l = (store_bytes l ((c.nums k % 256) ∷ []) m, l + 1)
put_par c cword k m l = (store_bytes l (le16 (c.nums k)) m, l + 2)
put_par c cdword k m l = (store_bytes l (le32 (c.nums k)) m, l + 4)
put_par c cstruct k m l = put_struct (c.structs k) m l
put_par c cmstruct k m l = (m, l)
put_par c cend k m l = (m, l)

-- The length prefix of a composed structure that starts at `start`. From 255 bytes on the content
-- is moved up by two bytes, and `l` stays where it was.
unfoldable pub close_struct : ℕ → Mem → ℕ → Mem
close_struct start m l =
    let ls = l - start - 1 in
    if ltb ls 255
    then store_bytes start ((ls % 256) ∷ []) m
    else store_bytes start (0xff ∷ le16 ls) (move (start + 3) (start + 1) ls m)

-- `cmsg->p++`.
abbrev pub next : List ℕ → List ℕ
next [] = []
next (k ∷ p) = p

abbrev pub head : List ℕ → ℕ
head [] = 0
head (k ∷ p) = k

unfoldable pub pars_2_message : ℕ → Cmsg → Mem → ℕ → List ℕ → Option (Mem × ℕ × List ℕ)
unfolding typ
pars_2_message zero c m l p = none
pars_2_message (suc fuel) c m l p = elim (typ p) [
  | none ↦ none
  | some cend ↦ some (m, l, p)
  | some cmstruct ↦ elim (c.modes (head p)) [
    | capi_default ↦
        jumpcstruct p >>= λ p'. pars_2_message fuel c (store_bytes l (0 ∷ []) m) (l + 1) (next p')
    | capi_compose ↦ pars_2_message fuel c m (l + 1) (next p) >>= λ (m', l', p').
        pars_2_message fuel c (close_struct l m' l') l' (next p')
  ]
  | some t ↦ let r = put_par c t (head p) m l in pars_2_message fuel c (r.0) (r.1) (next p)
]

-- The header, which `capi_cmsg2message` writes when the parameters stand.
unfoldable pub put_header : Cmsg → ℕ → Mem → Mem
put_header c l m = store_bytes 6 (le16 c.messagenumber) (
    store_bytes 2 (le16 c.appl_id) (
      store_bytes 5 ((c.subcommand % 256) ∷ [])
        (store_bytes 4 ((c.command % 256) ∷ []) (store_bytes 0 (le16 l) m))))

-- The message in `msg`, which is `m` before the call. The fuel is a round for each byte of the
-- parameter string and one for its end.
unfoldable pub capi_cmsg2message : Cmsg → Mem → Option Mem
capi_cmsg2message c m = cpars (command_2_index c.command c.subcommand) >>= λ par.
    pars_2_message (suc (length par)) c m 8 par >>= λ (m', l, _). some (put_header c l m')

-- What the member `l` of the structure is when the parameters stand: the number of bytes that are
-- written to `msg`.
unfoldable pub cmsg_len : Cmsg → Option ℕ
unfolding pars_2_message
cmsg_len c = cpars (command_2_index c.command c.subcommand) >>= λ par.
    pars_2_message (suc (length par)) c (λ _. 0) 8 par >>= λ (_, l, _). some l
