-- ===== src/Cmsg/Decode/Rounds.antt =====
-- The rounds of the loop of `message_2_pars`, by the type of the parameter.
use capi4linux.Prelude.{ℕ, suc, ◌+◌, ◌≡◌, ap, some, List, ◌∷◌, false, ◌==◌, arith, if◌then◌else◌}
use capi4linux.Memory.{Mem}
use capi4linux.Cmsg.Table.{Typ, cbyte, cword, cdword, cstruct, cmstruct, cend, cdef_typ}
use capi4linux.Cmsg.Struct.{Cmsg, update, capi_compose, capi_default}
use capi4linux.Cmsg.Encode.{jumpcstruct, next}
use capi4linux.Cmsg.Decode.{get_par, message_2_pars}
use capi4linux.Cmsg.Layout.{IsScalar}

-- One round of the loop, by the type of the parameter that it is at.
module _ (n : ℕ) (m : Mem) (d : Cmsg) (l : ℕ) where
  pub message_2_pars-done :
      (rest : List ℕ) → message_2_pars (suc n) m d l (0x01 ∷ rest) ≡ some (d, l + 0, 0x01 ∷ rest)
  unfolding message_2_pars cdef_typ
  message_2_pars-done rest = ap (λ j. some (d, j, 0x01 ∷ rest)) (omega arith)

  pub message_2_pars-item :
      (k : ℕ) (p : List ℕ) (t : Typ)
      → cdef_typ k ≡ some t
      → IsScalar t
      → message_2_pars (suc n) m d l (k ∷ p)
        ≡ message_2_pars n m (get_par m t k d l).0 (get_par m t k d l).1 p
  unfolding message_2_pars
  message_2_pars-item k p cbyte e sc = rw (e, message_2_pars)
  message_2_pars-item k p cword e sc = rw (e, message_2_pars)
  message_2_pars-item k p cdword e sc = rw (e, message_2_pars)
  message_2_pars-item k p cstruct e sc = rw (e, message_2_pars)
  message_2_pars-item k p cmstruct e sc = cc
  message_2_pars-item k p cend e sc = cc

  pub message_2_pars-default :
      (k : ℕ) (p : List ℕ) {p' : List ℕ}
      → cdef_typ k ≡ some cmstruct
      → m l ≡ 0
      → jumpcstruct (k ∷ p) ≡ some p'
      → message_2_pars (suc n) m d l (k ∷ p)
        ≡ message_2_pars n m (record d { modes = update k capi_default d.modes }) (l + 1) (next p')
  unfolding message_2_pars
  message_2_pars-default k p e z j = rw (e, z, j, message_2_pars)

  pub message_2_pars-compose :
      (k l1 : ℕ) (p : List ℕ) {d' : Cmsg} {l' : ℕ} {p' : List ℕ}
      → cdef_typ k ≡ some cmstruct
      → (m l == 0) ≡ false
      → (if m l == 255 then l + 3 else l + 1) ≡ l1
      → message_2_pars n m (record d { modes = update k capi_compose d.modes }) l1 p
        ≡ some (d', l', p')
      → message_2_pars (suc n) m d l (k ∷ p) ≡ message_2_pars n m d' l' (next p')
  unfolding message_2_pars
  message_2_pars-compose k l1 p e z at j = rw (e, z, at, j, message_2_pars)
