-- ===== src/Ncci/Heads.antt =====
-- The lists of NCCIs of linux/drivers/isdn/capi/capilib.c.
use capi4linux.Prelude.{
  ℕ, ◌≡◌, refl, inl, inr, Option, none, some, List, [], ◌∷◌, ◌==◌, if◌then◌else◌, Bool-cases, arith,
  none-ne-some, sym,
}
use capi4linux.Ncci.{
  Ncci, is_ncci, capilib_release_appl, capilib_data_b3_req, capilib_data_b3_conf, noerror,
}

-- The entry that the functions for an NCCI go to.
abbrev pub find_ncci : ℕ → ℕ → List Ncci → Option Ncci
find_ncci applid ncci [] = none
find_ncci applid ncci (np ∷ head) =
    if is_ncci applid ncci np then some np else find_ncci applid ncci head

-- The release of an application removes all its NCCIs, and leaves those of the other
-- applications.
pub find_ncci-capilib_release_appl :
    (a b ncci : ℕ) (head : List Ncci)
    → find_ncci b ncci (capilib_release_appl a head)
      ≡ (if b == a then none else find_ncci b ncci head)
unfolding capilib_release_appl
find_ncci-capilib_release_appl a b ncci [] = ground arith
find_ncci-capilib_release_appl a b ncci (np ∷ head) =
    ground (arith, find_ncci-capilib_release_appl a b ncci head)

-- For an NCCI that is not there, requests and confirmations change nothing, and a request is
-- answered as if it had been accepted.
capilib_data_b3_missing :
    (max_window applid ncci msgid : ℕ) (head : List Ncci)
    → find_ncci applid ncci head ≡ none
    → (capilib_data_b3_req applid ncci msgid head ≡ (noerror, head))
      × (capilib_data_b3_conf max_window applid ncci msgid head ≡ some head)
unfolding capilib_data_b3_req capilib_data_b3_conf
capilib_data_b3_missing max_window applid ncci msgid [] h = (refl, refl)
capilib_data_b3_missing max_window applid ncci msgid (np ∷ head) h =
    elim (Bool-cases (is_ncci applid ncci np)) [
      | inl here ↦ let wrong : some np ≡ none = (rw here at h) in absurd (none-ne-some (sym wrong))
      | inr other ↦
          let h' : find_ncci applid ncci head ≡ none = (rw other at h) in
          let (req, conf) = capilib_data_b3_missing max_window applid ncci msgid head h' in
          ((rw (other, req) refl), (rw (other, conf) refl))
    ]
