-- ===== src/Capidrv/Links/Chains.antt =====
-- Taking a node out of a chain in linux/drivers/isdn/capi/capidrv.c.
use capi4linux.Prelude.{
  ℕ, ◌≡◌, refl, ap, ◌∙◌, inl, inr, true, false, List, [], ◌∷◌, ◌==◌, ==_iff, among, NoTwice, arith,
  Bool-cases,
}
use capi4linux.Capidrv.Nodes.{unchain}

pub among-unchain : (x p : ℕ) (l : List ℕ) → among x (unchain p l) ≡ true → among x l ≡ true
unfolding unchain
among-unchain x p [] h = h
among-unchain x p (y ∷ l) h = ground (arith, among-unchain x p l)

not_among : (x p : ℕ) (l : List ℕ) → among x l ≡ false → among x (unchain p l) ≡ false
unfolding unchain
not_among x p [] h = refl
not_among x p (y ∷ l) h = ground (arith, not_among x p l)

pub unchain_gone : (p : ℕ) (l : List ℕ) → NoTwice l → among p (unchain p l) ≡ false
unfolding unchain
unchain_gone p [] o = refl
unchain_gone p (y ∷ l) o = elim (Bool-cases (p == y)) [
  | inl same ↦ let e : p ≡ y = (==_iff p y).0 same in rw same (ap (λ z. among z l) e ∙ o.0)
  | inr other ↦ rw (other, other) (unchain_gone p l o.1)
]

pub unchain_kept :
    (x p : ℕ) (l : List ℕ) → (x == p) ≡ false → among x l ≡ true → among x (unchain p l) ≡ true
unfolding unchain
unchain_kept x p [] ne h = h
unchain_kept x p (y ∷ l) ne h = ground (arith, unchain_kept x p l)

pub unchain-NoTwice : (p : ℕ) (l : List ℕ) → NoTwice l → NoTwice (unchain p l)
unfolding unchain
unchain-NoTwice p [] o = tt
unchain-NoTwice p (y ∷ l) o = elim (Bool-cases (p == y)) [
  | inl same ↦ rw same o.1
  | inr other ↦ rw other (not_among y p l o.0, unchain-NoTwice p l o.1)
]

-- Two numbers told apart.
pub apart : (x p : ℕ) → (x ≡ p → ⊥) → (x == p) ≡ false
apart x p ne = elim (Bool-cases (x == p)) [
  | inl same ↦ absurd (ne ((==_iff x p).0 same))
  | inr other ↦ other
]
