-- ===== src/Cmsg/Encode/Refines.antt =====
-- The encoder of linux/drivers/isdn/capi/capiutil.c and the wire form of its layout.
use capi4linux.Prelude.{
  ℕ, zero, suc, ◌+◌, ◌-◌, ◌%◌, ◌≤◌, ◌<◌, ◌≡◌, refl, ap, ◌∙◌, Option, none, some, List, [], ◌∷◌,
  ◌++◌, inl, inr, length, length-append, lt→ltb, arith,
}
use mathlib.Core.Path.{subst}
use capi4linux.Memory.{Mem, store, store_bytes}
use capi4linux.Memory.Holds.{
  Holds, SameBelow, store_bytes_below, Holds-frame, Holds-store_bytes, Holds-append,
  length-load_bytes,
}
use capi4linux.Cmsg.Table.{Typ, cbyte, cword, cdword, cstruct, cmstruct, cend, cdef_typ}
use capi4linux.Cmsg.Struct.{Cmsg, CStruct, capi_compose, capi_default, CmStruct-cases}
use capi4linux.Cmsg.Encode.{
  struct_size, put_struct, put_par, jumpcstruct, close_struct, next, pars_2_message,
}
use capi4linux.Cmsg.Layout.{
  Layout, done, item, group, flat, size, IsScalar, IsLayout, size-pos, jumpcstruct-flat,
}
use capi4linux.Cmsg.Wire.{struct_wire, par_wire, mode_wire, wire, Fits}

-- Writing some bytes at `l` and leaving all below as it was.
pub record Wrote (m : Mem) (l : ℕ) (bs : List ℕ) (m' : Mem) : Type 0 where
  pub holds : Holds m' l bs
  pub below : SameBelow l m m'

Wrote-store_bytes : (m : Mem) (l : ℕ) (bs : List ℕ) → Wrote m l bs (store_bytes l bs m)
Wrote-store_bytes m l bs = record {
  holds = Holds-store_bytes l bs m;
  below = λ a h. store_bytes_below l a bs m h;
}

Wrote-append :
    {m m' m'' : Mem} {l l' : ℕ} {xs ys : List ℕ}
    → l' ≡ l + length xs
    → Wrote m l xs m'
    → Wrote m' l' ys m''
    → Wrote m l (xs ++ ys) m''
Wrote-append {m} {m'} {m''} {l} {l'} {xs} {ys} e w v = record {
  holds =
      Holds-append m'' l l' xs ys e
        (Holds-frame m' m'' l xs (λ a p q. v.below a (omega arith)) w.holds) v.holds;
  below = λ a h. v.below a (omega arith) ∙ w.below a h;
}

put_struct-Wrote :
    (s : CStruct) (m : Mem) (l : ℕ)
    → Wrote m l (struct_wire s) (put_struct s m l).0
      × ((put_struct s m l).1 ≡ l + length (struct_wire s))
unfolding put_struct struct_wire
put_struct-Wrote none m l = (Wrote-store_bytes m l _, refl)
put_struct-Wrote (some s) m l =
    (Wrote-store_bytes m l _, omega (arith, length-load_bytes s 0 (struct_size s)))

-- One field.
put_par-Wrote :
    (c : Cmsg) (t : Typ) (k : ℕ) (m : Mem) (l : ℕ)
    → IsScalar t
    → Wrote m l (par_wire c t k) ((put_par c t k m l).0)
      × ((put_par c t k m l).1 ≡ l + length (par_wire c t k))
unfolding put_par par_wire
put_par-Wrote c cbyte k m l sc = (Wrote-store_bytes m l _, refl)
put_par-Wrote c cword k m l sc = (Wrote-store_bytes m l _, refl)
put_par-Wrote c cdword k m l sc = (Wrote-store_bytes m l _, refl)
put_par-Wrote c cstruct k m l sc = put_struct-Wrote (c.structs k) m l
put_par-Wrote c cmstruct k m l sc = cc
put_par-Wrote c cend k m l sc = cc

-- One round of the loop, by the type of the parameter that it is at.
module _ (n : ℕ) (c : Cmsg) (m : Mem) (l k : ℕ) (p : List ℕ) where
  pub pars_2_message-item :
      (t : Typ)
      → cdef_typ k ≡ some t
      → IsScalar t
      → pars_2_message (suc n) c m l (k ∷ p)
        ≡ pars_2_message n c (put_par c t k m l).0 (put_par c t k m l).1 p
  unfolding pars_2_message
  pars_2_message-item cbyte e sc = rw (e, pars_2_message)
  pars_2_message-item cword e sc = rw (e, pars_2_message)
  pars_2_message-item cdword e sc = rw (e, pars_2_message)
  pars_2_message-item cstruct e sc = rw (e, pars_2_message)
  pars_2_message-item cmstruct e sc = cc
  pars_2_message-item cend e sc = cc

  pub pars_2_message-default :
      {p' : List ℕ}
      → cdef_typ k ≡ some cmstruct
      → c.modes k ≡ capi_default
      → jumpcstruct (k ∷ p) ≡ some p'
      → pars_2_message (suc n) c m l (k ∷ p)
        ≡ pars_2_message n c (store_bytes l (0 ∷ []) m) (l + 1) (next p')
  unfolding pars_2_message
  pars_2_message-default e d j = rw (e, d, j, pars_2_message)

  pub pars_2_message-compose :
      {m' : Mem} {l' : ℕ} {p' : List ℕ}
      → cdef_typ k ≡ some cmstruct
      → c.modes k ≡ capi_compose
      → pars_2_message n c m (l + 1) p ≡ some (m', l', p')
      → pars_2_message (suc n) c m l (k ∷ p)
        ≡ pars_2_message n c (close_struct l m' l') l' (next p')
  unfolding pars_2_message
  pars_2_message-compose e d j = rw (e, d, j, pars_2_message)

pub pars_2_message-done :
    (n : ℕ) (c : Cmsg) (m : Mem) (l : ℕ) (rest : List ℕ)
    → pars_2_message (suc n) c m l (0x01 ∷ rest) ≡ some (m, l + 0, 0x01 ∷ rest)
unfolding pars_2_message cdef_typ
pars_2_message-done n c m l rest = ap (λ j. some (m, j, 0x01 ∷ rest)) (omega arith)

-- The prefix of a composed structure of fewer than 255 bytes.
close_struct-Wrote :
    {m m' : Mem} {l : ℕ} {bs : List ℕ}
    → length bs < 255
    → Wrote m (l + 1) bs m'
    → Wrote m l (length bs ∷ bs) (close_struct l m' (l + 1 + length bs))
unfolding close_struct store_bytes store
close_struct-Wrote {m} {m'} {l} {bs} small w =
    let e : l + 1 + length bs - l - 1 ≡ length bs = omega arith in
    let byte : length bs % 256 ≡ length bs = omega arith in
    rw (e, lt→ltb _ _ small, byte)
      record {
        holds = (
          ground arith,
          Holds-frame m' _ (suc l) bs (λ a p q. ground arith)
              (subst (λ o. Holds m' o bs) (omega arith) w.holds),
        );
        below = λ a h. ground (arith, w.below a);
      }

abbrev Result : Cmsg → Layout → Mem → ℕ → List ℕ → Option (Mem × ℕ × List ℕ) → Type 0
Result c L m l rest r =
    (m' : Mem) × Wrote m l (wire c L) m' × (r ≡ some (m', l + length (wire c L), 0x01 ∷ rest))

ends :
    {i j : ℕ} {rest : List ℕ} (m : Mem)
    → i ≡ j
    → ◌≡◌ {A = Option (Mem × ℕ × List ℕ)} (some (m, i, rest)) (some (m, j, rest))
ends {rest} m e = ap (λ t. some (m, t, rest)) e

-- The encoder terminates at the end mark of its layout, with the wire form written.
pub pars_2_message-wire :
    (L : Layout) (n : ℕ) (c : Cmsg) (m : Mem) (l : ℕ) (rest : List ℕ)
    → IsLayout L
    → Fits c L
    → size L ≤ n
    → Result c L m l rest (pars_2_message n c m l (flat L rest))
unfolding wire mode_wire
pars_2_message-wire L zero c m l rest ok fit enough = absurd (omega (arith, size-pos L))
pars_2_message-wire done (suc n) c m l rest ok fit enough =
    (m, record { holds = tt; below = λ a h. refl }, pars_2_message-done n c m l rest)
pars_2_message-wire (item t k r) (suc n) c m l rest (e, sc, _, ok) fit enough =
    let (w, at) = put_par-Wrote c t k m l sc in
    let (m', v, run) =
      pars_2_message-wire r n c (put_par c t k m l).0 (put_par c t k m l).1 rest ok fit
        (omega arith) in
    (
      m',
      Wrote-append at w v,
      pars_2_message-item n c m l k (flat r rest) t e sc
          ∙ run
          ∙ ends m' (omega (arith, length-append (par_wire c t k) (wire c r))),
    )
pars_2_message-wire (group k g r) (suc n) c m l rest (e, start, _, _, _, og, ok) fit enough =
    elim (CmStruct-cases (c.modes k)) [
      | inl compose ↦ rw compose (
          let (small, fg) = (rw compose at fit.0) in
          let (m1, w, run) =
            pars_2_message-wire g n c m (l + 1) (flat r rest) og fg (omega arith) in
          let l1 = l + 1 + length (wire c g) in
          let (m2, v, run') =
            pars_2_message-wire r n c (close_struct l m1 l1) l1 rest ok fit.1 (omega arith) in
          (
            m2,
            Wrote-append (omega arith) (close_struct-Wrote small w) v,
            pars_2_message-compose n c m l k (flat g (flat r rest)) e compose run
                ∙ run'
                ∙ ends m2 (omega (arith, length-append (wire c g) (wire c r))),
          ))
      | inr default ↦ rw default (
          let (m2, v, run) =
            pars_2_message-wire r n c (store_bytes l (0 ∷ []) m) (l + 1) rest ok fit.1
              (omega arith) in
          (
            m2,
            Wrote-append (omega arith) (Wrote-store_bytes m l (0 ∷ [])) v,
            pars_2_message-default n c m l k (flat g (flat r rest)) e default
                  (jumpcstruct-flat g k (flat r rest) start og)
                ∙ run
                ∙ ends m2 (omega arith),
          ))
    ]
