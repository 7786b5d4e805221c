-- ===== src/Cmsg/Decode/Inverts.antt =====
-- The decoder of linux/drivers/isdn/capi/capiutil.c and the wire form of its layout.
use capi4linux.Prelude.{
  ℕ, zero, suc, ◌+◌, ◌≤◌, ◌<◌, ◌≡◌, refl, sym, ap, ◌∙◌, Option, none, some, List, ◌∷◌, ◌++◌, false,
  inl, inr, ◌==◌, length, length-append, length, arith,
}
use mathlib.Core.Path.{subst}
use capi4linux.Memory.{Mem}
use capi4linux.Memory.Holds.{Holds, Holds-take, Holds-drop, length-load_bytes}
use capi4linux.Cmsg.Table.{Typ, cbyte, cword, cdword, cstruct, cmstruct, cend}
use capi4linux.Cmsg.Struct.{
  Cmsg, CStruct, update, update_self, update_other, CmStruct, capi_compose, capi_default,
  CmStruct-cases,
}
use capi4linux.Cmsg.Encode.{struct_size}
use capi4linux.Cmsg.Decode.{get_par, message_2_pars}
use capi4linux.Cmsg.Decode.Field.{get_par-wire, struct_size-pos}
use capi4linux.Cmsg.Decode.Agree.{
  Agree, SameAt, SameOutside, SameAt-trans, Agree-same, AgreeAt-same,
}
use capi4linux.Cmsg.Layout.{
  Layout, done, item, group, flat, size, IsScalar, IsLayout, StartsWithItem, size-pos,
  jumpcstruct-flat,
}
use capi4linux.Cmsg.Wire.{struct_wire, par_wire, mode_wire, wire, Fits, InRange}
use capi4linux.Cmsg.Decode.Rounds.{
  message_2_pars-done, message_2_pars-item, message_2_pars-default, message_2_pars-compose,
}

InRange-split :
    (c : Cmsg) (t : Typ) (k : ℕ) (r : Layout)
    → InRange c (item t k r)
    → InRange c (item t k done) × InRange c r
InRange-split c cbyte k r h = ((h.0, tt), h.1)
InRange-split c cword k r h = ((h.0, tt), h.1)
InRange-split c cdword k r h = ((h.0, tt), h.1)
InRange-split c cstruct k r h = (tt, h)
InRange-split c cmstruct k r h = (tt, h)
InRange-split c cend k r h = (tt, h)

struct_wire-pos : (s : CStruct) → 0 < length (struct_wire s)
unfolding struct_wire
struct_wire-pos none = omega arith
struct_wire-pos (some t) = omega (arith, length-load_bytes t 0 (struct_size t), struct_size-pos t)

par_wire-pos : (c : Cmsg) (t : Typ) (k : ℕ) → IsScalar t → 0 < length (par_wire c t k)
unfolding par_wire
par_wire-pos c cbyte k sc = omega arith
par_wire-pos c cword k sc = omega arith
par_wire-pos c cdword k sc = omega arith
par_wire-pos c cstruct k sc = struct_wire-pos (c.structs k)
par_wire-pos c cmstruct k sc = cc
par_wire-pos c cend k sc = cc

wire-pos : (c : Cmsg) (L : Layout) → StartsWithItem L → IsLayout L → 0 < length (wire c L)
unfolding wire
wire-pos c done s ok = elim s [ ]
wire-pos c (item t k r) s (_, sc, _, _) =
    omega (arith, par_wire-pos c t k sc, length-append (par_wire c t k) (wire c r))
wire-pos c (group k g r) s ok = elim s [ ]

abbrev Result : Cmsg → Layout → Cmsg → ℕ → List ℕ → Option (Cmsg × ℕ × List ℕ) → Type 0
Result c L d l rest r =
    (d' : Cmsg) × Agree c d' L
    × SameOutside L d d'
    × (r ≡ some (d', l + length (wire c L), 0x01 ∷ rest))

ends :
    {i j : ℕ} {rest : List ℕ} (d : Cmsg)
    → i ≡ j
    → ◌≡◌ {A = Option (Cmsg × ℕ × List ℕ)} (some (d, i, rest)) (some (d, j, rest))
ends {rest} d e = ap (λ t. some (d, t, rest)) e

SameOutside-item :
    {d d' d'' : Cmsg} (t : Typ) (k : ℕ) (r : Layout)
    → SameOutside (item t k done) d d'
    → SameOutside r d' d''
    → SameOutside (item t k r) d d''
SameOutside-item t k r s s' = record {
  same = λ j h. SameAt-trans (s.same j (ground arith)) (s'.same j (ground arith));
  command = s'.command ∙ s.command;
  subcommand = s'.subcommand ∙ s.subcommand;
}

abbrev pub with_mode : Cmsg → ℕ → CmStruct → Cmsg
with_mode d k x = record d { modes = update k x d.modes }

with_mode-SameAt :
    (d : Cmsg) (k : ℕ) (x : CmStruct) (j : ℕ) → (j == k) ≡ false → SameAt d (with_mode d k x) j
with_mode-SameAt d k x j h = record {
  nums = refl;
  structs = refl;
  modes = update_other k j x d.modes h;
}

SameOutside-default :
    {d d' : Cmsg} (k : ℕ) (x : CmStruct) (g r : Layout)
    → SameOutside r (with_mode d k x) d'
    → SameOutside (group k g r) d d'
SameOutside-default {d} k x g r s = record {
  same = λ j h. SameAt-trans (with_mode-SameAt d k x j (ground arith)) (s.same j (ground arith));
  command = s.command;
  subcommand = s.subcommand;
}

SameOutside-compose :
    {d d' d'' : Cmsg} (k : ℕ) (x : CmStruct) (g r : Layout)
    → SameOutside g (with_mode d k x) d'
    → SameOutside r d' d''
    → SameOutside (group k g r) d d''
SameOutside-compose {d} k x g r s s' = record {
  same = λ j h.
      SameAt-trans
        (SameAt-trans (with_mode-SameAt d k x j (ground arith)) (s.same j (ground arith)))
        (s'.same j (ground arith));
  command = s'.command ∙ s.command;
  subcommand = s'.subcommand ∙ s.subcommand;
}

-- A group that is not composed: one zero byte, and its members are passed over.
default-Result :
    (n : ℕ) (c d : Cmsg) (m : Mem) (l k : ℕ) (g r : Layout) (rest : List ℕ)
    → IsLayout (group k g r)
    → c.modes k ≡ capi_default
    → m l ≡ 0
    → (let d0 = with_mode d k capi_default in
        Result c r d0 (l + 1) rest (message_2_pars n m d0 (l + 1) (flat r rest)))
    → Result c (group k g r) d l rest (message_2_pars (suc n) m d l (flat (group k g r) rest))
unfolding wire mode_wire
default-Result n c d m l k g r rest (e, start, _, fresh, _, og, _) default zero_byte
      (d1, ar, s1, run) =
    let mode : d1.modes k ≡ capi_default =
      (s1.same k fresh).modes ∙ update_self k capi_default d.modes in
    (
      d1,
      (mode ∙ sym default, rw default tt, ar),
      SameOutside-default k capi_default g r s1,
      message_2_pars-default n m d l k (flat g (flat r rest)) e zero_byte
            (jumpcstruct-flat g k (flat r rest) start og)
          ∙ run
          ∙ ends d1 (rw default (omega arith)),
    )

-- A composed group: its length in one byte, its members, and what follows it.
compose-Result :
    (n : ℕ) (c d d1 : Cmsg) (m : Mem) (l k : ℕ) (g r : Layout) (rest : List ℕ)
    → IsLayout (group k g r)
    → c.modes k ≡ capi_compose
    → (m l == 0) ≡ false
    → (m l == 255) ≡ false
    → Agree c d1 g
    → SameOutside g (with_mode d k capi_compose) d1
    → message_2_pars n m (with_mode d k capi_compose) (l + 1) (flat g (flat r rest))
      ≡ some (d1, l + 1 + length (wire c g), 0x01 ∷ flat r rest)
    → (let l1 = l + 1 + length (wire c g) in
        Result c r d1 l1 rest (message_2_pars n m d1 l1 (flat r rest)))
    → Result c (group k g r) d l rest (message_2_pars (suc n) m d l (flat (group k g r) rest))
unfolding wire mode_wire
compose-Result n c d d1 m l k g r rest ok compose z short ag s1 run (d2, ar, s2, run') =
    let (e, _, fresh_g, fresh_r, apart, _, _) = ok in
    let mode : d2.modes k ≡ capi_compose =
      (s2.same k fresh_r).modes ∙ (s1.same k fresh_g).modes ∙ update_self k capi_compose d.modes in
    let inner : Agree c d2 g = Agree-same c d1 d2 g (λ j i. s2.same j (apart j i)) ag in
    (
      d2,
      (mode ∙ sym compose, rw compose inner, ar),
      SameOutside-compose k capi_compose g r s1 s2,
      message_2_pars-compose n m d l k (l + 1) (flat g (flat r rest)) e z (rw short) run
          ∙ run'
          ∙ ends d2 (rw compose (omega (arith, length-append (wire c g) (wire c r)))),
    )

add-suc-one : (l : ℕ) → suc l ≡ l + 1
add-suc-one l = omega arith

-- The decoder terminates at the end mark of its layout, with the fields of the layout read.
pub message_2_pars-wire :
    (L : Layout) (n : ℕ) (c d : Cmsg) (m : Mem) (l : ℕ) (rest : List ℕ)
    → IsLayout L
    → Fits c L
    → InRange c L
    → Holds m l (wire c L)
    → size L ≤ n
    → Result c L d l rest (message_2_pars n m d l (flat L rest))
unfolding wire mode_wire
message_2_pars-wire L zero c d m l rest ok fit range h enough = absurd (omega (arith, size-pos L))
message_2_pars-wire done (suc n) c d m l rest ok fit range h enough = (
  d,
  tt,
  record {
    same = λ j _. record { nums = refl; structs = refl; modes = refl };
    command = refl;
    subcommand = refl;
  },
  message_2_pars-done n m d l rest,
)
message_2_pars-wire (item t k r) (suc n) c d m l rest (e, sc, fresh, ok) fit range h enough =
    let (here, later) = InRange-split c t k r range in
    let (a, s, at) = get_par-wire c d t k m l sc here (Holds-take m l (par_wire c t k) _ h) in
    let d1 = (get_par m t k d l).0 in
    let l1 = (get_par m t k d l).1 in
    let (d', ag, s', run) =
      message_2_pars-wire r n c d1 m l1 rest ok fit later
        (Holds-drop m l l1 (par_wire c t k) (wire c r) at h) (omega arith) in
    (
      d',
      (AgreeAt-same c d1 d' t k (s'.same k fresh) a, ag),
      SameOutside-item t k r s s',
      message_2_pars-item n m d l k (flat r rest) t e sc
          ∙ run
          ∙ ends d' (omega (arith, length-append (par_wire c t k) (wire c r))),
    )
message_2_pars-wire (group k g r) (suc n) c d m l rest ok fit range h enough =
    let (_, start, _, _, _, og, or) = ok in
    elim (CmStruct-cases (c.modes k)) [
      | inl compose ↦
          let (small, fg) = (rw compose at fit.0) in
          let bytes : Holds m l (length (wire c g) ∷ (wire c g ++ wire c r)) = (rw compose at h) in
          let some_bytes = wire-pos c g start og in
          let d0 = with_mode d k capi_compose in
          let body : Holds m (l + 1) (wire c g ++ wire c r) =
            subst (λ o. Holds m o (wire c g ++ wire c r)) (add-suc-one l) bytes.1 in
          let (d1, ag, s1, run) =
            message_2_pars-wire g n c d0 m (l + 1) (flat r rest) og fg range.0
              (Holds-take m (l + 1) (wire c g) (wire c r) body) (omega arith) in
          compose-Result n c d d1 m l k g r rest ok compose (ground arith) (ground arith) ag s1 run
            (message_2_pars-wire r n c d1 m (l + 1 + length (wire c g)) rest or fit.1 range.1
              (Holds-drop m (l + 1) (l + 1 + length (wire c g)) (wire c g) (wire c r) refl body)
              (omega arith))
      | inr default ↦
          let bytes : Holds m l (0 ∷ wire c r) = (rw default at h) in
          let later : Holds m (l + 1) (wire c r) =
            subst (λ o. Holds m o (wire c r)) (add-suc-one l) bytes.1 in
          default-Result n c d m l k g r rest ok default bytes.0 (
            message_2_pars-wire r n c (with_mode d k capi_default) m (l + 1) rest or fit.1 range.1
              later (omega arith))
    ]
