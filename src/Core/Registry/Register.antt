-- ===== src/Core/Registry/Register.antt =====
-- `capi_register` of linux/drivers/isdn/capi/core.c and the registry's invariant.
use capi4linux.Prelude.{
  ℕ, ◌+◌, ◌<◌, ◌≡◌, refl, ◌∙◌, ap, sym, inl, inr, true, false, Option, none, some, List, [], ◌∷◌,
  ◌==◌, ltb, arith, Bool-cases, ◌%◌, ◌⊎◌,
}
use mathlib.Core.Path.{subst}
use capi4linux.Core.State.{Appl, Core, Driver}
use capi4linux.Core.Numbers.{add_capi_appl, insert_at, free_id}
use capi4linux.Core.Numbers.Free.{
  Ascends, AllUpTo, free_id-IsFree, Numbered, refused, numbered, add_capi_appl-Numbered,
}
use capi4linux.Core.Registry.{Table, listed, register_devs, bind_capi_appl, capi_register}
use capi4linux.Core.Registry.Invariant.{Inv, bit, holders}
use capi4linux.Core.Registry.Grows.{refs_at, AllPresent, register_devs-Grows}

AllPresent-listed :
    (t : Table) (is : List ℕ) → ((j : ℕ) → listed j is ≡ true → 0 < refs_at t j) → AllPresent t is
AllPresent-listed t [] h = tt
AllPresent-listed t (i ∷ is) h =
    (h i (ground arith), AllPresent-listed t is (λ j on. h j (ground arith)))

holders-insert_at :
    (j id : ℕ) (x : Appl) (xs : List Appl)
    → holders j (insert_at id x xs) ≡ bit (x.devs j) + holders j xs
unfolding insert_at
holders-insert_at j id x [] = refl
holders-insert_at j id x (a ∷ xs) = elim (Bool-cases (ltb id a.id)) [
  | inl gap ↦ rw gap refl
  | inr on ↦ rw on (omega (arith, holders-insert_at j ((id + 1) % 65536) x xs))
]

-- What `add_capi_appl` does to the list: nothing, with the number 0, or an insertion.
module _ (max_appls : ℕ) (x : Appl) (xs : List Appl) where
  add-full : ltb max_appls (free_id 1 xs) ≡ true → add_capi_appl max_appls x xs ≡ (0, xs)
  unfolding add_capi_appl
  add-full h = rw (h, add_capi_appl) refl

  add-room :
      ltb max_appls (free_id 1 xs) ≡ false
      → add_capi_appl max_appls x xs
        ≡ (free_id 1 xs, insert_at 1 (record x { id = free_id 1 xs }) xs)
  unfolding add_capi_appl
  add-room h = rw (h, add_capi_appl) refl

  abbrev Sorted : List Appl → Type 0
  Sorted ys = Ascends 0 ys × AllUpTo max_appls ys

  Numbered-Sorted : (r : ℕ × List Appl) → Sorted xs → Numbered max_appls xs r → Sorted r.1
  Numbered-Sorted r s (refused e all) = subst (λ q. Sorted q.1) (sym e) s
  Numbered-Sorted r s (numbered f le asc upto u) = (asc, upto)

-- Either the application is registered, or nothing changes.
abbrev pub Registered : ℕ → Core → ℕ × Core → Type 0
Registered max_appls s r = Inv max_appls r.1 × ((r.0 ≡ 0) ⊎ (r.1 ≡ s))

module _ (drv : Driver) (max_appls : ℕ) (small : max_appls < 65535) (s : Core)
    (v : Inv max_appls s) where
  devs_list-AllPresent : AllPresent s.table s.devs_list
  devs_list-AllPresent =
      AllPresent-listed s.table s.devs_list (λ j on. omega (arith, v.counted j, ap bit on))

  module _ (x : Appl) (empty : (j : ℕ) → x.devs j ≡ false) where
    abbrev id_of : ℕ
    id_of = free_id 1 s.appls

    abbrev registered : Appl × Table
    registered = register_devs drv (record x { id = id_of }) s.devs_list s.table

    abbrev appls_of : List Appl
    appls_of = (add_capi_appl max_appls registered.0 s.appls).1

    appls_of-Sorted : Sorted max_appls registered.0 s.appls appls_of
    appls_of-Sorted =
        Numbered-Sorted max_appls registered.0 s.appls
          (add_capi_appl max_appls registered.0 s.appls) (v.ids, v.id_bound)
          (add_capi_appl-Numbered max_appls registered.0 s.appls small v.ids v.id_bound)

    bound-Inv :
        ltb max_appls id_of ≡ false
        → Inv max_appls (record s { table = registered.1; appls = appls_of })
    bound-Inv room =
        let g =
          register_devs-Grows drv s.devs_list (record x { id = id_of }) s.table
            devs_list-AllPresent in
        let held = ap (λ q. q.1) (add-room max_appls registered.0 s.appls room) in
        let count = λ (j : ℕ).
          ap (holders j) held
          ∙ holders-insert_at j 1 (record registered.0 { id = id_of }) s.appls in
        record {
          ids = appls_of-Sorted.0;
          id_bound = appls_of-Sorted.1;
          counted = λ j. omega (arith, v.counted j, g.gained j, count j, ap bit (empty j));
          readable = λ j h. g.later.readable j ∙ v.readable j h;
          number = v.number;
          once = v.once;
        }

    bind-full : ltb max_appls id_of ≡ true → bind_capi_appl drv max_appls x s ≡ (0x1001, s)
    unfolding bind_capi_appl
    bind-full h = rw (add-full max_appls x s.appls h, bind_capi_appl) refl

    bind-room :
        ltb max_appls id_of ≡ false
        → bind_capi_appl drv max_appls x s
          ≡ (0, record s { table = registered.1; appls = appls_of })
    unfolding bind_capi_appl
    bind-room h =
        let positive : 0 < id_of =
          (free_id-IsFree max_appls small 0 s.appls v.ids v.id_bound (omega arith)).above in
        let test : (id_of == 0) ≡ false = ground arith in
        rw (add-room max_appls x s.appls h, test, bind_capi_appl) refl

    bind_capi_appl-Registered : Registered max_appls s (bind_capi_appl drv max_appls x s)
    bind_capi_appl-Registered = elim (Bool-cases (ltb max_appls id_of)) [
      | inl full ↦ rw (bind-full full) (v, inr refl)
      | inr room ↦ rw (bind-room room) (bound-Inv room, inl refl)
    ]

  -- With fewer than 65535 numbers, every call of capi_register keeps the registry invariant
  -- whatever the drivers answer, and a call that answers an error changes nothing.
  pub capi_register-Registered :
      (x : Option Appl) → Registered max_appls s (capi_register drv max_appls x s)
  unfolding capi_register
  capi_register-Registered none = (v, inr refl)
  capi_register-Registered (some a) = elim (Bool-cases (ltb a.datablklen 128)) [
    | inl short ↦ rw short (v, inr refl)
    | inr long ↦ rw long (bind_capi_appl-Registered _ (λ j. refl))
  ]
