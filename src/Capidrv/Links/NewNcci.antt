-- ===== src/Capidrv/Links/NewNcci.antt =====
-- `new_ncci` of linux/drivers/isdn/capi/capidrv.c and the links.
use capi4linux.Prelude.{
  ℕ, ◌+◌, ◌<◌, ◌≡◌, refl, sym, ap, ◌∙◌, inl, inr, true, false, Option, some, [], ◌∷◌, among,
  NoTwice, lt→ltb, arith, Bool-cases, some-injective,
}
use mathlib.Core.Path.{subst}
use capi4linux.Cmsg.Struct.{update, update_self, update_other}
use capi4linux.Capidrv.Card.{PlciNode, NcciNode, Bchan, Card, set_bchan}
use capi4linux.Capidrv.Nodes.{new_ncci}
use capi4linux.Capidrv.Links.{Links, Good, Steady, update-cases}
use capi4linux.Capidrv.Links.Chains.{apart}

module _ (s : Card) (g : Good s) (p : ℕ) (q : PlciNode) (at : s.plcis p ≡ some q) (ncci : ℕ) where
  -- The new node.
  abbrev pub node : NcciNode
  node = record {
    plcip = p;
    ncci = ncci;
    msgid = 0;
    chan = q.chan;
    state = 0;
    oldstate = 0;
    datahandle = 0;
    ackqueue = [];
  }

  abbrev longer : PlciNode
  longer = record q { ncci_list = s.fresh ∷ q.ncci_list }

  abbrev more_plcis : ℕ → Option PlciNode
  more_plcis = update p (some longer) s.plcis

  abbrev more_nccis : ℕ → Option NcciNode
  more_nccis = update s.fresh (some node) s.nccis

  abbrev busy : Bchan
  busy = record (s.bchans q.chan) { nccip = some s.fresh }

  abbrev more_bchans : ℕ → Bchan
  more_bchans = update q.chan busy s.bchans

  fresh_ncci : (k : NcciNode) → s.nccis s.fresh ≡ some k → ⊥
  fresh_ncci k e = omega (arith, (g.old_ncci s.fresh k e).0)

  more_other : (n : ℕ) (k : NcciNode) → s.nccis n ≡ some k → more_nccis n ≡ some k
  more_other n k e =
      update_other s.fresh n (some node) s.nccis
        (apart n s.fresh (λ same. fresh_ncci k (ap s.nccis (sym same) ∙ e)))
      ∙ e

  same_plcip : (c : ℕ) → (more_bchans c).plcip ≡ (s.bchans c).plcip
  same_plcip c = elim (update-cases q.chan c busy s.bchans) [
    | inl (same, u) ↦ ap (λ b. b.plcip) u ∙ ap (λ x. (s.bchans x).plcip) (sym same)
    | inr (other, u) ↦ ap (λ b. b.plcip) u
  ]

  not_below : among s.fresh q.ncci_list ≡ false
  not_below = elim (Bool-cases (among s.fresh q.ncci_list)) [
    | inl there ↦ let (k, e, own, on) = g.below p q s.fresh at there in absurd (fresh_ncci k e)
    | inr out ↦ out
  ]

  -- What a PLCI was before.
  before :
      (x : ℕ) (y : PlciNode)
      → more_plcis x ≡ some y
      → (y0 : PlciNode) × (s.plcis x ≡ some y0) × (y.chan ≡ y0.chan)
  before x y e = elim (update-cases p x (some longer) s.plcis) [
    | inl (same, u) ↦
        let it : longer ≡ y = some-injective longer y (sym u ∙ e) in
        (q, ap s.plcis same ∙ at, sym (ap (λ z. z.chan) it))
    | inr (other, u) ↦ (y, sym u ∙ e, refl)
  ]

  after :
      (x : ℕ) (y0 : PlciNode)
      → s.plcis x ≡ some y0
      → (y : PlciNode) × (more_plcis x ≡ some y) × (y.chan ≡ y0.chan)
  after x y0 e = elim (update-cases p x (some longer) s.plcis) [
    | inl (same, u) ↦
        let it : q ≡ y0 = some-injective q y0 (sym at ∙ ap s.plcis (sym same) ∙ e) in
        (longer, u, ap (λ z. z.chan) it)
    | inr (other, u) ↦ (y0, u ∙ e, refl)
  ]

  more_below :
      (x : ℕ) (y : PlciNode) (n : ℕ)
      → more_plcis x ≡ some y
      → among n y.ncci_list ≡ true
      → (k : NcciNode) × (more_nccis n ≡ some k) × (k.plcip ≡ x) × (k.chan ≡ y.chan)
  more_below x y n e h = elim (update-cases p x (some longer) s.plcis) [
    | inl (same, u) ↦
        let it : longer ≡ y = some-injective longer y (sym u ∙ e) in
        elim (update-cases s.fresh n (some node) s.nccis) [
          | inl (new, u1) ↦ (node, u1, sym same, ap (λ z. z.chan) it)
          | inr (other, u1) ↦
              let h' : among n (s.fresh ∷ q.ncci_list) ≡ true =
                ap (λ z. among n z.ncci_list) it ∙ h in
              let (k, e1, own, on) = g.below p q n at (ground arith) in
              (k, u1 ∙ e1, own ∙ sym same, on ∙ ap (λ z. z.chan) it)
        ]
    | inr (other, u) ↦
        let (k, e1, own, on) = g.below x y n (sym u ∙ e) h in (k, more_other n k e1, own, on)
  ]

  pub more-Links :
      Links s.plci_list more_plcis more_nccis more_bchans s.nbchan (s.fresh + 1) s.alloc_skb
  more-Links = record {
    live = λ x h. let (y, e) = g.live x h in let (y', e', on) = after x y e in (y', e');
    chained = λ x y e. let (y0, e0, on) = before x y e in g.chained x y0 e0;
    some_chan = g.some_chan;
    buffers = g.buffers;
    once = g.once;
    owner = λ x y e.
        let (y0, e0, on) = before x y e in
        let (lt, own) = g.owner x y0 e0 in
        (
          subst (λ c. c < s.nbchan) (sym on) lt,
          same_plcip y.chan ∙ ap (λ c. (s.bchans c).plcip) on ∙ own,
        );
    on_chan = λ c x e.
        let (y, e1, on) = g.on_chan c x (sym (same_plcip c) ∙ e) in
        let (y', e', on') = after x y e1 in (y', e', on' ∙ on);
    ncci_on_chan = λ c n e. elim (update-cases q.chan c busy s.bchans) [
      | inl (same, u) ↦
          let it : s.fresh ≡ n = some-injective s.fresh n (sym (ap (λ b. b.nccip) u) ∙ e) in
          (node, ap more_nccis (sym it) ∙ update_self s.fresh (some node) s.nccis, sym same)
      | inr (other, u) ↦
          let (k, e1, on) = g.ncci_on_chan c n (sym (ap (λ b. b.nccip) u) ∙ e) in
          (k, more_other n k e1, on)
    ];
    below = more_below;
    once_below = λ x y e. elim (update-cases p x (some longer) s.plcis) [
      | inl (same, u) ↦
          let it : longer ≡ y = some-injective longer y (sym u ∙ e) in
          subst (λ z. NoTwice z.ncci_list) it (not_below, g.once_below p q at)
      | inr (other, u) ↦ g.once_below x y (sym u ∙ e)
    ];
    old_plci = λ x y e. let (y0, e0, on) = before x y e in omega (arith, g.old_plci x y0 e0);
    old_ncci = λ n k e. elim (update-cases s.fresh n (some node) s.nccis) [
      | inl (same, u) ↦
          let it : node ≡ k = some-injective node k (sym u ∙ e) in
          (omega arith, subst (λ z. z.chan < s.nbchan) it (g.owner p q at).0)
      | inr (other, u) ↦ let (old, lt) = g.old_ncci n k (sym u ∙ e) in (omega arith, lt)
    ];
  }

  abbrev pub with_ncci : Card
  with_ncci = record s {
    plcis = more_plcis;
    nccis = more_nccis;
    bchans = more_bchans;
    fresh = s.fresh + 1;
  }

  pub new_ncci-Steady : Steady s (new_ncci p ncci s)
  unfolding new_ncci set_bchan
  new_ncci-Steady = (
    with_ncci,
    (rw (at, lt→ltb q.chan s.nbchan (g.owner p q at).0, new_ncci, set_bchan) refl),
    more-Links,
    record { plci = after; ncci = λ n k e. (k, more_other n k e, refl, refl); nbchan = refl },
  )

  -- The new node is there.
  pub new_ncci-node : (s' : Card) → new_ncci p ncci s ≡ some s' → s'.nccis s.fresh ≡ some node
  unfolding new_ncci-Steady
  new_ncci-node s' e =
      let same : with_ncci ≡ s' = some-injective with_ncci s' (sym new_ncci-Steady.1 ∙ e) in
      ap (λ x. x.nccis s.fresh) (sym same) ∙ update_self s.fresh (some node) s.nccis
