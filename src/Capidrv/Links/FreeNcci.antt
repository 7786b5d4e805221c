-- ===== src/Capidrv/Links/FreeNcci.antt =====
-- `free_ncci` of linux/drivers/isdn/capi/capidrv.c and the links.
use capi4linux.Prelude.{
  ℕ, ◌<◌, ◌≡◌, refl, sym, ap, ◌∙◌, inl, inr, true, false, Option, none, some, ◌==◌, ==_iff, among,
  NoTwice, lt→ltb, none-ne-some, some-injective,
}
use mathlib.Core.Path.{subst}
use mathlib.Core.Bool.{false≢true}
use capi4linux.Cmsg.Struct.{update, update_other}
use capi4linux.Capidrv.Card.{PlciNode, NcciNode, Bchan, Card, set_bchan, set_plci}
use capi4linux.Capidrv.Nodes.{unchain, free_ncci}
use capi4linux.Capidrv.Links.{Links, Good, Safe, update-cases}
use capi4linux.Capidrv.Links.Chains.{apart, among-unchain, unchain_gone, unchain-NoTwice}
use capi4linux.Capidrv.Links.FreePlci.{cleared-cases}

module _ (s : Card) (g : Good s) (n : ℕ) (k : NcciNode) (q : PlciNode) (at : s.nccis n ≡ some k)
    (own : s.plcis k.plcip ≡ some q) where
  abbrev less_node : PlciNode
  less_node = record q { ncci_list = unchain n q.ncci_list }

  abbrev less_plcis : ℕ → Option PlciNode
  less_plcis = update k.plcip (some less_node) s.plcis

  abbrev quiet_chan : Bchan
  quiet_chan = record (s.bchans k.chan) { nccip = none }

  abbrev less_bchans : ℕ → Bchan
  less_bchans = update k.chan quiet_chan s.bchans

  abbrev less_nccis : ℕ → Option NcciNode
  less_nccis = update n none s.nccis

  -- A PLCI afterwards is one before, with the same channel, and a chain that has less.
  before :
      (x : ℕ) (y : PlciNode)
      → less_plcis x ≡ some y
      → (z : PlciNode) × (s.plcis x ≡ some z)
        × (z.chan ≡ y.chan)
        × ((m : ℕ) → among m y.ncci_list ≡ true → (among m z.ncci_list ≡ true) × ((m == n) ≡ false))
        × NoTwice y.ncci_list
  before x y e = elim (update-cases k.plcip x (some less_node) s.plcis) [
    | inl (same, u) ↦
        let it : less_node ≡ y = some-injective less_node y (sym u ∙ e) in
        (
          q,
          ap s.plcis same ∙ own,
          ap (λ z. z.chan) it,
          λ m h.
              let h1 : among m (unchain n q.ncci_list) ≡ true =
                ap (λ z. among m z.ncci_list) it ∙ h in
              (
                among-unchain m n q.ncci_list h1,
                apart m n (λ e1. absurd (
                    false≢true (
                      sym (unchain_gone n q.ncci_list (g.once_below k.plcip q own))
                      ∙ ap (λ z. among z (unchain n q.ncci_list)) (sym e1)
                      ∙ h1))),
              ),
          subst (λ z. NoTwice z.ncci_list) it
              (unchain-NoTwice n q.ncci_list (g.once_below k.plcip q own)),
        )
    | inr (other, u) ↦
        let e1 = sym u ∙ e in
        (
          y,
          e1,
          refl,
          λ m h. (
            h,
            apart m n (λ e2.
                let (k1, e3, own1, on1) = g.below x y m e1 h in
                let it : k1 ≡ k = some-injective k1 k (sym e3 ∙ ap s.nccis e2 ∙ at) in
                absurd (
                  false≢true (sym other ∙ (==_iff x k.plcip).1 (sym own1 ∙ ap (λ z. z.plcip) it)))),
          ),
          g.once_below x y e1,
        )
  ]

  after :
      (x : ℕ) (z : PlciNode)
      → s.plcis x ≡ some z
      → (y : PlciNode) × (less_plcis x ≡ some y) × (y.chan ≡ z.chan)
  after x z e = elim (update-cases k.plcip x (some less_node) s.plcis) [
    | inl (same, u) ↦
        let it : q ≡ z = some-injective q z (sym own ∙ ap s.plcis (sym same) ∙ e) in
        (less_node, u, ap (λ w. w.chan) it)
    | inr (other, u) ↦ (z, u ∙ e, refl)
  ]

  same_plcip : (c : ℕ) → (less_bchans c).plcip ≡ (s.bchans c).plcip
  same_plcip c = elim (update-cases k.chan c quiet_chan s.bchans) [
    | inl (same, u) ↦ ap (λ b. b.plcip) u ∙ ap (λ x. (s.bchans x).plcip) (sym same)
    | inr (other, u) ↦ ap (λ b. b.plcip) u
  ]

  less-Links : Links s.plci_list less_plcis less_nccis less_bchans s.nbchan s.fresh s.alloc_skb
  less-Links = record {
    live = λ x h. let (z, e) = g.live x h in let (y, e1, c) = after x z e in (y, e1);
    chained = λ x y e. let (z, e1, on, less, once) = before x y e in g.chained x z e1;
    some_chan = g.some_chan;
    buffers = g.buffers;
    once = g.once;
    owner = λ x y e.
        let (z, e1, on, less, once) = before x y e in
        let (lt, here) = g.owner x z e1 in
        (
          subst (λ c. c < s.nbchan) on lt,
          same_plcip y.chan ∙ subst (λ c. (s.bchans c).plcip ≡ some x) on here,
        );
    on_chan = λ c x e.
        let (z, e1, on) = g.on_chan c x (sym (same_plcip c) ∙ e) in
        let (y, e2, same) = after x z e1 in (y, e2, same ∙ on);
    ncci_on_chan = λ c m e. elim (update-cases k.chan c quiet_chan s.bchans) [
      | inl (same, u) ↦ absurd (none-ne-some (sym (ap (λ b. b.nccip) u) ∙ e))
      | inr (other, u) ↦
          let (k1, e1, on) = g.ncci_on_chan c m (sym (ap (λ b. b.nccip) u) ∙ e) in
          let ne : (m == n) ≡ false = apart m n (λ e2.
            let it : k1 ≡ k = some-injective k1 k (sym e1 ∙ ap s.nccis e2 ∙ at) in
            absurd (false≢true (sym other ∙ (==_iff c k.chan).1 (sym on ∙ ap (λ z. z.chan) it)))) in
          (k1, update_other n m none s.nccis ne ∙ e1, on)
    ];
    below = λ x y m e h.
        let (z, e1, on, less, once) = before x y e in
        let (h1, ne) = less m h in
        let (k1, e2, own1, on1) = g.below x z m e1 h1 in
        (k1, update_other n m none s.nccis ne ∙ e2, own1, on1 ∙ on);
    once_below = λ x y e. let (z, e1, on, less, once) = before x y e in once;
    old_plci = λ x y e. let (z, e1, on, less, once) = before x y e in g.old_plci x z e1;
    old_ncci = λ m k1 e. let (ne, e1) = cleared-cases n m k1 s.nccis e in g.old_ncci m k1 e1;
  }

  abbrev pub without_ncci : Card
  without_ncci = record s { plcis = less_plcis; nccis = less_nccis; bchans = less_bchans }

  free_ncci-runs : free_ncci n s ≡ some without_ncci
  unfolding free_ncci set_plci set_bchan
  free_ncci-runs =
      rw (at, own, lt→ltb k.chan s.nbchan (g.old_ncci n k at).1, free_ncci, set_plci, set_bchan)
        refl

  pub free_ncci-Safe : Safe (free_ncci n s)
  free_ncci-Safe = (without_ncci, free_ncci-runs, less-Links)

  -- The PLCIs stay.
  pub free_ncci_stay :
      (s' : Card)
      → free_ncci n s ≡ some s'
      → (x : ℕ) (z : PlciNode) → s.plcis x ≡ some z
      → (y : PlciNode) × (s'.plcis x ≡ some y) × (y.chan ≡ z.chan)
  free_ncci_stay s' e =
      let same : without_ncci ≡ s' = some-injective without_ncci s' (sym free_ncci-runs ∙ e) in
      subst
        (λ w.
          (x : ℕ) (z : PlciNode)
          → s.plcis x ≡ some z
          → (y : PlciNode) × (w.plcis x ≡ some y) × (y.chan ≡ z.chan))
        same after
