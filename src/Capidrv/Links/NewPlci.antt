-- ===== src/Capidrv/Links/NewPlci.antt =====
-- `new_plci` of linux/drivers/isdn/capi/capidrv.c and the links.
use capi4linux.Prelude.{
  some-injective, ℕ, ◌+◌, ◌<◌, ◌≡◌, refl, sym, ap, ◌∙◌, inl, inr, false, Option, none, some, ◌∷◌,
  ◌==◌, among, NoTwice, lt→ltb, arith, Bool-cases, none-ne-some,
}
use mathlib.Core.Path.{subst}
use mathlib.Core.Bool.{false≢true}
use capi4linux.Cmsg.Struct.{update, update_self, update_other}
use capi4linux.Capidrv.Card.{PlciNode, Bchan, Card, set_bchan}
use capi4linux.Capidrv.Nodes.{new_node, new_plci}
use capi4linux.Capidrv.Links.{Links, Good, Steady, update-cases}
use capi4linux.Capidrv.Links.Chains.{apart}

module _ (s : Card) (g : Good s) where
  -- The place of the next node is free.
  pub fresh_plci : (q : PlciNode) → s.plcis s.fresh ≡ some q → ⊥
  fresh_plci q e = omega (arith, g.old_plci s.fresh q e)

  module _ (chan : ℕ) (inside : chan < s.nbchan) (idle : (s.bchans chan).plcip ≡ none) where
    abbrev added_plcis : ℕ → Option PlciNode
    added_plcis = update s.fresh (some (new_node chan)) s.plcis

    abbrev added_bchans : ℕ → Bchan
    added_bchans = update chan (record (s.bchans chan) { plcip = some s.fresh }) s.bchans

    added_other : (p : ℕ) (q : PlciNode) → s.plcis p ≡ some q → added_plcis p ≡ some q
    added_other p q e =
        update_other s.fresh p (some (new_node chan)) s.plcis
          (apart p s.fresh (λ same. fresh_plci q (ap s.plcis (sym same) ∙ e)))
        ∙ e

    pub added-Links :
        Links
          (s.fresh ∷ s.plci_list)
          added_plcis
          s.nccis
          added_bchans
          s.nbchan
          (s.fresh + 1)
          s.alloc_skb
    added-Links = record {
      live = λ p h. elim (update-cases s.fresh p (some (new_node chan)) s.plcis) [
        | inl (same, u) ↦ (new_node chan, u)
        | inr (other, u) ↦ let (q, e) = g.live p (ground arith) in (q, u ∙ e)
      ];
      chained = λ p q e. elim (update-cases s.fresh p (some (new_node chan)) s.plcis) [
        | inl (same, u) ↦ ground arith
        | inr (other, u) ↦ let h = g.chained p q (sym u ∙ e) in ground arith
      ];
      some_chan = g.some_chan;
      buffers = g.buffers;
      once = (not_there, g.once);
      owner = λ p q e. elim (update-cases s.fresh p (some (new_node chan)) s.plcis) [
        | inl (same, u) ↦
            let it : new_node chan ≡ q = some-injective (new_node chan) q (sym u ∙ e) in
            let at : chan ≡ q.chan = ap (λ x. x.chan) it in
            (
              subst (λ c. c < s.nbchan) at inside,
              subst (λ c. (added_bchans c).plcip ≡ some p) at
                  (ap (λ x. x.plcip) (update_self chan _ s.bchans) ∙ ap some (sym same)),
            )
        | inr (other, u) ↦
            let (lt, own) = g.owner p q (sym u ∙ e) in
            let ne : (q.chan == chan) ≡ false =
              apart q.chan chan
                (λ same. none-ne-some (sym idle ∙ ap (λ c. (s.bchans c).plcip) (sym same) ∙ own)) in
            (lt, ap (λ x. x.plcip) (update_other chan q.chan _ s.bchans ne) ∙ own)
      ];
      on_chan = λ c p e.
          elim (update-cases chan c (record (s.bchans chan) { plcip = some s.fresh }) s.bchans) [
            | inl (same, u) ↦
                let it : s.fresh ≡ p = some-injective s.fresh p (sym (ap (λ x. x.plcip) u) ∙ e) in
                (
                  new_node chan,
                  ap added_plcis (sym it) ∙ update_self s.fresh (some (new_node chan)) s.plcis,
                  sym same,
                )
            | inr (other, u) ↦
                let (q, e1, at) = g.on_chan c p (sym (ap (λ x. x.plcip) u) ∙ e) in
                (q, added_other p q e1, at)
          ];
      ncci_on_chan = λ c n e.
          elim (update-cases chan c (record (s.bchans chan) { plcip = some s.fresh }) s.bchans) [
            | inl (same, u) ↦
                g.ncci_on_chan c n
                  (ap (λ x. (s.bchans x).nccip) same ∙ sym (ap (λ x. x.nccip) u) ∙ e)
            | inr (other, u) ↦ g.ncci_on_chan c n (sym (ap (λ x. x.nccip) u) ∙ e)
          ];
      below = λ p q n e h. elim (update-cases s.fresh p (some (new_node chan)) s.plcis) [
        | inl (same, u) ↦
            let it : new_node chan ≡ q = some-injective (new_node chan) q (sym u ∙ e) in
            absurd (false≢true (ap (λ x. among n x.ncci_list) it ∙ h))
        | inr (other, u) ↦ g.below p q n (sym u ∙ e) h
      ];
      once_below = λ p q e. elim (update-cases s.fresh p (some (new_node chan)) s.plcis) [
        | inl (same, u) ↦
            let it : new_node chan ≡ q = some-injective (new_node chan) q (sym u ∙ e) in
            subst (λ x. NoTwice x.ncci_list) it tt
        | inr (other, u) ↦ g.once_below p q (sym u ∙ e)
      ];
      old_plci = λ p q e. elim (update-cases s.fresh p (some (new_node chan)) s.plcis) [
        | inl (same, u) ↦ omega arith
        | inr (other, u) ↦ omega (arith, g.old_plci p q (sym u ∙ e))
      ];
      old_ncci = λ n k e. let (old, at) = g.old_ncci n k e in (omega arith, at);
    }
      where
        not_there : among s.fresh s.plci_list ≡ false
        not_there = elim (Bool-cases (among s.fresh s.plci_list)) [
          | inl there ↦ let (q, e) = g.live s.fresh there in absurd (fresh_plci q e)
          | inr out ↦ out
        ]

    -- The card after `new_plci`.
    abbrev pub with_plci : Card
    with_plci = record s {
      plci_list = s.fresh ∷ s.plci_list;
      plcis = added_plcis;
      bchans = added_bchans;
      fresh = s.fresh + 1;
    }

    pub new_plci-Steady : Steady s (new_plci chan s)
    unfolding new_plci set_bchan
    new_plci-Steady = (
      with_plci,
      (rw (lt→ltb chan s.nbchan inside, set_bchan) refl),
      added-Links,
      record {
        plci = λ p q e. (q, added_other p q e, refl);
        ncci = λ n k e. (k, e, refl, refl);
        nbchan = refl;
      },
    )

    -- The new node is there.
    pub new_plci-node :
        (s' : Card) → new_plci chan s ≡ some s' → s'.plcis s.fresh ≡ some (new_node chan)
    unfolding new_plci-Steady
    new_plci-node s' e =
        let same : with_plci ≡ s' = some-injective with_plci s' (sym new_plci-Steady.1 ∙ e) in
        ap (λ x. x.plcis s.fresh) (sym same) ∙ update_self s.fresh (some (new_node chan)) s.plcis
