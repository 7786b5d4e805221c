-- ===== src/Capidrv/Links/FreePlci.antt =====
-- `free_plci` of linux/drivers/isdn/capi/capidrv.c and the links.
use capi4linux.Prelude.{
  ℕ, ◌≡◌, refl, sym, ap, ◌∙◌, inl, inr, false, Option, none, some, ◌==◌, ==_iff, among, lt→ltb,
  none-ne-some, some-injective,
}
use mathlib.Core.Bool.{false≢true}
use capi4linux.Cmsg.Struct.{update, update_other}
use capi4linux.Capidrv.Card.{PlciNode, Bchan, Card, set_bchan}
use capi4linux.Capidrv.Nodes.{unchain, free_plci}
use capi4linux.Capidrv.Links.{Links, Good, Safe, update-cases}
use capi4linux.Capidrv.Links.Chains.{
  apart, among-unchain, unchain_gone, unchain_kept, unchain-NoTwice,
}

-- A place that was cleared shows what it had elsewhere.
pub cleared-cases :
    {A : Type 0} (k j : ℕ) (a : A) (f : ℕ → Option A)
    → update k none f j ≡ some a
    → ((j == k) ≡ false) × (f j ≡ some a)
cleared-cases k j a f e = elim (update-cases k j none f) [
  | inl (same, u) ↦ absurd (none-ne-some (sym u ∙ e))
  | inr (other, u) ↦ (other, sym u ∙ e)
]

module _ (s : Card) (g : Good s) (p : ℕ) (q : PlciNode) (at : s.plcis p ≡ some q) where
  abbrev idle : Bchan
  idle = record (s.bchans q.chan) { plcip = none; disconnecting = false; incoming = false }

  abbrev less_bchans : ℕ → Bchan
  less_bchans = update q.chan idle s.bchans

  abbrev less_plcis : ℕ → Option PlciNode
  less_plcis = update p none s.plcis

  -- Another PLCI is on another channel.
  other_chan :
      (x : ℕ) (y : PlciNode) → (x == p) ≡ false → s.plcis x ≡ some y → (y.chan == q.chan) ≡ false
  other_chan x y other e = apart y.chan q.chan (λ same.
      let here = (g.owner p q at).1 in
      let there = (g.owner x y e).1 in
      let it : x ≡ p = some-injective x p (sym there ∙ ap (λ c. (s.bchans c).plcip) same ∙ here) in
      absurd (false≢true (sym other ∙ (==_iff x p).1 it)))

  less-Links :
      Links (unchain p s.plci_list) less_plcis s.nccis less_bchans s.nbchan s.fresh s.alloc_skb
  less-Links = record {
    live = λ x h.
        let (y, e) = g.live x (among-unchain x p s.plci_list h) in
        let ne : (x == p) ≡ false = apart x p (λ same. absurd (
          false≢true (
            sym (unchain_gone p s.plci_list g.once)
            ∙ ap (λ z. among z (unchain p s.plci_list)) (sym same)
            ∙ h))) in
        (y, update_other p x none s.plcis ne ∙ e);
    chained = λ x y e.
        let (ne, e1) = cleared-cases p x y s.plcis e in
        unchain_kept x p s.plci_list ne (g.chained x y e1);
    some_chan = g.some_chan;
    buffers = g.buffers;
    once = unchain-NoTwice p s.plci_list g.once;
    owner = λ x y e.
        let (ne, e1) = cleared-cases p x y s.plcis e in
        let (lt, own) = g.owner x y e1 in
        (
          lt,
          ap (λ b. b.plcip) (update_other q.chan y.chan idle s.bchans (other_chan x y ne e1)) ∙ own,
        );
    on_chan = λ c x e. elim (update-cases q.chan c idle s.bchans) [
      | inl (same, u) ↦ absurd (none-ne-some (sym (ap (λ b. b.plcip) u) ∙ e))
      | inr (other, u) ↦
          let (y, e1, on) = g.on_chan c x (sym (ap (λ b. b.plcip) u) ∙ e) in
          let ne : (x == p) ≡ false = apart x p (λ same.
            let it : y ≡ q = some-injective y q (sym e1 ∙ ap s.plcis same ∙ at) in
            absurd (false≢true (sym other ∙ (==_iff c q.chan).1 (sym on ∙ ap (λ z. z.chan) it)))) in
          (y, update_other p x none s.plcis ne ∙ e1, on)
    ];
    ncci_on_chan = λ c n e. elim (update-cases q.chan c idle s.bchans) [
      | inl (same, u) ↦
          g.ncci_on_chan c n (ap (λ x. (s.bchans x).nccip) same ∙ sym (ap (λ b. b.nccip) u) ∙ e)
      | inr (other, u) ↦ g.ncci_on_chan c n (sym (ap (λ b. b.nccip) u) ∙ e)
    ];
    below = λ x y n e h. let (ne, e1) = cleared-cases p x y s.plcis e in g.below x y n e1 h;
    once_below = λ x y e. let (ne, e1) = cleared-cases p x y s.plcis e in g.once_below x y e1;
    old_plci = λ x y e. let (ne, e1) = cleared-cases p x y s.plcis e in g.old_plci x y e1;
    old_ncci = g.old_ncci;
  }

  -- A PLCI that is there is freed.
  pub free_plci-Safe : Safe (free_plci p s)
  unfolding free_plci set_bchan
  free_plci-Safe =
      let inside = lt→ltb q.chan s.nbchan (g.owner p q at).0 in
      let there = g.chained p q at in
      (
        record s { plci_list = unchain p s.plci_list; plcis = less_plcis; bchans = less_bchans },
        (rw (at, there, inside, free_plci, set_bchan) refl),
        less-Links,
      )
