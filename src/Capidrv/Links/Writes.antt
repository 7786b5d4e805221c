-- ===== src/Capidrv/Links/Writes.antt =====
-- Writes to nodes and channels in linux/drivers/isdn/capi/capidrv.c and the links.
use capi4linux.Prelude.{
  some-injective, ℕ, ◌+◌, Bool, le→leb, ◌<◌, ◌≡◌, refl, sym, ap, ◌∙◌, true, inl, inr, Option, some,
  List, among, NoTwice, ◌>>=◌, lt→ltb,
}
use mathlib.Core.Path.{subst}
use capi4linux.Cmsg.Struct.{Cmsg, update, update_self}
use capi4linux.Cmsg.Encode.{capi_cmsg2message, cmsg_len}
use capi4linux.Capidrv.Buffer.{Sends}
use capi4linux.Capidrv.Card.{
  PlciNode, NcciNode, Bchan, Card, sent, emit, set_plci, set_ncci, set_bchan, send_message,
  no_bytes,
}
use capi4linux.Capidrv.Links.{Links, Good, Linked, Stay, Steady, look, update-cases}

abbrev AlikePlci : PlciNode → PlciNode → Type 0
AlikePlci q q' = (q'.chan ≡ q.chan) × (q'.ncci_list ≡ q.ncci_list)

abbrev AlikeNcci : NcciNode → NcciNode → Type 0
AlikeNcci k k' = (k'.plcip ≡ k.plcip) × (k'.chan ≡ k.chan)

-- Two stores with the same places, and alike nodes.
abbrev AlikeStores : {A : Type 0} → (A → A → Type 0) → (ℕ → Option A) → (ℕ → Option A) → Type 0
AlikeStores {A} R f g =
    ((p : ℕ) (q : A) → f p ≡ some q → (q' : A) × (g p ≡ some q') × R q q')
    × ((p : ℕ) (q' : A) → g p ≡ some q' → (q : A) × (f p ≡ some q) × R q q')

AlikeStores-refl :
    {A : Type 0} (R : A → A → Type 0) (f : ℕ → Option A) → ((a : A) → R a a) → AlikeStores R f f
AlikeStores-refl R f r = (λ p q e. (q, e, r q), λ p q e. (q, e, r q))

AlikeStores-update :
    {A : Type 0} (R : A → A → Type 0) (f : ℕ → Option A) (k : ℕ) (a b : A)
    → ((x : A) → R x x)
    → f k ≡ some a
    → R a b
    → AlikeStores R f (update k (some b) f)
AlikeStores-update {A} R f k a b r at ab = (there, back)
  where
    there : (p : ℕ) (q : A) → f p ≡ some q → (q' : A) × (update k (some b) f p ≡ some q') × R q q'
    there p q e = elim (update-cases k p (some b) f) [
      | inl (same, u) ↦
          let e' : some a ≡ some q = sym at ∙ ap f (sym same) ∙ e in
          (b, u, subst (λ x. R x b) (some-injective a q e') ab)
      | inr (other, u) ↦ (q, u ∙ e, r q)
    ]

    back : (p : ℕ) (q' : A) → update k (some b) f p ≡ some q' → (q : A) × (f p ≡ some q) × R q q'
    back p q' e = elim (update-cases k p (some b) f) [
      | inl (same, u) ↦
          let e' : some b ≡ some q' = sym u ∙ e in
          (a, ap f same ∙ at, subst (λ x. R a x) (some-injective b q' e') ab)
      | inr (other, u) ↦ (q', sym u ∙ e, r q')
    ]

abbrev AlikeBchans : (ℕ → Bchan) → (ℕ → Bchan) → Type 0
AlikeBchans f g = (c : ℕ) → ((g c).plcip ≡ (f c).plcip) × ((g c).nccip ≡ (f c).nccip)

Links-alike :
    (l : List ℕ) (ps ps' : ℕ → Option PlciNode) (ns ns' : ℕ → Option NcciNode) (b b' : ℕ → Bchan)
    (n f : ℕ) (o : ℕ → Bool)
    → AlikeStores AlikePlci ps ps'
    → AlikeStores AlikeNcci ns ns'
    → AlikeBchans b b'
    → Links l ps ns b n f o
    → Links l ps' ns' b' n f o
Links-alike l ps ps' ns ns' b b' n f o ap_ an ab v = record {
  live = λ p h. let (q, e) = v.live p h in let (q', e', r) = ap_.0 p q e in (q', e');
  chained = λ p q e. let (q0, e0, r) = ap_.1 p q e in v.chained p q0 e0;
  some_chan = v.some_chan;
  buffers = v.buffers;
  once = v.once;
  owner = λ p q e.
      let (q0, e0, r) = ap_.1 p q e in
      let (lt, at) = v.owner p q0 e0 in
      (subst (λ c. c < n) (sym r.0) lt, (ab q.chan).0 ∙ ap (λ c. (b c).plcip) r.0 ∙ at);
  on_chan = λ c p e.
      let (q, e1, at) = v.on_chan c p (sym (ab c).0 ∙ e) in
      let (q', e', r) = ap_.0 p q e1 in (q', e', r.0 ∙ at);
  ncci_on_chan = λ c m e.
      let (k, e1, at) = v.ncci_on_chan c m (sym (ab c).1 ∙ e) in
      let (k', e', r) = an.0 m k e1 in (k', e', r.1 ∙ at);
  below = λ p q m e h.
      let (q0, e0, r) = ap_.1 p q e in
      let (k, e1, own, at) = v.below p q0 m e0 (ap (among m) (sym r.1) ∙ h) in
      let (k', e', s) = an.0 m k e1 in (k', e', s.0 ∙ own, s.1 ∙ at ∙ sym r.0);
  once_below =
      λ p q e. let (q0, e0, r) = ap_.1 p q e in subst NoTwice (sym r.1) (v.once_below p q0 e0);
  old_plci = λ p q e. let (q0, e0, r) = ap_.1 p q e in v.old_plci p q0 e0;
  old_ncci = λ m k e.
      let (k0, e0, r) = an.1 m k e in
      let (old, inside) = v.old_ncci m k0 e0 in (old, subst (λ c. c < n) (sym r.1) inside);
}

module _ (s : Card) (g : Good s) where
  abbrev same_plcis : AlikeStores AlikePlci s.plcis s.plcis
  same_plcis = AlikeStores-refl AlikePlci s.plcis (λ q. (refl, refl))

  abbrev same_nccis : AlikeStores AlikeNcci s.nccis s.nccis
  same_nccis = AlikeStores-refl AlikeNcci s.nccis (λ k. (refl, refl))

  pub written_plci-Good :
      (p : ℕ) (q q' : PlciNode)
      → s.plcis p ≡ some q
      → q'.chan ≡ q.chan
      → q'.ncci_list ≡ q.ncci_list
      → Good (record s { plcis = update p (some q') s.plcis })
  written_plci-Good p q q' at chan chain =
      Links-alike s.plci_list s.plcis _ s.nccis s.nccis s.bchans s.bchans s.nbchan s.fresh
        s.alloc_skb
        (AlikeStores-update AlikePlci s.plcis p q q' (λ x. (refl, refl)) at (chan, chain))
        same_nccis (λ c. (refl, refl)) g

  -- A write to a PLCI that keeps its channel and its chain.
  pub set_plci-Steady :
      (p : ℕ) (q : PlciNode) (f : PlciNode → PlciNode)
      → s.plcis p ≡ some q
      → (f q).chan ≡ q.chan
      → (f q).ncci_list ≡ q.ncci_list
      → Steady s (set_plci p f s)
  unfolding set_plci
  set_plci-Steady p q f at chan chain =
      let alike =
        AlikeStores-update AlikePlci s.plcis p q (f q) (λ x. (refl, refl)) at (chan, chain) in
      (
        record s { plcis = update p (some (f q)) s.plcis },
        ap (λ x. x >>= λ y. some (record s { plcis = update p (some (f y)) s.plcis })) at,
        Links-alike s.plci_list s.plcis _ s.nccis s.nccis s.bchans s.bchans s.nbchan s.fresh
            s.alloc_skb alike same_nccis (λ c. (refl, refl)) g,
        record {
          plci = λ p1 q1 e. let (q', e', r) = alike.0 p1 q1 e in (q', e', r.0);
          ncci = λ n k e. (k, e, refl, refl);
          nbchan = refl;
        },
      )

  -- A write to an NCCI that keeps its PLCI and its channel.
  pub set_ncci-Steady :
      (n : ℕ) (k : NcciNode) (f : NcciNode → NcciNode)
      → s.nccis n ≡ some k
      → (f k).plcip ≡ k.plcip
      → (f k).chan ≡ k.chan
      → Steady s (set_ncci n f s)
  unfolding set_ncci
  set_ncci-Steady n k f at own chan =
      let alike =
        AlikeStores-update AlikeNcci s.nccis n k (f k) (λ x. (refl, refl)) at (own, chan) in
      (
        record s { nccis = update n (some (f k)) s.nccis },
        ap (λ x. x >>= λ y. some (record s { nccis = update n (some (f y)) s.nccis })) at,
        Links-alike s.plci_list s.plcis s.plcis s.nccis _ s.bchans s.bchans s.nbchan s.fresh
            s.alloc_skb same_plcis alike (λ c. (refl, refl)) g,
        record {
          plci = λ p1 q1 e. (q1, e, refl);
          ncci = λ m k1 e. let (k', e', r) = alike.0 m k1 e in (k', e', r.0, r.1);
          nbchan = refl;
        },
      )

  -- A write to a channel that keeps its PLCI and its NCCI.
  pub set_bchan-Steady :
      (c : ℕ) (f : Bchan → Bchan)
      → c < s.nbchan
      → (f (s.bchans c)).plcip ≡ (s.bchans c).plcip
      → (f (s.bchans c)).nccip ≡ (s.bchans c).nccip
      → Steady s (set_bchan c f s)
  unfolding set_bchan
  set_bchan-Steady c f inside keeps_plci keeps_ncci =
      let test = lt→ltb c s.nbchan inside in
      let alike : AlikeBchans s.bchans (update c (f (s.bchans c)) s.bchans) = λ j.
        elim (update-cases c j (f (s.bchans c)) s.bchans) [
          | inl (same, u) ↦ (
            ap (λ x. x.plcip) u ∙ keeps_plci ∙ ap (λ x. (s.bchans x).plcip) (sym same),
            ap (λ x. x.nccip) u ∙ keeps_ncci ∙ ap (λ x. (s.bchans x).nccip) (sym same),
          )
          | inr (other, u) ↦ (ap (λ x. x.plcip) u, ap (λ x. x.nccip) u)
        ] in
      (
        record s { bchans = update c (f (s.bchans c)) s.bchans },
        (rw (test, set_bchan) refl),
        Links-alike s.plci_list s.plcis s.plcis s.nccis s.nccis s.bchans _ s.nbchan s.fresh
            s.alloc_skb same_plcis same_nccis alike g,
        record { plci = λ p q e. (q, e, refl); ncci = λ n k e. (k, e, refl, refl); nbchan = refl },
      )

  -- Sending a message that can be encoded and fits its buffer.
  pub send_message-Steady : (c : Cmsg) → Sends c → Steady s (send_message c s)
  unfolding send_message emit
  send_message-Steady c (enc, (l, e', small)) =
      let (m, e) = enc no_bytes in
      let s1 = emit (sent m) (record s { allocs = s.allocs + 1 }) in
      (
        s1,
        look (λ x. x ≡ some s1) (capi_cmsg2message c no_bytes) m _ e
            (look (λ x. x ≡ some s1) (cmsg_len c) l _ e'
              (rw (le→leb l 180 small, g.buffers s.allocs) refl)),
        g,
        record {
          plci = λ p q e1. (q, e1, refl);
          ncci = λ n k e1. (k, e1, refl, refl);
          nbchan = refl;
        },
      )

-- A look at a channel that was written.
pub set_bchan_look :
    (s : Card) (c : ℕ) (f : Bchan → Bchan) (s' : Card)
    → c < s.nbchan
    → set_bchan c f s ≡ some s'
    → s'.bchans c ≡ f (s.bchans c)
unfolding set_bchan
set_bchan_look s c f s' inside e =
    let it : record s { bchans = update c (f (s.bchans c)) s.bchans } ≡ s' =
      some-injective _ s' (rw (lt→ltb c s.nbchan inside) at e) in
    ap (λ x. x.bchans c) (sym it) ∙ update_self c (f (s.bchans c)) s.bchans

-- A write to an NCCI that keeps its PLCI and its channel, whatever the kernel's buffers.
pub set_ncci-Linked :
    (s : Card) (n : ℕ) (k : NcciNode) (f : NcciNode → NcciNode)
    → Linked s
    → s.nccis n ≡ some k
    → (f k).plcip ≡ k.plcip
    → (f k).chan ≡ k.chan
    → (s' : Card) × (set_ncci n f s ≡ some s')
      × Linked s'
      × Stay s s'
      × (s'.alloc_skb ≡ s.alloc_skb)
unfolding set_ncci
set_ncci-Linked s n k f g at own chan =
    let t = record s { alloc_skb = λ _. true } in
    let (t1, e, g1, stay) = set_ncci-Steady t g n k f at own chan in
    let s1 = record s { nccis = update n (some (f k)) s.nccis } in
    let it : t1 ≡ record t { nccis = update n (some (f k)) s.nccis } =
      some-injective t1 _ (
        sym e
        ∙ ap (λ x. x >>= λ y. some (record t { nccis = update n (some (f y)) s.nccis })) at) in
    let g2 = subst Good it g1 in
    let stay2 = subst (Stay t) it stay in
    (
      s1,
      ap (λ x. x >>= λ y. some (record s { nccis = update n (some (f y)) s.nccis })) at,
      g2,
      record { plci = stay2.plci; ncci = stay2.ncci; nbchan = stay2.nbchan },
      refl,
    )
