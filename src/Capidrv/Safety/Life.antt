-- ===== src/Capidrv/Safety/Life.antt =====
-- The life of a controller of linux/drivers/isdn/capi/capidrv.c, from `capidrv_addcontr` on, as a step
-- relation: the messages, commands, data and timers that come are its steps.
use capi4linux.Prelude.{
  ℕ, ◌%◌, ◌<◌, ◌≡◌, refl, sym, ap, ◌∙◌, inl, inr, Bool, true, Option, some, List, [], ◌∷◌, ltb,
  ◌==◌, ◌>>=◌, Bool-cases, some-injective, none-ne-some,
}
use mathlib.Core.Path.{subst}
use mathlib.Core.Bool.{false≢true}
use capi4linux.Memory.{Mem}
use capi4linux.Cmsg.Struct.{Cmsg}
use capi4linux.Capidrv.Card.{Card}
use capi4linux.Cmsg.Decode.{capi_message2cmsg}
use capi4linux.Capidrv.Links.{if-Safe, Good, Safe, look, rebuffered}
use capi4linux.Capidrv.Handlers.{Isdn, is, adr}
use capi4linux.Capidrv.Handlers.Commands.{capidrv_command}
use capi4linux.Capidrv.Handlers.Driver.{
  send_listen, new_card, listen_conf, receive, on_card, recv_round, data_behind,
  capidrv_recv_message, Event, message, command, sendbuf, listentimer, step,
}
use capi4linux.Capidrv.Safety.Calls.{Calm}
use capi4linux.Capidrv.Safety.Dispatch.{Sound, handle_plci-Safe}
use capi4linux.Capidrv.Safety.Nccis.{handle_ncci-Safe, handle_data-Safe}
use capi4linux.Capidrv.Safety.Commands.{Answers}
use capi4linux.Capidrv.Safety.Dialing.{Ready, capidrv_command-Answers}
use capi4linux.Capidrv.Safety.Sending.{listen_conf-Good, send_listen-Safe, if_sendbuf-Answers}

-- A new controller has no nodes.
pub new_card-Good :
    (alloc : ℕ → Bool) (ap_id contr myid nbchannel : ℕ)
    → ((n : ℕ) → alloc n ≡ true)
    → 0 < nbchannel
    → Good (new_card alloc ap_id contr myid nbchannel)
new_card-Good alloc ap_id contr myid nbchannel memory h = record {
  live = λ p e. absurd (false≢true e);
  chained = λ p q e. absurd (none-ne-some e);
  once = tt;
  owner = λ p q e. absurd (none-ne-some e);
  on_chan = λ c p e. absurd (none-ne-some e);
  ncci_on_chan = λ c n e. absurd (none-ne-some e);
  below = λ p q n e. absurd (none-ne-some e);
  once_below = λ p q e. absurd (none-ne-some e);
  some_chan = h;
  buffers = memory;
  old_plci = λ p q e. absurd (none-ne-some e);
  old_ncci = λ n k e. absurd (none-ne-some e);
}

pub receive-Safe :
    (i : Isdn) (c : Cmsg) (bytes : Mem) (len : ℕ) (s : Card)
    → Calm i
    → Sound i c
    → Good s
    → Safe (receive i c bytes len s)
unfolding receive
receive-Safe i c bytes len s calm sound g =
    if-Safe (is 0x86 0x82 c) _ _ (λ h. handle_data-Safe c bytes len s h g)
      (if-Safe (ltb (adr c) 256) _ _ (λ _. (listen_conf c s, refl, listen_conf-Good c s g))
        (if-Safe (ltb (adr c) 65536) _ _ (λ _. handle_plci-Safe i c s calm sound g)
          (handle_ncci-Safe i c s g)))

abbrev pub AllGood : List Card → Type 0
AllGood [] = Unit
AllGood (s ∷ cards) = Good s × AllGood cards

on_card-AllGood :
    (test : Card → Bool) (f : Card → Option Card) (cards : List Card)
    → ((s : Card) → Good s → Safe (f s))
    → AllGood cards
    → (cards' : List Card) × (on_card test f cards ≡ some cards') × AllGood cards'
unfolding on_card
on_card-AllGood test f [] safe good = ([], refl, tt)
on_card-AllGood test f (s ∷ cards) safe (g, good) =
    let (s', e, g') = safe s g in
    let (cards', e', good') = on_card-AllGood test f cards safe good in
    elim (Bool-cases (test s)) [
      | inl found ↦ (s' ∷ cards, rw found (ap (λ x. x >>= λ s1. some (s1 ∷ cards)) e), (g', good))
      | inr other ↦
          (s ∷ cards', rw other (ap (λ x. x >>= λ cards1. some (s ∷ cards1)) e'), (g, good'))
    ]

-- A message that can be decoded, with what its handler needs.
abbrev pub SoundMessage : Isdn → Mem → Type 0
SoundMessage i m = (c : Cmsg) × (capi_message2cmsg m ≡ some c) × Sound i c

abbrev pub SoundQueue : Isdn → List (Mem × ℕ) → Type 0
SoundQueue i [] = Unit
SoundQueue i ((m, total) ∷ ms) = SoundMessage i m × SoundQueue i ms

-- For a queue of messages of which each has a row in cpars, has the structures that are read, and
-- has call numbers and a refusal that fit their buffers, with an ISDN4Linux that leaves the nodes
-- where they are when it is told of a call, the receive loop returns on any list of controllers
-- whose links hold and that have a buffer for every message, and the links hold afterwards.
pub capidrv_recv_message-AllGood :
    (i : Isdn) (queue : List (Mem × ℕ)) (cards : List Card)
    → Calm i
    → SoundQueue i queue
    → AllGood cards
    → (cards' : List Card) × (capidrv_recv_message i queue cards ≡ some cards') × AllGood cards'
unfolding capidrv_recv_message recv_round
capidrv_recv_message-AllGood i [] cards calm sound good = (cards, refl, good)
capidrv_recv_message-AllGood i ((m, total) ∷ ms) cards calm ((c, decoded, sound), rest) good =
    let (cards1, e1, good1) =
      on_card-AllGood (λ s. s.contrnr == adr c % 128)
        (receive i c (data_behind i m total).0 (data_behind i m total).1) cards
        (λ s g. receive-Safe i c (data_behind i m total).0 (data_behind i m total).1 s calm sound g)
        good in
    let (cards2, e2, good2) = capidrv_recv_message-AllGood i ms cards1 calm rest good1 in
    (
      cards2,
      look (λ x. x ≡ some cards2) (recv_round i (m, total) cards) cards1 (capidrv_recv_message i ms)
          (look (λ x. x ≡ some cards1) (capi_message2cmsg m) c _ decoded e1) e2,
      good2,
    )

-- What an event needs: what the handler of a message needs, and what a command needs.
abbrev pub Fair : Isdn → Event → Card → Type 0
Fair i (message m total) s = SoundMessage i m
Fair i (command c) s = Ready i c s
Fair i _ s = Unit

-- The cards that a controller of the driver can be.
pub data Life (i : Isdn) : Card → Type 0 where
  up :
      (alloc : ℕ → Bool) (ap_id contr myid nbchannel : ℕ) (s : Card)
      → ((n : ℕ) → alloc n ≡ true)
      → 0 < nbchannel
      → send_listen (new_card alloc ap_id contr myid nbchannel) ≡ some s
      → Life i s
  after : (e : Event) (s s' : Card) → Life i s → Fair i e s → step i e s ≡ some s' → Life i s'

Answers-Safe :
    {A : Type 0} (s : Card) (m : Option (A × Card)) → Answers s m → Safe (m >>= λ r. some r.1)
Answers-Safe s m (r, s1, e, g, stay) = (s1, ap (λ x. x >>= λ r. some r.1) e, g)

step-Safe : (i : Isdn) (e : Event) (s : Card) → Calm i → Good s → Fair i e s → Safe (step i e s)
step-Safe i (message m total) s calm g (c, decoded, sound) =
    look Safe (capi_message2cmsg m) c _ decoded
      (receive-Safe i c (data_behind i m total).0 (data_behind i m total).1 s calm sound g)
step-Safe i (command c) s calm g ready =
    Answers-Safe s (capidrv_command i c s) (capidrv_command-Answers i c s g ready)
step-Safe i (sendbuf put address len doack channel) s calm g fair =
    let linked =
      rebuffered s.plci_list s.plcis s.nccis s.bchans s.nbchan s.fresh s.alloc_skb (λ _. true)
        (λ n. refl) g in
    let (r, s1, e, linked1, stay, same) =
      if_sendbuf-Answers i put address len doack s linked channel in
    (
      s1,
      ap (λ x. x >>= λ r. some r.1) e,
      rebuffered s1.plci_list s1.plcis s1.nccis s1.bchans s1.nbchan s1.fresh (λ _. true)
          s1.alloc_skb (λ n. ap (λ a. a n) same ∙ g.buffers n) linked1,
    )
step-Safe i listentimer s calm g fair = send_listen-Safe s g

same-Good : (m : Option Card) (s' : Card) → Safe m → m ≡ some s' → Good s'
same-Good m s' (s1, e, g) e' = subst Good (some-injective s1 s' (sym e ∙ e')) g

-- The links of a controller hold all its life.
pub Life-Good : (i : Isdn) (s : Card) → Calm i → Life i s → Good s
Life-Good i s calm (up alloc ap_id contr myid n _ memory h e) =
    same-Good _ s
      (send_listen-Safe (new_card alloc ap_id contr myid n)
        (new_card-Good alloc ap_id contr myid n memory h))
      e
Life-Good i s calm (after event s0 _ life fair e) =
    same-Good (step i event s0) s (step-Safe i event s0 calm (Life-Good i s0 calm life) fair) e
