-- ===== src/Capidrv/Safety/Dispatch.antt =====
-- The messages that come to linux/drivers/isdn/capi/capidrv.c.
use capi4linux.Prelude.{ℕ, ◌≡◌, refl, true, Option, some, ◌==◌, ◌>>=◌}
use capi4linux.Memory.{Mem}
use capi4linux.Cmsg.Struct.{Cmsg}
use capi4linux.Cmsg.Table.{cpars, command_2_index}
use capi4linux.Cmsg.Fields.{called_party_number, calling_party_number, info_element}
use capi4linux.Capidrv.Card.{PlciNode, Card}
use capi4linux.Capidrv.Nodes.{find_plci_by_plci, find_plci_by_msgid}
use capi4linux.Capidrv.Buffer.{answers-Send}
use capi4linux.Capidrv.Links.{if-Safe, Good, Safe, Steady-Safe}
use capi4linux.Capidrv.Handlers.{Isdn, is, adr, when_found}
use capi4linux.Capidrv.Handlers.Plcis.{
  disconnect_ind_or_not, disconnect_conf, connect_conf, connect_active_ind, info_ind, handle_plci,
}
use capi4linux.Capidrv.Safety.Answers.{send_answer-Steady}
use capi4linux.Capidrv.Safety.Finds.{found_plci-Safe}
use capi4linux.Capidrv.Safety.Plcis.{
  disconnect_conf-Safe, disconnect_ind-Safe, connect_conf-Safe, connect_active_ind-Safe,
  info_ind-Safe,
}
use capi4linux.Capidrv.Safety.Calls.{Calm, Fits, Refusable, handle_incoming_call-Safe}

-- The structures that are read are there, and the numbers of a call and its refusal fit.
abbrev pub Sound : Isdn → Cmsg → Type 0
Sound i c =
    (is 0x02 0x82 c ≡ true
      → Fits 2 i.phone_size (c.structs calling_party_number)
        × Fits 1 i.eazmsn_size (c.structs called_party_number)
        × Refusable c)
    × (is 0x08 0x82 c ≡ true → (m : Mem) × (c.structs info_element ≡ some m))

module _ (c : Cmsg) (s : Card) (g : Good s) where
  found-Safe :
      (f : ℕ → Card → Option Card)
      → ((p : ℕ) (q : PlciNode) → s.plcis p ≡ some q → Safe (f p s))
      → Safe (find_plci_by_plci (adr c) s >>= when_found f s)
  found-Safe f h = found_plci-Safe (λ q. q.plci == adr c) s (when_found f s) g (s, refl, g) h

  found_by_msgid-Safe :
      (f : ℕ → Card → Option Card)
      → ((p : ℕ) (q : PlciNode) → s.plcis p ≡ some q → Safe (f p s))
      → Safe (find_plci_by_msgid c.messagenumber s >>= when_found f s)
  found_by_msgid-Safe f h =
      found_plci-Safe (λ q. q.msgid == c.messagenumber) s (when_found f s) g (s, refl, g) h

-- `handle_plci`, on a card whose links hold, meets no bad pointer, and the links hold afterwards.
pub handle_plci-Safe :
    (i : Isdn) (c : Cmsg) (s : Card) → Calm i → Sound i c → Good s → Safe (handle_plci i c s)
unfolding handle_plci cpars command_2_index
handle_plci-Safe i c s calm (numbers, element) g =
    if-Safe (is 0x04 0x82 c) _ _
      (λ h.
        found_plci-Safe (λ q. q.plci == adr c) s (disconnect_ind_or_not c s) g
          (Steady-Safe s _ (send_answer-Steady 0x04 c s answers-Send.1 h g))
          (λ p q at. disconnect_ind-Safe s g p q at c h))
      (if-Safe (is 0x04 0x81 c) _ _
        (λ _. found-Safe c s g disconnect_conf (λ p q at. disconnect_conf-Safe s g p q at))
        (if-Safe (is 0x02 0x82 c) _ _
          (λ h. handle_incoming_call-Safe i calm c (numbers h).0 (numbers h).1 h (numbers h).2 s g)
          (if-Safe (is 0x02 0x81 c) _ _
            (λ _.
              found_by_msgid-Safe c s g (connect_conf c) (λ p q at. connect_conf-Safe s g p q at c))
            (if-Safe (is 0x03 0x82 c) _ _
              (λ h.
                found-Safe c s g (connect_active_ind i c)
                  (λ p q at. connect_active_ind-Safe s g p q at c h i))
              (if-Safe (is 0x08 0x82 c) _ _
                (λ h.
                  found-Safe c s g (info_ind c)
                    (λ p q at. info_ind-Safe s g p q at c (element h).0 (element h).1))
                (s, refl, g))))))
