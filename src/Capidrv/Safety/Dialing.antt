-- ===== src/Capidrv/Safety/Dialing.antt =====
-- `capidrv_command` of linux/drivers/isdn/capi/capidrv.c and the links.
use capi4linux.Prelude.{
  ℕ, ◌<◌, ◌≤◌, ◌≡◌, refl, sym, ap, ◌∙◌, inl, inr, Bool, Option, none, some, List, [], length, arith,
  Bool-cases, lt→ltb,
}
use mathlib.Core.Path.{subst}
use capi4linux.Cmsg.Struct.{Cmsg}
use capi4linux.Cmsg.Encode.{struct_size}
use capi4linux.Capidrv.Tables.{ev_plci_connect_req}
use capi4linux.Capidrv.Card.{Bchan, Card, dhup, emit, next_msgid, bchan_at, set_bchan}
use capi4linux.Capidrv.Nodes.{new_plci}
use capi4linux.Capidrv.Buffer.{Sends}
use capi4linux.Capidrv.Buffer.Calls.{connect_req-Sends}
use capi4linux.Capidrv.Links.{Good, Stay-refl, Stay-trans, Steady, Steady-bind, look}
use capi4linux.Capidrv.Links.Writes.{
  set_plci-Steady, set_bchan-Steady, set_bchan_look, send_message-Steady,
}
use capi4linux.Capidrv.Links.NewPlci.{new_plci-Steady, new_plci-node}
use capi4linux.Capidrv.Links.Changes.{emit-Stay, next_msgid-Stay, plci_change_state-Steady}
use capi4linux.Capidrv.Handlers.{Isdn}
use capi4linux.Capidrv.Handlers.Protocols.{b1prot, b2prot, b3prot, si2cip}
use capi4linux.Capidrv.Handlers.Leased.{
  additional_info_of, Leased, not_leased, refused, channels, decode_fv_teln,
}
use capi4linux.Capidrv.Handlers.Commands.{
  Command, ioctl, dial, acceptd, acceptb, hangup, setl2, setl3, seteaz, clreaz, other_command, fine,
  failed, einval, enosys, reply, chan_of, copy_text, called_number, calling_number, connect_req,
  dial_message, dial_plci, dial_send, dial_free, dial_on, first_bytes, capidrv_command,
}
use capi4linux.Capidrv.Safety.Commands.{
  Answers, unchanged, reply-Answers, Answers-after, Steady-after, bchan_inside, hangup_call-Answers,
  accept_call-Steady,
}

numbers :
    (s : Card) (b : Bchan)
    → length b.num < 32
    → length b.mynum < 32
    → Sends (connect_req s b (called_number b.num) (calling_number b.mynum) none)
unfolding connect_req
numbers s b h k =
    connect_req-Sends s.ap_id s.msgid s.contrnr (si2cip b.si1 b.si2) (b1prot b.l2) (b2prot b.l2)
      (b3prot b.l2) b.l2 _ _ none (omega arith) (omega arith) (omega arith)

-- The message of a call with short numbers.
dial_message-Sends :
    (s : Card) (b : Bchan) (r : Leased)
    → length b.num < 32
    → length b.mynum < 32
    → Sends (dial_message s b r).0
unfolding dial_message connect_req additional_info_of struct_size
dial_message-Sends s b (channels bmask active) h k =
    connect_req-Sends s.ap_id s.msgid s.contrnr (si2cip b.si1 b.si2) (b1prot b.l2) (b2prot b.l2)
      (b3prot b.l2) b.l2 _ _ (additional_info_of bmask active) (omega arith) (omega arith)
      (omega arith)
dial_message-Sends s b not_leased h k = numbers s b h k
dial_message-Sends s b (refused n) h k = numbers s b h k

module _ (s : Card) (g : Good s) (chan : ℕ) (inside : chan < s.nbchan)
    (idle : (s.bchans chan).plcip ≡ none) where
  dial_plci-Steady : (c : Cmsg) (leased : Bool) → Sends c → Steady s (dial_plci chan (c, leased) s)
  unfolding dial_plci
  dial_plci-Steady c leased enc =
      Steady-after s (new_plci chan s) _ (new_plci-Steady s g chan inside idle) (λ s1 e g1 stay1.
        let at1 = new_plci-node s g chan inside idle s1 e in
        Steady-bind s1 _ _
          (set_plci-Steady s1 g1 s.fresh _
            (λ q. record q { msgid = c.messagenumber; leasedline = leased }) at1 refl refl)
          (λ s2 g2 stay2.
            let (q2, at2, _) = stay2.plci s.fresh _ at1 in
            Steady-bind s2 _ _
              (plci_change_state-Steady s2 g2 s.fresh q2 at2 ev_plci_connect_req refl)
              (λ s3 g3 stay3. send_message-Steady s3 g3 c enc)))

  dial_send-Answers :
      (i : Isdn) (c : Cmsg) (leased : Bool) → Sends c → Answers s (dial_send i chan (c, leased) s)
  unfolding dial_send emit
  dial_send-Answers i c leased enc = elim (Bool-cases i.memory) [
    | inl memory ↦ rw memory (reply-Answers s g fine _ (dial_plci-Steady c leased enc))
    | inr full ↦
        rw full (failed, emit (dhup chan) s, refl, g, emit-Stay s s (dhup chan) (Stay-refl s))
  ]

-- What a command needs: a text that is copied fits with its NUL in `ISDN_MSNLEN` characters, which are
-- at most 32, and a call that is accepted is there.
abbrev pub Ready : Isdn → Command → Card → Type 0
Ready i (dial arg phone si1 si2 eazmsn) s =
    (length phone < i.msnlen) × (length eazmsn < i.msnlen) × (i.msnlen ≤ 32)
Ready i (acceptd arg) s = (p : ℕ) × ((s.bchans (chan_of arg s)).plcip ≡ some p)
Ready i _ s = Unit

module _ (s : Card) (g : Good s) (chan : ℕ) (inside : chan < s.nbchan) where
  dial_free-Answers :
      (i : Isdn) (phone : List ℕ) (si1 si2 : ℕ) (eazmsn : List ℕ)
      → length phone < i.msnlen
      → length eazmsn < i.msnlen
      → i.msnlen ≤ 32
      → (s.bchans chan).plcip ≡ none
      → Answers s (dial_free i chan phone si1 si2 eazmsn s)
  unfolding dial_free next_msgid
  dial_free-Answers i phone si1 si2 eazmsn short short' within idle =
      let set : Bchan → Bchan =
        λ b. record b { si1 = si1; si2 = si2; num = phone; mynum = eazmsn } in
      look (Answers s) (copy_text i.msnlen phone) phone _
        (rw (lt→ltb (length phone) i.msnlen short))
        (look (Answers s) (copy_text i.msnlen eazmsn) eazmsn _
          (rw (lt→ltb (length eazmsn) i.msnlen short'))
          (Answers-after s (set_bchan chan set s) _ (set_bchan-Steady s g chan set inside refl refl)
            (λ s1 e g1 stay1.
              let inside1 = subst (λ n. chan < n) (sym stay1.nbchan) inside in
              let written = set_bchan_look s chan set s1 inside e in
              let idle1 = ap (λ b. b.plcip) written ∙ idle in
              let (c, leased) = dial_message s1 (s1.bchans chan) (decode_fv_teln i.shl1 phone) in
              let num : length (s1.bchans chan).num < 32 =
                subst (λ x. length x < 32) (sym (ap (λ b. b.num) written))
                  (omega (arith, short, within)) in
              let mynum : length (s1.bchans chan).mynum < 32 =
                subst (λ x. length x < 32) (sym (ap (λ b. b.mynum) written))
                  (omega (arith, short', within)) in
              look (Answers s1) (bchan_at chan s1) (s1.bchans chan) _
                (bchan_inside s1 g1 chan inside1)
                (let (r, s2, e3, g2, stay2) =
                    dial_send-Answers (next_msgid s1) g1 chan inside1 idle1 i c leased (
                      dial_message-Sends s1 (s1.bchans chan) (decode_fv_teln i.shl1 phone) num
                        mynum) in
                  (r, s2, e3, g2, Stay-trans s1 (next_msgid s1) s2 (next_msgid-Stay s1) stay2)))))

  dial_on-Answers :
      (i : Isdn) (phone : List ℕ) (si1 si2 : ℕ) (eazmsn : List ℕ)
      → length phone < i.msnlen
      → length eazmsn < i.msnlen
      → i.msnlen ≤ 32
      → (r : Option ℕ) → (s.bchans chan).plcip ≡ r
      → Answers s (dial_on i chan phone si1 si2 eazmsn s r)
  dial_on-Answers i phone si1 si2 eazmsn short short' within (some p) e = unchanged s g fine
  dial_on-Answers i phone si1 si2 eazmsn short short' within none e =
      dial_free-Answers i phone si1 si2 eazmsn short short' within e

  -- A setting of the channel.
  set-Answers :
      (f : Bchan → Bchan)
      → (f (s.bchans chan)).plcip ≡ (s.bchans chan).plcip
      → (f (s.bchans chan)).nccip ≡ (s.bchans chan).nccip
      → Answers s (reply fine (set_bchan chan f s))
  set-Answers f keeps_plci keeps_ncci =
      reply-Answers s g fine _ (set_bchan-Steady s g chan f inside keeps_plci keeps_ncci)

arg_inside : (arg : ℕ) (s : Card) → 0 < s.nbchan → chan_of arg s < s.nbchan
arg_inside arg s h = omega arith

pub capidrv_command-Answers :
    (i : Isdn) (c : Command) (s : Card) → Good s → Ready i c s → Answers s (capidrv_command i c s)
unfolding capidrv_command
capidrv_command-Answers i (ioctl arg) s g ready = unchanged s g _
capidrv_command-Answers i (dial arg phone si1 si2 eazmsn) s g (short, short', within) =
    let inside = arg_inside arg s g.some_chan in
    look (Answers s) (bchan_at (chan_of arg s) s) (s.bchans (chan_of arg s)) _
      (bchan_inside s g (chan_of arg s) inside)
      (dial_on-Answers s g (chan_of arg s) inside i phone si1 si2 eazmsn short short' within
        (s.bchans (chan_of arg s)).plcip refl)
capidrv_command-Answers i (acceptd arg) s g (p, own) =
    reply-Answers s g fine _
      (accept_call-Steady s g (chan_of arg s) (arg_inside arg s g.some_chan) p own)
capidrv_command-Answers i acceptb s g ready = unchanged s g enosys
capidrv_command-Answers i (hangup arg) s g ready =
    hangup_call-Answers s g (chan_of arg s) (arg_inside arg s g.some_chan)
capidrv_command-Answers i (setl2 arg l) s g ready =
    set-Answers s g (chan_of arg s) (arg_inside arg s g.some_chan) (λ b. record b { l2 = l }) refl
      refl
capidrv_command-Answers i (setl3 arg l) s g ready =
    set-Answers s g (chan_of arg s) (arg_inside arg s g.some_chan) (λ b. record b { l3 = l }) refl
      refl
capidrv_command-Answers i (seteaz arg num) s g ready =
    set-Answers s g (chan_of arg s) (arg_inside arg s g.some_chan)
      (λ b. record b { msn = first_bytes i.msnlen num }) refl refl
capidrv_command-Answers i (clreaz arg) s g ready =
    set-Answers s g (chan_of arg s) (arg_inside arg s g.some_chan) (λ b. record b { msn = [] }) refl
      refl
capidrv_command-Answers i other_command s g ready = unchanged s g einval
