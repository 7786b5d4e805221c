-- ===== src/Cmsg/RoundTrip.antt =====
-- The converter as a whole: what a message is, and what comes back from it.
use capi4linux.Prelude.{
  ℕ, suc, ◌+◌, ◌%◌, ◌≤◌, ◌<◌, ◌≡◌, refl, ◌∙◌, some, List, [], ◌∷◌, ◌++◌, length, arith,
}
use mathlib.Core.Path.{ap₂}
use capi4linux.Memory.{Mem, le16, store, store_bytes}
use capi4linux.Memory.Holds.{Holds, Holds-frame, Holds-append, Holds-take, Holds-drop}
use capi4linux.Cmsg.Table.{cpars, command_2_index}
use capi4linux.Cmsg.Struct.{Cmsg}
use capi4linux.Cmsg.Encode.{capi_cmsg2message, put_header, pars_2_message}
use capi4linux.Cmsg.Encode.Refines.{pars_2_message-wire}
use capi4linux.Cmsg.Decode.{capi_message2cmsg, start, get_header, message_2_pars}
use capi4linux.Cmsg.Decode.Agree.{Agree, Agree-same, SameOutside}
use capi4linux.Cmsg.Decode.Inverts.{message_2_pars-wire}
use capi4linux.Cmsg.Layout.{Layout}
use capi4linux.Cmsg.Wire.{wire, Fits, InRange}
use capi4linux.Cmsg.Rows.{layout, cpars-IsRow}

-- The eight bytes of the message header.
abbrev pub header_wire : Cmsg → ℕ → List ℕ
header_wire c len =
    le16 len
    ++ (le16 c.appl_id ++ ((c.command % 256) ∷ (c.subcommand % 256) ∷ le16 c.messagenumber))

-- A CAPI message as the standard lays it out.
unfoldable pub message_wire : Cmsg → List ℕ → List ℕ
message_wire c par = let body = wire c (layout par) in header_wire c (8 + length body) ++ body

put_header-header_wire : (c : Cmsg) (l : ℕ) (m : Mem) → Holds (put_header c l m) 0 (header_wire c l)
unfolding put_header store_bytes store
put_header-header_wire c l m = (refl, (refl, (refl, (refl, (refl, (refl, (refl, (refl, tt))))))))

put_header-above : (c : Cmsg) (l : ℕ) (m : Mem) (a : ℕ) → 8 ≤ a → put_header c l m a ≡ m a
unfolding put_header store_bytes store
put_header-above c l m a h = ground arith

module _ (c : Cmsg) (m : Mem) (par : List ℕ) where
  -- With a row for the command and composed structures below 255 bytes, the encoder returns and
  -- memory holds the bytes that the layout of the message prescribes.
  pub capi_cmsg2message-message_wire :
      cpars (command_2_index c.command c.subcommand) ≡ some par
      → Fits c (layout par)
      → (m' : Mem) × (capi_cmsg2message c m ≡ some m') × Holds m' 0 (message_wire c par)
  unfolding capi_cmsg2message message_wire
  capi_cmsg2message-message_wire row fit =
      let r = cpars-IsRow _ par row in
      let (m', w, run) =
        pars_2_message-wire (layout par) (suc (length par)) c m 8 [] r.ok fit
          (omega (arith, r.short)) in
      let body = wire c (layout par) in
      let l = 8 + length body in
      let run' : pars_2_message (suc (length par)) c m 8 par ≡ some (m', l, 0x01 ∷ []) =
        rw r.string at run in
      (
        put_header c l m',
        rw (row, run'),
        Holds-append (put_header c l m') 0 8 (header_wire c l) body refl
            (put_header-header_wire c l m')
            (Holds-frame m' (put_header c l m') 8 body (λ a p _. put_header-above c l m' a p)
              w.holds),
      )

-- The header fields are in the range of their types.
pub record HeaderInRange (c : Cmsg) : Type 0 where
  pub appl_id : c.appl_id < 65536
  pub command : c.command < 256
  pub subcommand : c.subcommand < 256
  pub messagenumber : c.messagenumber < 65536

-- The structure read back is the one that was written: header, length and parameters.
pub record SameMessage (c d : Cmsg) (par : List ℕ) : Type 0 where
  pub appl_id : d.appl_id ≡ c.appl_id
  pub command : d.command ≡ c.command
  pub subcommand : d.subcommand ≡ c.subcommand
  pub messagenumber : d.messagenumber ≡ c.messagenumber
  pub len : d.len ≡ length (message_wire c par)
  pub parameters : Agree c d (layout par)

capi_message2cmsg-run :
    (m : Mem) (c d : Cmsg) (l : ℕ) (par p : List ℕ)
    → m 4 ≡ c.command
    → m 5 ≡ c.subcommand
    → cpars (command_2_index c.command c.subcommand) ≡ some par
    → message_2_pars (suc (length par)) m (start m) 8 par ≡ some (d, l, p)
    → capi_message2cmsg m ≡ some (get_header m d l)
unfolding capi_message2cmsg
capi_message2cmsg-run m c d l par p e e' row run =
    let row' : cpars (command_2_index (m 4) (m 5)) ≡ some par =
      ap₂ (λ a b. cpars (command_2_index a b)) e e' ∙ row in
    rw (row', run)

get_header-Agree :
    (c d : Cmsg) (m : Mem) (l : ℕ) (L : Layout) → Agree c d L → Agree c (get_header m d l) L
unfolding get_header
get_header-Agree c d m l L =
    Agree-same c d (get_header m d l) L
      (λ j _. record { nums = refl; structs = refl; modes = refl })

start-command :
    (m : Mem) (d : Cmsg) (L : Layout)
    → SameOutside L (start m) d
    → (d.command ≡ m 4) × (d.subcommand ≡ m 5)
unfolding start
start-command m d L s = (s.command, s.subcommand)

module _ (c : Cmsg) (m : Mem) (par : List ℕ) where
  get_header-SameMessage :
      (d : Cmsg) (l : ℕ)
      → l ≡ length (message_wire c par)
      → HeaderInRange c
      → Holds m 0 (header_wire c l)
      → d.command ≡ c.command
      → d.subcommand ≡ c.subcommand
      → Agree c d (layout par)
      → SameMessage c (get_header m d l) par
  unfolding get_header
  get_header-SameMessage d l whole header hdr command subcommand agree = record {
    appl_id = omega (arith, header.appl_id, hdr.1.1.0, hdr.1.1.1.0);
    command = command;
    subcommand = subcommand;
    messagenumber = omega (arith, header.messagenumber, hdr.1.1.1.1.1.1.0, hdr.1.1.1.1.1.1.1.0);
    len = omega (arith, whole, hdr.0, hdr.1.0);
    parameters = get_header-Agree c d m l (layout par) agree;
  }

  -- A memory that holds the prescribed message of a structure, whose command has a row in cpars,
  -- with header and fields in range and composed structures below 255 bytes, decodes to that
  -- structure.
  pub capi_message2cmsg-message_wire :
      cpars (command_2_index c.command c.subcommand) ≡ some par
      → Fits c (layout par)
      → InRange c (layout par)
      → HeaderInRange c
      → Holds m 0 (message_wire c par)
      → (d : Cmsg) × (capi_message2cmsg m ≡ some d) × SameMessage c d par
  unfolding message_wire
  capi_message2cmsg-message_wire row fit range header h =
      let r = cpars-IsRow _ par row in
      let body = wire c (layout par) in
      let l = 8 + length body in
      let hdr : Holds m 0 (header_wire c l) = Holds-take m 0 (header_wire c l) body h in
      let command : m 4 ≡ c.command = omega (arith, header.command, hdr.1.1.1.1.0) in
      let subcommand : m 5 ≡ c.subcommand = omega (arith, header.subcommand, hdr.1.1.1.1.1.0) in
      let (d, agree, outside, run) =
        message_2_pars-wire (layout par) (suc (length par)) c (start m) m 8 [] r.ok fit range
          (Holds-drop m 0 8 (header_wire c l) body refl h) (omega (arith, r.short)) in
      let run' : message_2_pars (suc (length par)) m (start m) 8 par ≡ some (d, l, 0x01 ∷ []) =
        rw r.string at run in
      let (e, e') = start-command m d (layout par) outside in
      (
        get_header m d l,
        capi_message2cmsg-run m c d l par _ command subcommand row run',
        get_header-SameMessage d l (omega arith) header hdr (e ∙ command) (e' ∙ subcommand) agree,
      )

module _ (c : Cmsg) (m : Mem) (par : List ℕ) where
  -- For a command with a row in cpars, header and fields in range and composed structures below
  -- 255 bytes, encoding returns a message and decoding that message returns the same header,
  -- length and parameters.
  pub capi_message2cmsg-capi_cmsg2message :
      cpars (command_2_index c.command c.subcommand) ≡ some par
      → Fits c (layout par)
      → InRange c (layout par)
      → HeaderInRange c
      → (m' : Mem) × (d : Cmsg) × (capi_cmsg2message c m ≡ some m')
        × (capi_message2cmsg m' ≡ some d)
        × SameMessage c d par
  capi_message2cmsg-capi_cmsg2message row fit range header =
      let (m', out, h) = capi_cmsg2message-message_wire c m par row fit in
      let (d, back, same) = capi_message2cmsg-message_wire c m' par row fit range header h in
      (m', d, out, back, same)
