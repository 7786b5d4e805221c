-- ===== src/Capidrv/Handlers/Protocols.antt =====
-- The convert functions of linux/drivers/isdn/capi/capidrv.c for an outgoing call: protocols and
-- services.
use capi4linux.Prelude.{ℕ, none, some, List, [], ◌∷◌, ltb, if◌then◌else◌, ◌/◌, ◌%◌}
use capi4linux.Cmsg.Struct.{CStruct}
use capi4linux.Capidrv.Card.{
  Layer2, x75i, x75ui, x75bui, hdlc, transparent, v11096, v11019, v11038, fax, modem, other_layer2,
}
use capi4linux.Capidrv.Handlers.Calls.{entry}

-- `b1prot`; `default` is with the first cases here.
unfoldable pub b1prot : Layer2 → ℕ
b1prot x75i = 0
b1prot x75ui = 0
b1prot x75bui = 0
b1prot hdlc = 0
b1prot transparent = 1
b1prot v11096 = 2
b1prot v11019 = 2
b1prot v11038 = 2
b1prot fax = 4
b1prot modem = 8
b1prot other_layer2 = 0

-- `b2prot`.
unfoldable pub b2prot : Layer2 → ℕ
b2prot x75i = 0
b2prot x75ui = 0
b2prot x75bui = 0
b2prot hdlc = 1
b2prot transparent = 1
b2prot v11096 = 1
b2prot v11019 = 1
b2prot v11038 = 1
b2prot fax = 4
b2prot modem = 1
b2prot other_layer2 = 0

-- `b3prot`.
unfoldable pub b3prot : Layer2 → ℕ
b3prot fax = 4
b3prot _ = 0

-- A structure that holds the bytes of a list.
abbrev pub structure : List ℕ → CStruct
structure bytes = some (λ i. entry i bytes)

-- `b1config_async_v110`.
abbrev pub b1config_async_v110 : ℕ → CStruct
b1config_async_v110 rate =
    structure (8 ∷ rate % 256 ∷ rate / 256 % 256 ∷ 8 ∷ 0 ∷ 0 ∷ 0 ∷ 0 ∷ 0 ∷ [])

-- `b1config`.
unfoldable pub b1config : Layer2 → CStruct
b1config v11096 = b1config_async_v110 9600
b1config v11019 = b1config_async_v110 19200
b1config v11038 = b1config_async_v110 38400
b1config _ = none

-- `cip` of `si2cip`, by row.
abbrev pub cip_row : ℕ → List ℕ
cip_row si1 =
    if ltb si1 1
    then 0 ∷ 0 ∷ 0 ∷ 0 ∷ 0 ∷ []
    else if ltb si1 2
    then 16 ∷ 16 ∷ 4 ∷ 26 ∷ 16 ∷ []
    else if ltb si1 3
    then 17 ∷ 17 ∷ 17 ∷ 4 ∷ 4 ∷ []
    else if ltb si1 4
    then 2 ∷ 2 ∷ 2 ∷ 2 ∷ 2 ∷ []
    else if ltb si1 5
    then 18 ∷ 18 ∷ 18 ∷ 18 ∷ 18 ∷ []
    else if ltb si1 6
    then 2 ∷ 2 ∷ 2 ∷ 2 ∷ 2 ∷ []
    else if ltb si1 7
    then 0 ∷ 0 ∷ 0 ∷ 0 ∷ 0 ∷ []
    else if ltb si1 9
    then 2 ∷ 2 ∷ 2 ∷ 2 ∷ 2 ∷ []
    else if ltb si1 10
    then 21 ∷ 21 ∷ 21 ∷ 21 ∷ 21 ∷ []
    else if ltb si1 11
    then 19 ∷ 19 ∷ 19 ∷ 19 ∷ 19 ∷ []
    else if ltb si1 15
    then 0 ∷ 0 ∷ 0 ∷ 0 ∷ 0 ∷ []
    else if ltb si1 16
    then 22 ∷ 22 ∷ 22 ∷ 22 ∷ 22 ∷ []
    else 27 ∷ 27 ∷ 27 ∷ 28 ∷ 27 ∷ []

-- `si2cip`.
unfoldable pub si2cip : ℕ → ℕ → ℕ
si2cip si1 si2 = entry (if ltb 4 si2 then 0 else si2) (cip_row (if ltb 16 si1 then 0 else si1))
