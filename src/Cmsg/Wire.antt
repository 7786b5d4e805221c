-- ===== src/Cmsg/Wire.antt =====
-- The encoding of CAPI parameters as the layout of a message prescribes it, with no memory and no
-- positions: what `capi_cmsg2message` is meant to write.
use capi4linux.Prelude.{ℕ, ◌%◌, ◌^◌, ◌<◌, none, some, List, [], ◌∷◌, ◌++◌, length}
use capi4linux.Memory.{le16, le32, load_bytes}
use capi4linux.Cmsg.Table.{Typ, cbyte, cword, cdword, cstruct, cmstruct, cend}
use capi4linux.Cmsg.Struct.{Cmsg, CStruct, CmStruct, capi_compose, capi_default}
use capi4linux.Cmsg.Encode.{struct_size}
use capi4linux.Cmsg.Layout.{Layout, done, item, group}

-- A structure with its length prefix; NULL is the empty one.
unfoldable pub struct_wire : CStruct → List ℕ
struct_wire none = 0 ∷ []
struct_wire (some s) = load_bytes s 0 (struct_size s)

unfoldable pub par_wire : Cmsg → Typ → ℕ → List ℕ
par_wire c cbyte k = (c.nums k % 256) ∷ []
par_wire c cword k = le16 (c.nums k)
par_wire c cdword k = le32 (c.nums k)
par_wire c cstruct k = struct_wire (c.structs k)
par_wire c cmstruct k = []
par_wire c cend k = []

unfoldable pub mode_wire : CmStruct → List ℕ → List ℕ
mode_wire capi_default body = 0 ∷ []
mode_wire capi_compose body = length body ∷ body

unfoldable pub wire : Cmsg → Layout → List ℕ
wire c done = []
wire c (item t k r) = par_wire c t k ++ wire c r
wire c (group k g r) = mode_wire (c.modes k) (wire c g) ++ wire c r

-- Each composed structure is short enough for a length of one byte.
abbrev pub FitsMode : CmStruct → Type 0 → Type 0
FitsMode capi_default P = Unit {0}
FitsMode capi_compose P = P

abbrev pub Fits : Cmsg → Layout → Type 0
Fits c done = Unit {0}
Fits c (item t k r) = Fits c r
Fits c (group k g r) = FitsMode (c.modes k) ((length (wire c g) < 255) × Fits c g) × Fits c r

-- The numbers are in the range of their field's type.
abbrev pub InRange : Cmsg → Layout → Type 0
InRange c done = Unit {0}
InRange c (item cbyte k r) = (c.nums k < 256) × InRange c r
InRange c (item cword k r) = (c.nums k < 65536) × InRange c r
InRange c (item cdword k r) = (c.nums k < 2 ^ 32) × InRange c r
InRange c (item _ k r) = InRange c r
InRange c (group k g r) = InRange c g × InRange c r
