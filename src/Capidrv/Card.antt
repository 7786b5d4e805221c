-- ===== src/Capidrv/Card.antt =====
-- The state of a controller in linux/drivers/isdn/capi/capidrv.c. The nodes of its PLCIs and NCCIs are
-- in two stores, and a pointer to one is its place there; a chain of nodes is the list of pointers, in
-- order. A NULL, freed or foreign pointer that is followed, and an index that is out of range, give
-- `none`. What the driver sends and tells ISDN4Linux is kept in `out`.
use capi4linux.Prelude.{
  ℕ, ◌+◌, ◌%◌, Bool, Option, none, some, List, [], ◌∷◌, ◌++◌, ltb, leb, ◌&&◌, if◌then◌else◌, ◌>>=◌,
}
use capi4linux.Memory.{Mem}
use capi4linux.Cmsg.Struct.{Cmsg, CStruct, update}
use capi4linux.Cmsg.Encode.{capi_cmsg2message, cmsg_len}

-- `ISDN_PROTO_L2_X75I` and the other protocols that the driver knows.
pub data Layer2 : Type 0 where
  x75i x75ui x75bui hdlc transparent v11096 v11019 v11038 fax modem other_layer2 : Layer2

-- `struct capidrv_plci`; `chan` is the B channel.
pub record PlciNode : Type 0 where
  pub plci : ℕ
  pub msgid : ℕ
  pub chan : ℕ
  pub state : ℕ
  pub leasedline : Bool
  pub ncci_list : List ℕ

-- `struct capidrv_ncci`; a length in `ackqueue` is `none` for -1.
pub record NcciNode : Type 0 where
  pub plcip : ℕ
  pub ncci : ℕ
  pub msgid : ℕ
  pub chan : ℕ
  pub state : ℕ
  pub oldstate : ℕ
  pub datahandle : ℕ
  pub ackqueue : List (ℕ × Option ℕ)

-- `struct capidrv_bchan`; `contr` says whether the pointer is set.
pub record Bchan : Type 0 where
  pub contr : Bool
  pub msn : List ℕ
  pub num : List ℕ
  pub mynum : List ℕ
  pub l2 : Layer2
  pub l3 : ℕ
  pub si1 : ℕ
  pub si2 : ℕ
  pub incoming : Bool
  pub disconnecting : Bool
  pub plcip : Option ℕ
  pub nccip : Option ℕ

-- The calls of `statcallb` and `rcvcallb_skb`, by `ISDN_STAT_` command, with their arguments.
pub data Output : Type 0 where
  sent : Mem → Output
  icall : ℕ → CStruct → CStruct → ℕ → ℕ → Output
  dconn dhup bconn bhup : ℕ → Output
  bsent cinf : ℕ → ℕ → Output
  received : ℕ → Mem → ℕ → Output

-- `struct capidrv_contr`, with the application's number, the stores, the place of the next node, and
-- what the kernel's allocator does: whether each call of `alloc_skb` for a message gives a buffer,
-- and how many there were.
pub record Card : Type 0 where
  pub ap_id : ℕ
  pub contrnr : ℕ
  pub myid : ℕ
  pub state : ℕ
  pub cipmask : ℕ
  pub cipmask2 : ℕ
  pub msgid : ℕ
  pub nbchan : ℕ
  pub bchans : ℕ → Bchan
  pub plci_list : List ℕ
  pub plcis : ℕ → Option PlciNode
  pub nccis : ℕ → Option NcciNode
  pub fresh : ℕ
  pub alloc_skb : ℕ → Bool
  pub allocs : ℕ
  pub out : List Output

unfoldable pub emit : Output → Card → Card
emit o s = record s { out = s.out ++ o ∷ [] }

-- `card->msgid++`, for a `u16`.
unfoldable pub next_msgid : Card → Card
next_msgid s = record s { msgid = (s.msgid + 1) % 65536 }

-- `card->bchans[chan]`.
unfoldable pub bchan_at : ℕ → Card → Option Bchan
bchan_at chan s = if ltb chan s.nbchan then some (s.bchans chan) else none

-- A write to `card->bchans[chan]`.
unfoldable pub set_bchan : ℕ → (Bchan → Bchan) → Card → Option Card
unfolding update
set_bchan chan f s =
    if ltb chan s.nbchan
    then some (record s { bchans = update chan (f (s.bchans chan)) s.bchans })
    else none

-- A write to a node.
unfoldable pub set_plci : ℕ → (PlciNode → PlciNode) → Card → Option Card
unfolding update
set_plci p f s = s.plcis p >>= λ q. some (record s { plcis = update p (some (f q)) s.plcis })

unfoldable pub set_ncci : ℕ → (NcciNode → NcciNode) → Card → Option Card
unfolding update
set_ncci n f s = s.nccis n >>= λ k. some (record s { nccis = update n (some (f k)) s.nccis })

-- The bytes of `cmsg->buf`.
abbrev pub buf_size : ℕ
buf_size = 180

-- A buffer's content before a message is written to it.
abbrev pub no_bytes : Mem
no_bytes = λ _. 0

-- `send_message`: the message is encoded in `cmsg->buf`, copied to a buffer of its own, and goes to
-- the capicore, whose answer is not looked at. `none` is a message that overruns `cmsg->buf`, or an
-- `alloc_skb` that gives NULL, which `skb_put` follows.
unfoldable pub send_message : Cmsg → Card → Option Card
unfolding emit
send_message c s = capi_cmsg2message c no_bytes >>= λ m. cmsg_len c >>= λ l.
    if leb l buf_size && s.alloc_skb s.allocs
    then some (emit (sent m) (record s { allocs = s.allocs + 1 }))
    else none
