-- ===== src/Capidrv/Nodes.antt =====
-- The management of PLCIs, NCCIs and acknowledgements in linux/drivers/isdn/capi/capidrv.c.
use capi4linux.Prelude.{
  ℕ, ◌+◌, ◌%◌, Bool, false, Option, none, some, List, [], ◌∷◌, ◌++◌, ◌==◌, if◌then◌else◌, ◌>>=◌,
  among,
}
use capi4linux.Cmsg.Struct.{update}
use capi4linux.Capidrv.Card.{PlciNode, NcciNode, Card, set_bchan, set_plci}

-- The first `p` taken out of a chain.
unfoldable pub unchain : ℕ → List ℕ → List ℕ
unchain p [] = []
unchain p (x ∷ xs) = if p == x then xs else x ∷ unchain p xs

abbrev pub new_node : ℕ → PlciNode
new_node chan = record {
  plci = 0;
  msgid = 0;
  chan = chan;
  state = 0;
  leasedline = false;
  ncci_list = [];
}

-- `new_plci`, where the allocation succeeds. The node is `s.fresh`.
unfoldable pub new_plci : ℕ → Card → Option Card
unfolding set_bchan update
new_plci chan s =
    set_bchan chan (λ b. record b { plcip = some s.fresh })
      (record s {
        plci_list = s.fresh ∷ s.plci_list;
        plcis = update s.fresh (some (new_node chan)) s.plcis;
        fresh = s.fresh + 1;
      })

-- The loops of `find_plci_by_plci`, `find_plci_by_msgid` and `find_plci_by_ncci`; the outer `none` is
-- a bad pointer, the inner one NULL.
unfoldable pub find_plci : (PlciNode → Bool) → (ℕ → Option PlciNode) → List ℕ → Option (Option ℕ)
find_plci test nodes [] = some none
find_plci test nodes (p ∷ ps) =
    let rest = find_plci test nodes ps in nodes p >>= λ q. if test q then some (some p) else rest

abbrev pub find_plci_by_plci : ℕ → Card → Option (Option ℕ)
find_plci_by_plci plci s = find_plci (λ q. q.plci == plci) s.plcis s.plci_list

abbrev pub find_plci_by_msgid : ℕ → Card → Option (Option ℕ)
find_plci_by_msgid msgid s = find_plci (λ q. q.msgid == msgid) s.plcis s.plci_list

abbrev pub find_plci_by_ncci : ℕ → Card → Option (Option ℕ)
find_plci_by_ncci ncci s = find_plci (λ q. q.plci == ncci % 65536) s.plcis s.plci_list

-- `free_plci`.
unfoldable pub free_plci : ℕ → Card → Option Card
unfolding set_bchan unchain update
free_plci p s = s.plcis p >>= λ q.
    if among p s.plci_list
    then set_bchan q.chan (λ b. record b { plcip = none; disconnecting = false; incoming = false })
        (record s { plci_list = unchain p s.plci_list; plcis = update p none s.plcis })
    else some s

-- `new_ncci`, where the allocation succeeds, for the PLCI `p`. The node is `s.fresh`.
unfoldable pub new_ncci : ℕ → ℕ → Card → Option Card
unfolding set_bchan update
new_ncci p ncci s = s.plcis p >>= λ q.
    set_bchan q.chan (λ b. record b { nccip = some s.fresh })
      (record s {
        plcis = update p (some (record q { ncci_list = s.fresh ∷ q.ncci_list })) s.plcis;
        nccis =
            update s.fresh
              (some (record {
                plcip = p;
                ncci = ncci;
                msgid = 0;
                chan = q.chan;
                state = 0;
                oldstate = 0;
                datahandle = 0;
                ackqueue = [];
              }))
              s.nccis;
        fresh = s.fresh + 1;
      })

-- The second loops of `find_ncci` and `find_ncci_by_msgid`.
unfoldable pub find_node : (NcciNode → Bool) → (ℕ → Option NcciNode) → List ℕ → Option (Option ℕ)
find_node test nodes [] = some none
find_node test nodes (n ∷ ns) =
    let rest = find_node test nodes ns in nodes n >>= λ k. if test k then some (some n) else rest

-- The NCCIs of a PLCI that is found, or NULL.
abbrev pub find_below : (NcciNode → Bool) → Card → Option ℕ → Option (Option ℕ)
find_below test s none = some none
find_below test s (some p) = s.plcis p >>= λ q. find_node test s.nccis q.ncci_list

-- `find_ncci`.
unfoldable pub find_ncci : ℕ → Card → Option (Option ℕ)
unfolding find_plci find_node
find_ncci ncci s = find_plci_by_ncci ncci s >>= find_below (λ k. k.ncci == ncci) s

-- `find_ncci_by_msgid`.
unfoldable pub find_ncci_by_msgid : ℕ → ℕ → Card → Option (Option ℕ)
unfolding find_plci find_node
find_ncci_by_msgid ncci msgid s = find_plci_by_ncci ncci s >>= find_below (λ k. k.msgid == msgid) s

-- `free_ncci`.
unfoldable pub free_ncci : ℕ → Card → Option Card
unfolding set_bchan set_plci unchain update
free_ncci n s = s.nccis n >>= λ k.
    set_plci k.plcip (λ q. record q { ncci_list = unchain n q.ncci_list }) s >>= λ s1.
    set_bchan k.chan (λ b. record b { nccip = none }) s1 >>= λ s2.
    some (record s2 { nccis = update n none s2.nccis })

-- `capidrv_add_ack` at the end of the queue, where the allocation succeeds.
unfoldable pub capidrv_add_ack : ℕ → Option ℕ → List (ℕ × Option ℕ) → List (ℕ × Option ℕ)
capidrv_add_ack datahandle len q = q ++ (datahandle, len) ∷ []

-- `capidrv_del_ack`: the length, and the queue; the length is `none` for -1.
unfoldable pub capidrv_del_ack : ℕ → List (ℕ × Option ℕ) → Option ℕ × List (ℕ × Option ℕ)
capidrv_del_ack datahandle [] = (none, [])
capidrv_del_ack datahandle ((h, len) ∷ q) =
    let (found, rest) = capidrv_del_ack datahandle q in
    if h == datahandle then (len, q) else (found, (h, len) ∷ rest)
