-- ===== src/Ncci/Queue.antt =====
-- The message-number queue of linux/drivers/isdn/capi/capilib.c against a list of nodes.
use capi4linux.Prelude.{
  among, NoTwice, ℕ, ◌+◌, ◌≡◌, refl, sym, ap, ◌∙◌, inl, inr, true, false, ◌||◌, Option, none, some,
  List, [], ◌∷◌, ◌++◌, ◌==◌, ==_iff, length, arith, Bool-cases, map, append_snoc,
}
use mathlib.Core.Bool.{false≢true}
use mathlib.Core.Path.{subst, ap₂}
use capi4linux.Cmsg.Struct.{update, update_self, update_other}
use capi4linux.Ncci.{Ncci, link_last, first_of, enqueue_node, mq_enqueue}

-- From `start` on, the links `f` go through these nodes and end.
abbrev pub Chain : (ℕ → Option ℕ) → Option ℕ → List ℕ → Type 0
Chain f start [] = start ≡ none
Chain f start (x ∷ xs) = (start ≡ some x) × Chain f (f x) xs

abbrev pub last_of : List ℕ → Option ℕ
last_of [] = none
last_of (x ∷ []) = some x
last_of (x ∷ y ∷ xs) = last_of (y ∷ xs)

-- The NCCI has the nodes `q` in its queue and `fr` in its free chain.
pub record Rep (np : Ncci) (q fr : List ℕ) : Type 0 where
  pub queue : Chain np.next np.msgidqueue q
  pub free : Chain np.next np.msgidfree fr
  pub last : np.msgidlast ≡ last_of q
  pub count : np.nmsg ≡ length q
  pub once : NoTwice (q ++ fr)

pub Chain-update :
    (f : ℕ → Option ℕ) (start v : Option ℕ) (x : ℕ) (xs : List ℕ)
    → among x xs ≡ false
    → Chain f start xs
    → Chain (update x v f) start xs
Chain-update f start v x [] h c = c
Chain-update f start v x (y ∷ ys) h c =
    let other : (y == x) ≡ false = ground arith in
    (c.0, rw (update_other x y v f other) (Chain-update f (f y) v x ys (ground arith) c.1))

pub among-append : (x : ℕ) (xs ys : List ℕ) → among x (xs ++ ys) ≡ (among x xs || among x ys)
among-append x [] ys = refl
among-append x (y ∷ xs) ys = ground (arith, among-append x xs ys)

pub among-last_of : (l : ℕ) (q : List ℕ) → last_of q ≡ some l → among l q ≡ true
among-last_of l [] e = cc
among-last_of l (y ∷ []) e = let it : y ≡ l = cc in ground arith
among-last_of l (y ∷ z ∷ q) e = ground (arith, among-last_of l (z ∷ q) e)

pub not_last : (y l : ℕ) (q : List ℕ) → among y q ≡ false → among l q ≡ true → (y == l) ≡ false
not_last y l q out inside = elim (Bool-cases (y == l)) [
  | inr other ↦ other
  | inl same ↦
      let e : y ≡ l = (==_iff y l).0 same in
      absurd (false≢true (sym out ∙ ap (λ k. among k q) e ∙ inside))
]

-- A new node behind the last one.
Chain-link :
    (f : ℕ → Option ℕ) (start : Option ℕ) (x l : ℕ) (q : List ℕ)
    → last_of q ≡ some l
    → NoTwice q
    → among x q ≡ false
    → Chain f start q
    → Chain (update l (some x) (update x none f)) start (q ++ x ∷ [])
Chain-link f start x l [] e o h c = cc
Chain-link f start x l (y ∷ []) e o h c =
    let it : y ≡ l = cc in
    let apart : (x == l) ≡ false = ground arith in
    (
      c.0,
      (
        (rw (it, update_self l (some x) (update x none f)) refl),
        (rw (update_other l x (some x) (update x none f) apart) (update_self x none f)),
      ),
    )
Chain-link f start x l (y ∷ z ∷ q) e o h c =
    let here : (y == l) ≡ false = not_last y l (z ∷ q) o.0 (among-last_of l (z ∷ q) e) in
    let new : (y == x) ≡ false = ground arith in
    (
      c.0,
      rw (update_other l y (some x) (update x none f) here, update_other x y none f new)
          (Chain-link f (f y) x l (z ∷ q) e o.1 (ground arith) c.1),
    )

last_of-snoc : (q : List ℕ) (x : ℕ) → last_of (q ++ x ∷ []) ≡ some x
last_of-snoc [] x = refl
last_of-snoc (y ∷ []) x = refl
last_of-snoc (y ∷ z ∷ q) x = last_of-snoc (z ∷ q) x

pub last_of-cons : (y : ℕ) (q : List ℕ) → (l : ℕ) × (last_of (y ∷ q) ≡ some l)
last_of-cons y [] = (y, refl)
last_of-cons y (z ∷ q) = last_of-cons z q

pub NoTwice-left : (q fr : List ℕ) → NoTwice (q ++ fr) → NoTwice q
NoTwice-left [] fr o = tt
NoTwice-left (y ∷ q) fr o = (ground (arith, o.0, among-append y q fr), NoTwice-left q fr o.1)

NoTwice-right : (q fr : List ℕ) → NoTwice (q ++ fr) → NoTwice fr
NoTwice-right [] fr o = o
NoTwice-right (y ∷ q) fr o = NoTwice-right q fr o.1

-- The first free node is not in the queue.
NoTwice-apart : (q : List ℕ) (x : ℕ) (fr : List ℕ) → NoTwice (q ++ x ∷ fr) → among x q ≡ false
NoTwice-apart [] x fr o = refl
NoTwice-apart (y ∷ q) x fr o =
    ground (arith, o.0, among-append y q (x ∷ fr), NoTwice-apart q x fr o.1)

NoTwice-across : (l : ℕ) (q fr : List ℕ) → NoTwice (q ++ fr) → among l q ≡ true → among l fr ≡ false
NoTwice-across l [] fr o h = cc
NoTwice-across l (y ∷ q) fr o h = elim (Bool-cases (l == y)) [
  | inl same ↦
      let e : l ≡ y = (==_iff l y).0 same in rw e (ground (arith, o.0, among-append y q fr))
  | inr other ↦ NoTwice-across l q fr o.1 (ground arith)
]

link_last-Chain :
    (f : ℕ → Option ℕ) (start : Option ℕ) (x : ℕ) (q fr : List ℕ)
    → NoTwice (q ++ x ∷ fr)
    → Chain f start fr
    → Chain (link_last (last_of q) x (update x none f)) start fr
unfolding link_last
link_last-Chain f start x [] fr o c = Chain-update f start none x fr o.0 c
link_last-Chain f start x (y ∷ q) fr o c =
    let (l, e) = last_of-cons y q in
    let out : among x fr ≡ false = (NoTwice-right (y ∷ q) (x ∷ fr) o).0 in
    let across = NoTwice-across l (y ∷ q) (x ∷ fr) o (among-last_of l (y ∷ q) e) in
    rw (e, link_last)
      (Chain-update (update x none f) start (some x) l fr (ground arith)
        (Chain-update f start none x fr out c))

link_last-some :
    (last : Option ℕ) (l x : ℕ) (g : ℕ → Option ℕ)
    → last ≡ some l
    → link_last last x g ≡ update l (some x) g
unfolding link_last
link_last-some last l x g e = rw (e, link_last) refl

link_last-queue :
    (f : ℕ → Option ℕ) (start : Option ℕ) (x : ℕ) (q fr : List ℕ)
    → NoTwice (q ++ x ∷ fr)
    → Chain f start q
    → Chain (link_last (last_of q) x (update x none f)) (first_of start x) (q ++ x ∷ [])
unfolding link_last
link_last-queue f start x [] fr o c = rw c (refl, update_self x none f)
link_last-queue f start x (y ∷ q) fr o c =
    let (l, e) = last_of-cons y q in
    let same : first_of start x ≡ start = (rw c.0 refl) in
    subst (λ g. Chain g (first_of start x) ((y ∷ q) ++ x ∷ []))
      (sym (link_last-some (last_of (y ∷ q)) l x (update x none f) e))
      (subst (λ from. Chain (update l (some x) (update x none f)) from ((y ∷ q) ++ x ∷ []))
        (sym same)
        (Chain-link f start x l (y ∷ q) e (NoTwice-left (y ∷ q) (x ∷ fr) o)
          (NoTwice-apart (y ∷ q) x fr o) c))

length-snoc : (q : List ℕ) (x : ℕ) → length (q ++ x ∷ []) ≡ length q + 1
length-snoc [] x = omega arith
length-snoc (y ∷ q) x = omega (arith, length-snoc q x)

map-update :
    (x id : ℕ) (f : ℕ → ℕ) (q : List ℕ)
    → among x q ≡ false
    → map (update x id f) (q ++ x ∷ []) ≡ map f q ++ id ∷ []
map-update x id f [] h = ap (λ k. k ∷ []) (update_self x id f)
map-update x id f (y ∷ q) h =
    let other : (y == x) ≡ false = ground arith in
    ap₂ (λ a b. a ∷ b) (update_other x y id f other) (map-update x id f q (ground arith))

-- With a free node, a message number is accepted and stands at the end of the queue, and the
-- other numbers of the queue stay.
pub mq_enqueue-Rep :
    (np : Ncci) (id x : ℕ) (q fr : List ℕ)
    → Rep np q (x ∷ fr)
    → (np' : Ncci) × (mq_enqueue np id ≡ (true, np'))
      × Rep np' (q ++ x ∷ []) fr
      × (map np'.msgid (q ++ x ∷ []) ≡ map np.msgid q ++ id ∷ [])
unfolding mq_enqueue enqueue_node
mq_enqueue-Rep np id x q fr r = (
  enqueue_node np id x,
  (rw (r.free.0, mq_enqueue) refl),
  record {
    queue = rw r.last (link_last-queue np.next np.msgidqueue x q fr r.once r.queue);
    free = rw r.last (link_last-Chain np.next (np.next x) x q fr r.once r.free.1);
    last = sym (last_of-snoc q x);
    count = omega (arith, r.count, length-snoc q x);
    once = subst NoTwice (sym (append_snoc q x fr)) r.once;
  },
  map-update x id np.msgid q (NoTwice-apart q x fr r.once),
)

-- With no free node, the number is refused and nothing changes.
pub mq_enqueue-full :
    (np : Ncci) (id : ℕ) (q : List ℕ) → Rep np q [] → mq_enqueue np id ≡ (false, np)
unfolding mq_enqueue
mq_enqueue-full np id q r =
    ap (λ f. elim f [ none ↦ (false, np) | some mq ↦ (true, enqueue_node np id mq) ]) r.free
