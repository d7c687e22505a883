-- ===== src/CenterFast/Notices.antt =====
-- The ring of src/messagecenter_fast.h holds a list of notices, and a post adds one.
use message_center_cpp.Common.{
  ℕ, suc, ◌+◌, ◌%◌, ◌^◌, ◌≤◌, ◌<◌, ◌≡◌, refl, ap, ◌∙◌, true, false, none, some, List, [], ◌∷◌, ◌++◌,
  length, length-append, count, leb, arith, ℕ_discrete,
}
use message_center_cpp.Mpmc.Arith.{IsCapacity, capacity_bounds}
use message_center_cpp.PoolLockFree
use message_center_cpp.Mailbox.{Mailbox, Outside, update}
use message_center_cpp.Mailbox.Queued.{Queued, Queued-fits, push-Queued}
use message_center_cpp.CenterFast.{
  fast_max_topics, MessageFast, CenterFast, owned, data_of, write, post, pending,
}
use message_center_cpp.CenterFast.Delivery.{used, owned-write, data_of-write, size-write}

-- What a post sends.
pub record Notice : Type 0 where
  pub topic_id : ℕ
  pub bytes : List ℕ

pub record Tells (m : MessageFast) (n : Notice) : Type 0 where
  pub topic : m.topic_id ≡ n.topic_id
  pub known : n.topic_id < fast_max_topics
  pub size : m.size ≡ length n.bytes
  pub content : data_of m ≡ n.bytes

abbrev pub AllTell : List MessageFast → List Notice → Type 0
AllTell [] [] = Unit
AllTell [] (n ∷ ns) = true ≡ false
AllTell (m ∷ ms) [] = true ≡ false
AllTell (m ∷ ms) (n ∷ ns) = Tells m n × AllTell ms ns

-- the blocks that the messages own
abbrev pub blocks : List MessageFast → ℕ
blocks [] = 0
blocks (m ∷ ms) = owned m + blocks ms

abbrev pub box : CenterFast → Mailbox MessageFast
box c = record { queue = c.queue; message_pool = c.message_pool; messages = c.messages }

-- The ring holds the notices, and their messages own the live blocks but for `kept` others. A node
-- outside of the ring owns none. The counters differ by the number of notices.
pub record Holding (cap kept : ℕ) (c : CenterFast) (free nodes : List ℕ) (ns : List Notice)
    : Type 0 where
  pub messages : List MessageFast
  pub queued : Queued cap (box c) free nodes messages
  pub told : AllTell messages ns
  pub clean : (x : ℕ) → count x nodes ≡ 0 → (c.messages x).managed_data ≡ none
  pub live : c.live_blocks ≡ kept + blocks messages
  pub counted : c.posted ≡ (c.dispatched + length ns) % 2 ^ 64
  pub word : c.dispatched < 2 ^ 64

pub AllTell-length :
    (ms : List MessageFast) (ns : List Notice) → AllTell ms ns → length ms ≡ length ns
AllTell-length [] [] v = refl
AllTell-length [] (n ∷ ns) v = ground arith
AllTell-length (m ∷ ms) [] v = ground arith
AllTell-length (m ∷ ms) (n ∷ ns) v = ap suc (AllTell-length ms ns v.1)

AllTell-append :
    (ms : List MessageFast) (ns : List Notice) (m : MessageFast) (n : Notice)
    → AllTell ms ns
    → Tells m n
    → AllTell (ms ++ m ∷ []) (ns ++ n ∷ [])
AllTell-append [] [] m n v w = (w, tt)
AllTell-append [] (n' ∷ ns) m n v w = ground arith
AllTell-append (m' ∷ ms) [] m n v w = ground arith
AllTell-append (m' ∷ ms) (n' ∷ ns) m n v w = (v.0, AllTell-append ms ns m n v.1 w)

blocks-append :
    (ms : List MessageFast) (m : MessageFast) → blocks (ms ++ m ∷ []) ≡ blocks ms + owned m
blocks-append [] m = omega arith
blocks-append (m' ∷ ms) m = omega (arith, blocks-append ms m)

count-append : (x : ℕ) (xs ys : List ℕ) → count x (xs ++ ys) ≡ count x xs + count x ys
count-append x [] ys = omega arith
count-append x (y ∷ xs) ys = ground (arith, count-append x xs ys)

module _ {cap : ℕ} (k : IsCapacity cap) {kept : ℕ} {c : CenterFast} {free nodes : List ℕ}
    {ns : List Notice} (v : Holding cap kept c free nodes ns) where
  -- `pending` is the number of the notices that wait.
  pub pending-length : pending c ≡ length ns
  unfolding pending
  pending-length =
      let few : length ns ≤ 2 ^ 62 =
        omega
          (arith, Queued-fits k v.queued, AllTell-length v.messages ns v.told, capacity_bounds k) in
      omega (arith, v.counted, v.word)

  -- A post of some bytes, fewer than 2 ^ 32, to a known topic, on a ring with room, where `malloc` gives
  -- a block and `new` an address that is not in use, goes through and adds its notice at the end;
  -- nobody is called.
  pub post-Holding :
      (topic_id : ℕ) (bytes stale : List ℕ) (out : Outside)
      → topic_id < fast_max_topics
      → 0 < length bytes
      → length bytes < 2 ^ 32
      → length ns < cap
      → count out.node free ≡ 0
      → count out.node nodes ≡ 0
      → (c' : CenterFast) × (free' : List ℕ) × (nodes' : List ℕ) × (post cap c topic_id
            (some bytes)
            (length bytes)
            (some stale)
            out
          ≡ some (true, c'))
        × Holding cap kept c' free' nodes'
            (ns ++ record { topic_id = topic_id; bytes = bytes } ∷ [])
        × (c'.calls ≡ c.calls)
        × (c'.observers ≡ c.observers)
  unfolding post used
  post-Holding topic_id bytes stale out known some_byte short room fresh new =
      let node : ℕ = (PoolLockFree.acquire out.pool_failures c.message_pool out.node).0 in
      let pool = (PoolLockFree.acquire out.pool_failures c.message_pool out.node).1 in
      let (ring, free', pushed, absent, queued) =
        push-Queued k v.queued out (omega (arith, room, AllTell-length v.messages ns v.told)) fresh
          new in
      let old = c.messages node in
      let m = write topic_id (some bytes) (length bytes) (some stale) old in
      let sized = size-write k c topic_id bytes stale out out old short in
      let owns = owned-write k c topic_id bytes stale out out old (v.clean node absent) in
      let in_range : leb fast_max_topics topic_id ≡ false = ground arith in
      (
        record c {
          queue = ring;
          message_pool = pool;
          messages = update c.messages node m;
          live_blocks = c.live_blocks + used k c topic_id bytes stale out out;
          posted = (c.posted + 1) % 2 ^ 64;
        },
        free',
        nodes ++ node ∷ [],
        rw (in_range, pushed) refl,
        record {
          messages = v.messages ++ m ∷ [];
          queued = queued m;
          told = AllTell-append v.messages ns m _ v.told (record {
            topic = sized.1;
            known = known;
            size = sized.0;
            content = data_of-write k c topic_id bytes stale out out old some_byte;
          });
          clean = λ x e. elim (ℕ_discrete node x) [
            | yes same ↦
                let here : count x (node ∷ []) ≡ 1 = ground arith in
                absurd (omega (arith, e, here, count-append x nodes (node ∷ [])))
            | no ne ↦
                let kept_at : update c.messages node m x ≡ c.messages x = ground arith in
                ap (λ (m' : MessageFast). m'.managed_data) kept_at
                ∙ v.clean x (omega (arith, e, count-append x nodes (node ∷ [])))
          ];
          live = omega (arith, v.live, owns, blocks-append v.messages m);
          counted = omega (
            arith,
            v.counted,
            length-append ns (record { topic_id = topic_id; bytes = bytes } ∷ []),
          );
          word = v.word;
        },
        refl,
        refl,
      )
