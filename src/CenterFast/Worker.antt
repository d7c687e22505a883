-- ===== src/CenterFast/Worker.antt =====
-- The loop of the dispatch thread of src/messagecenter_fast.h, until it is stopped.
use message_center_cpp.Common.{
  ℕ, zero, suc, ◌<◌, ◌≡◌, refl, sym, ap₂, ◌∙◌, false, some, List, [], ◌∷◌, ◌++◌, length, append-nil,
  append_assoc, arith,
}
use message_center_cpp.Mpmc.Arith.{IsCapacity}
use message_center_cpp.Mailbox.{Outside}
use message_center_cpp.CenterFast.{
  ObserverEntryFast, CallFast, CenterFast, empty_ring, dispatch_loop, round, pending,
}
use message_center_cpp.CenterFast.Delivery.{calls_to}
use message_center_cpp.CenterFast.Notices.{Notice, Holding, pending-length}
use message_center_cpp.CenterFast.Rounds.{Holding-nil_blocks, round-nil, round-cons}

-- The calls for some notices, one after the other.
abbrev pub all_calls_to : (ℕ → List ObserverEntryFast) → List Notice → List CallFast
all_calls_to observers [] = []
all_calls_to observers (n ∷ ns) =
    calls_to n.topic_id n.bytes (observers n.topic_id) ++ all_calls_to observers ns

-- A centre that has gone on from `c`: the calls for `ns` are made, and no notice is left.
pub record Served (cap kept : ℕ) (c : CenterFast) (ns : List Notice) (c' : CenterFast)
    : Type 0 where
  pub free : List ℕ
  pub nodes : List ℕ
  pub holds : Holding cap kept c' free nodes []
  pub log : c'.calls ≡ c.calls ++ all_calls_to c.observers ns

module _ {cap : ℕ} (k : IsCapacity cap) {kept : ℕ} where
  Served-cons :
      {c c' c'' : CenterFast} (n : Notice) (ns : List Notice)
      → c'.calls ≡ c.calls ++ calls_to n.topic_id n.bytes (c.observers n.topic_id)
      → c'.observers ≡ c.observers
      → Served cap kept c' ns c''
      → Served cap kept c (n ∷ ns) c''
  Served-cons {c} {c'} n ns called same s = record {
    free = s.free;
    nodes = s.nodes;
    holds = s.holds;
    log =
        s.log
        ∙ ap₂ (λ cs os. cs ++ all_calls_to os ns) called same
        ∙ append_assoc c.calls (calls_to n.topic_id n.bytes (c.observers n.topic_id))
            (all_calls_to c.observers ns);
  }

  empty_ring_lem :
      (outs : ℕ → Outside) (fuel : ℕ) (c : CenterFast) (free nodes : List ℕ) (ns : List Notice)
      → Holding cap kept c free nodes ns
      → length ns < fuel
      → (c' : CenterFast) × (empty_ring cap outs fuel c ≡ some c') × Served cap kept c ns c'
  unfolding empty_ring
  empty_ring_lem outs zero c free nodes ns v enough = absurd (omega arith)
  empty_ring_lem outs (suc fuel) c free nodes [] v enough = (
    c,
    rw (round-nil k v (outs fuel)) refl,
    record { free = free; nodes = nodes; holds = v; log = sym (append-nil c.calls) },
  )
  empty_ring_lem outs (suc fuel) c free nodes (n ∷ ns) v enough =
      let (c1, free1, nodes1, went, w, called, same, counted) = round-cons k n ns v (outs fuel) in
      let (c2, rest, s) = empty_ring_lem outs fuel c1 free1 nodes1 ns w (omega arith) in
      (c2, rw (went, rest) refl, Served-cons n ns called same s)

  dispatch_loop_serves :
      (rounds : List Outside) (outs : ℕ → Outside) (fuel : ℕ) (c : CenterFast) (free nodes : List ℕ)
      (ns : List Notice)
      → Holding cap kept c free nodes ns
      → length ns < fuel
      → (c' : CenterFast) × (dispatch_loop cap rounds outs fuel c ≡ some c')
        × Served cap kept c ns c'
  unfolding dispatch_loop
  dispatch_loop_serves [] outs fuel c free nodes ns v enough =
      empty_ring_lem outs fuel c free nodes ns v enough
  dispatch_loop_serves (out ∷ rounds) outs fuel c free nodes [] v enough =
      let (c', went, s) = dispatch_loop_serves rounds outs fuel c free nodes [] v enough in
      (c', rw (round-nil k v out) went, s)
  dispatch_loop_serves (out ∷ rounds) outs fuel c free nodes (n ∷ ns) v enough =
      let (c1, free1, nodes1, went, w, called, same, counted) = round-cons k n ns v out in
      let (c2, rest, s) =
        dispatch_loop_serves rounds outs fuel c1 free1 nodes1 ns w (omega arith) in
      (c2, rw went rest, Served-cons n ns called same s)

  -- Whenever `m_stopping` is set, the loop of the dispatch thread ends, if nothing more is posted, and
  -- has called the observers of every notice that waited, in the order of the posts, each once with
  -- the bytes; no further round finds a message in the ring then, `pending` is 0, and the blocks of
  -- the notices are freed.
  pub dispatch_loop_lem :
      (rounds : List Outside) (outs : ℕ → Outside) (fuel : ℕ) (c : CenterFast) (free nodes : List ℕ)
      (ns : List Notice)
      → Holding cap kept c free nodes ns
      → length ns < fuel
      → (c' : CenterFast) × (dispatch_loop cap rounds outs fuel c ≡ some c')
        × (c'.calls ≡ c.calls ++ all_calls_to c.observers ns)
        × ((out : Outside) → round cap c' out ≡ some (false, c'))
        × (pending c' ≡ 0)
        × (c'.live_blocks ≡ kept)
  dispatch_loop_lem rounds outs fuel c free nodes ns v enough =
      let (c', went, s) = dispatch_loop_serves rounds outs fuel c free nodes ns v enough in
      (c', went, s.log, round-nil k s.holds, pending-length k s.holds, Holding-nil_blocks s.holds)
