-- ===== src/Fast/Threads/Delivery.antt =====
-- What the threads of src/eventqueue_fast.h deliver, and when they free it, in the runs of Step: no two
-- threads are in `popFree` at once, and `addObserver` meets no `post` before its `try_push`.
use message_center_cpp.Common.{
  ℕ, suc, ◌<◌, ◌≡◌, ◌⊎◌, inl, inr, refl, sym, ap, subst, ◌∙◌, none, some, List, [], ◌∷◌, ◌++◌, map,
  length, append-nil, arith, some_inj,
}
use message_center_cpp.Mpmc.Arith.{IsCapacity}
use message_center_cpp.Payload.{Store}
use message_center_cpp.Message.{FastObserver, data_of, release_one}
use message_center_cpp.Message.Letters.{Letter, call_of, calls_of, shared}
use message_center_cpp.Fast.Threads.{
  Pc, idle, popping, claiming, filling, pushing, calling, releasing, deleting, returning, linking,
  swinging, System, Reach,
}
use message_center_cpp.Fast.Threads.Loads.{Load-freed, data_of-Load, release_one-Load}
use message_center_cpp.Fast.Threads.Nodes.{holds, one_owner}
use message_center_cpp.Fast.Threads.Frame.{calls_at, letter_at, works, Dispatches, At}
use message_center_cpp.Fast.Threads.State.{Inv, story}
use message_center_cpp.Fast.Threads.Safety.{reach-Inv}

-- The read of a payload before a call finds the bytes that were posted, and the release after the
-- call finds a payload to release.
abbrev pub IsSafe : System → Pc → Type 0
IsSafe s (calling node pos (o ∷ rest)) =
    (l : Letter) × (letter_at s.sent pos ≡ some l)
    × (data_of (s.mailbox.messages node) s.payloads ≡ some l.bytes)
IsSafe s (releasing node pos rest) =
    (t : Store) × (release_one (s.mailbox.messages node) s.payloads ≡ some t)
IsSafe s _ = Unit

module _ {cap : ℕ} {s : System} (v : Inv cap s) where
  At-IsSafe : (p : Pc) → At (story s v.jobs) p → IsSafe s p
  At-IsSafe idle a = tt
  At-IsSafe (popping os topic_id bytes old_head) a = tt
  At-IsSafe (claiming os topic_id bytes old_head new_head) a = tt
  At-IsSafe (deleting node) a = tt
  At-IsSafe (returning node) a = tt
  At-IsSafe (linking node old_head) a = tt
  At-IsSafe (swinging node old_head) a = tt
  At-IsSafe (filling node os topic_id bytes) a = tt
  At-IsSafe (pushing node l) a = tt
  At-IsSafe (calling node pos []) a = tt
  At-IsSafe (calling node pos (o ∷ rest)) a =
      (a.letter, a.was_sent, data_of-Load (v.loaded.loads node a.letter (suc (length rest)) a.job))
  At-IsSafe (releasing node pos rest) a =
      let few = v.loaded.few node a.letter (suc (length rest)) a.job in
      let (t, e, left) =
        release_one-Load (length rest) (v.loaded.loads node a.letter (suc (length rest)) a.job)
          (omega (arith, few)) in
      (t, e)

  left_of :
      {node q pos left : ℕ} {rest : List FastObserver} {l : Letter}
      → Dispatches (story s v.jobs) node q left rest
      → q ≡ pos
      → letter_at s.sent pos ≡ some l
      → calls_at pos s.log ++ map (call_of l) rest ≡ calls_of l
  left_of {node} {q} {pos} {left} {rest} {l} d here at =
      let what : d.letter ≡ l = some_inj (sym d.was_sent ∙ ap (letter_at s.sent) here ∙ at) in
      subst (λ k. calls_at pos s.log ++ map (call_of k) rest ≡ calls_of k) what
        (ap (λ n. calls_at n s.log ++ map (call_of d.letter) rest) (sym here) ∙ d.so_far)

  left_at :
      (p : Pc) (pos : ℕ) (l : Letter)
      → At (story s v.jobs) p
      → works p ≡ some pos
      → letter_at s.sent pos ≡ some l
      → (rest : List FastObserver) × (calls_at pos s.log ++ map (call_of l) rest ≡ calls_of l)
  left_at idle pos l a e at = ground (arith, e)
  left_at (popping os topic_id bytes old_head) pos l a e at = ground (arith, e)
  left_at (claiming os topic_id bytes old_head new_head) pos l a e at = ground (arith, e)
  left_at (deleting node) pos l a e at = ground (arith, e)
  left_at (returning node) pos l a e at = ground (arith, e)
  left_at (linking node old_head) pos l a e at = ground (arith, e)
  left_at (swinging node old_head) pos l a e at = ground (arith, e)
  left_at (filling node os topic_id bytes) pos l a e at = ground (arith, e)
  left_at (pushing node k) pos l a e at = ground (arith, e)
  left_at (calling node q rest) pos l a e at = (rest, left_of a (some_inj e) at)
  left_at (releasing node q rest) pos l a e at = (rest, left_of a (some_inj e) at)

module _ {cap : ℕ} (c : IsCapacity cap) {s : System} (r : Reach cap s) where
  -- In every interleaving in which no two threads are in `popFree` at once, and no `addObserver` runs
  -- beside another or beside a `post` that has yet to call `try_push`: the observers of a message that
  -- was popped have got its calls, once each and in order, but for those that the thread that
  -- dispatches it has yet to call.
  pub delivered_once :
      (pos : ℕ) (l : Letter)
      → letter_at s.sent pos ≡ some l
      → pos < s.taken
      → (rest : List FastObserver) × (calls_at pos s.log ++ map (call_of l) rest ≡ calls_of l)
        × ((rest ≡ []) ⊎ ((i : ℕ) × (works (s.pc i) ≡ some pos)))
  delivered_once pos l at h =
      let v = reach-Inv c r in
      elim (v.told.done pos l at h) [
        | inl all ↦ ([], append-nil (calls_at pos s.log) ∙ all, inl refl)
        | inr w ↦
            let (rest, e) = left_at v (s.pc w.0) pos l (v.told.threads w.0) w.1 at in
            (rest, e, inr w)
      ]

  -- In every interleaving in which no two threads are in `popFree` at once, and no `addObserver` runs
  -- beside another or beside a `post` that has yet to call `try_push`: no call reads a payload that was
  -- freed or the bytes of another message, and no release meets a payload that was freed.
  pub no_use_after_free : (i : ℕ) → IsSafe s (s.pc i)
  no_use_after_free i = let v = reach-Inv c r in At-IsSafe v (s.pc i) (v.told.threads i)

  -- In every interleaving in which no two threads are in `popFree` at once, and no `addObserver` runs
  -- beside another or beside a `post` that has yet to call `try_push`: when a thread has made the last
  -- call of a message and released it, the payload is freed.
  pub payload_freed :
      (i node pos p : ℕ)
      → s.pc i ≡ calling node pos []
      → shared (s.mailbox.messages node) ≡ some p
      → s.payloads p ≡ none
  payload_freed i node pos p e sh =
      let v = reach-Inv c r in
      let d : Dispatches (story s v.jobs) node pos 0 [] =
        subst (At (story s v.jobs)) e (v.told.threads i) in
      Load-freed (v.loaded.loads node d.letter 0 d.job) sh

  -- No two threads hold one node.
  pub node_exclusive :
      (i j node : ℕ) → holds (s.pc i) ≡ some node → holds (s.pc j) ≡ some node → i ≡ j
  node_exclusive i j node e f = one_owner (reach-Inv c r).owned i j node e f
