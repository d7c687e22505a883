-- ===== src/Fast/Loops.antt =====
-- The loops of src/eventqueue_fast.h over `dispatchOne`.
use message_center_cpp.Common.{
  ℕ, zero, suc, ◌+◌, ◌<◌, ◌≡◌, ◌∙◌, sym, ap, some, List, [], ◌∷◌, ◌++◌, length, arith, min, take,
  drop, append-nil, append_assoc,
}
use message_center_cpp.Mpmc.Arith.{IsCapacity}
use message_center_cpp.Payload.{Store}
use message_center_cpp.Mailbox.{Outside}
use message_center_cpp.Message.Letters.{Letter, calls_of, all_calls}
use message_center_cpp.Message.Mail.{Mail-nil_payloads}
use message_center_cpp.Fast.{FastQueue, dispatch_batch, dispatch_all}
use message_center_cpp.Fast.Delivery.{Posted, dispatch_one-nil, dispatch_one-cons}

module _ {cap : ℕ} (c : IsCapacity cap) {before : Store} (outs : ℕ → Outside) where
  dispatch_batch_lem :
      (left dispatched : ℕ) (q : FastQueue) (free nodes : List ℕ) (ls : List Letter)
      → Posted cap before q free nodes ls
      → (q' : FastQueue) × (free' : List ℕ) × (nodes' : List ℕ) × (dispatch_batch cap outs left
            dispatched q
          ≡ some (dispatched + min left (length ls), q'))
        × Posted cap before q' free' nodes' (drop left ls)
        × (q'.calls ≡ q.calls ++ all_calls (take left ls))
  unfolding dispatch_batch
  dispatch_batch_lem zero dispatched q free nodes ls v =
      (q, free, nodes, ap (λ n. some (n, q)) (omega arith), v, sym (append-nil q.calls))
  dispatch_batch_lem (suc left) dispatched q free nodes [] v = (
    q,
    free,
    nodes,
    rw (dispatch_one-nil c q (outs dispatched) v) (ap (λ n. some (n, q)) (omega arith)),
    v,
    sym (append-nil q.calls),
  )
  dispatch_batch_lem (suc left) dispatched q free nodes (l ∷ ls) v =
      let (q1, free1, nodes1, went, w, called, same) =
        dispatch_one-cons c q (outs dispatched) l ls v in
      let (q2, free2, nodes2, rest, u, more) =
        dispatch_batch_lem left (dispatched + 1) q1 free1 nodes1 ls w in
      (
        q2,
        free2,
        nodes2,
        rw (went, rest) (ap (λ n. some (n, q2)) (omega arith)),
        u,
        more
            ∙ ap (λ xs. xs ++ all_calls (take left ls)) called
            ∙ append_assoc q.calls (calls_of l) (all_calls (take left ls)),
      )

  dispatch_all_lem :
      (fuel count : ℕ) (q : FastQueue) (free nodes : List ℕ) (ls : List Letter)
      → Posted cap before q free nodes ls
      → length ls < fuel
      → (q' : FastQueue) × (free' : List ℕ) × (nodes' : List ℕ) × (dispatch_all cap outs fuel count
            q
          ≡ some (count + length ls, q'))
        × Posted cap before q' free' nodes' []
        × (q'.calls ≡ q.calls ++ all_calls ls)
  unfolding dispatch_all
  dispatch_all_lem zero count q free nodes ls v enough = absurd (omega arith)
  dispatch_all_lem (suc fuel) count q free nodes [] v enough = (
    q,
    free,
    nodes,
    rw (dispatch_one-nil c q (outs count) v) (ap (λ n. some (n, q)) (omega arith)),
    v,
    sym (append-nil q.calls),
  )
  dispatch_all_lem (suc fuel) count q free nodes (l ∷ ls) v enough =
      let (q1, free1, nodes1, went, w, called, same) = dispatch_one-cons c q (outs count) l ls v in
      let (q2, free2, nodes2, rest, u, more) =
        dispatch_all_lem fuel (count + 1) q1 free1 nodes1 ls w (omega arith) in
      (
        q2,
        free2,
        nodes2,
        rw (went, rest) (ap (λ n. some (n, q2)) (omega arith)),
        u,
        more
            ∙ ap (λ xs. xs ++ all_calls ls) called
            ∙ append_assoc q.calls (calls_of l) (all_calls ls),
      )

  -- `dispatchBatch` ends, answers how many of the waiting messages it could dispatch within
  -- `maxCount`, and has called the observers of these, message by message in the order of the
  -- posts, each once with the bytes of its message; the others wait as before.
  pub dispatch_batch_refines :
      (max_count : ℕ) (q : FastQueue) (free nodes : List ℕ) (ls : List Letter)
      → Posted cap before q free nodes ls
      → (q' : FastQueue) × (free' : List ℕ) × (nodes' : List ℕ) × (dispatch_batch cap outs max_count
            0 q
          ≡ some (min max_count (length ls), q'))
        × Posted cap before q' free' nodes' (drop max_count ls)
        × (q'.calls ≡ q.calls ++ all_calls (take max_count ls))
  dispatch_batch_refines max_count q free nodes ls v =
      let (q', free', nodes', went, w, called) = dispatch_batch_lem max_count 0 q free nodes ls v in
      (q', free', nodes', went ∙ ap (λ n. some (n, q')) (omega arith), w, called)

  -- `dispatchAll` ends after as many rounds as there are messages and one more. It has called the
  -- observers of every message once each, in the order of the posts, and no payload is left that
  -- was not there before the posts.
  pub dispatch_all_drains :
      (fuel : ℕ) (q : FastQueue) (free nodes : List ℕ) (ls : List Letter)
      → Posted cap before q free nodes ls
      → length ls < fuel
      → (q' : FastQueue) × (free' : List ℕ) × (nodes' : List ℕ) × (dispatch_all cap outs fuel 0 q
          ≡ some (length ls, q'))
        × Posted cap before q' free' nodes' []
        × (q'.calls ≡ q.calls ++ all_calls ls)
        × ((p : ℕ) → q'.payloads p ≡ before p)
  dispatch_all_drains fuel q free nodes ls v enough =
      let (q', free', nodes', went, w, called) = dispatch_all_lem fuel 0 q free nodes ls v enough in
      (
        q',
        free',
        nodes',
        went ∙ ap (λ n. some (n, q')) (omega arith),
        w,
        called,
        Mail-nil_payloads w,
      )
