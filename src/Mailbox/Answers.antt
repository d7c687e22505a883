-- ===== src/Mailbox/Answers.antt =====
-- What a call of the ring that has succeeded says of the nodes in it, before and after.
use message_center_cpp.Common.{
  ℕ, ◌≡◌, refl, sym, ap, ◌∙◌, Option, none, some, List, [], ◌∷◌, ◌++◌, map, length, dec_lt, arith,
  some_inj,
}
use message_center_cpp.Mpmc.{Ring}
use message_center_cpp.Mpmc.Arith.{IsCapacity}
use message_center_cpp.Mpmc.Refine.{
  Contents, try_push-room, try_push-full, try_pop-cons, try_pop-nil,
}
use message_center_cpp.Mailbox.{Mailbox, Outside, enqueue, receive}

module _ {M : Type 0} {cap : ℕ} (c : IsCapacity cap) {b : Mailbox M} where
  pub enqueue_answer :
      {xs : List (Option ℕ)} (node : ℕ) (out : Outside) (b' : Mailbox M)
      → Contents cap b.queue xs
      → enqueue cap b node out ≡ some b'
      → (ring : Ring (Option ℕ)) × (record b { queue = ring } ≡ b')
        × Contents cap ring (xs ++ some node ∷ [])
  unfolding enqueue
  enqueue_answer {xs} node out b' v h = elim (dec_lt (length xs) cap) [
    | yes room ↦
        let (ring, e, w) = try_push-room c out.ring_failures (some node) v room in
        let same : some (record b { queue = ring }) ≡ some b' = sym (rw e refl) ∙ h in
        (ring, some_inj same, w)
    | no full ↦
        let e = try_push-full c out.ring_failures (some node) v (omega (arith, v.1.fits)) in
        let refused : enqueue cap b node out ≡ none = rw e refl in ground (arith, refused, h)
  ]

  pub receive_answer :
      {nodes : List ℕ} (node : ℕ) (out : Outside) (b' : Mailbox M)
      → Contents cap b.queue (map some nodes)
      → receive cap b out ≡ some (some node, b')
      → (nodes' : List ℕ) × (ring : Ring (Option ℕ)) × (nodes ≡ node ∷ nodes')
        × (record b { queue = ring } ≡ b')
        × Contents cap ring (map some nodes')
  unfolding receive
  receive_answer {nodes = []} node out b' v h =
      let e = try_pop-nil c out.ring_failures none v in
      let refused : receive cap b out ≡ some (none, b) = rw e refl in ground (arith, refused, h)
  receive_answer {nodes = x ∷ nodes} node out b' v h =
      let (ring, e, w) = try_pop-cons c out.ring_failures none v in
      let same : some (some x, record b { queue = ring }) ≡ some (some node, b') =
        sym (rw e refl) ∙ h in
      let parts = some_inj same in
      (nodes, ring, ap (λ y. y ∷ nodes) (some_inj (ap (λ t. t.0) parts)), ap (λ t. t.1) parts, w)
