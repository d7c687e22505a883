-- ===== src/Emulator/Delivery.antt =====
-- The posts of src/eventqueue_emulator.h, and its topics.
use message_center_cpp.Common.{
  ℕ, ◌+◌, ◌≤◌, ◌<◌, ◌≡◌, refl, sym, Bool, true, false, not, ◌&&◌, ◌||◌, Option, none, some, List,
  [], ◌∷◌, ◌++◌, length, length-append, append-nil, count, ltb, leb, ◌==◌, if◌then◌else◌,
  Bool-cases, inl, inr, ◌⊎◌, arith, ℕ_discrete,
}
use message_center_cpp.Mpmc.Arith.{IsCapacity}
use message_center_cpp.Payload.{Store}
use message_center_cpp.Mailbox.{Outside, reserve, write}
use message_center_cpp.Mailbox.Queued.{send_lem}
use message_center_cpp.Message.{FastObserver}
use message_center_cpp.Message.Letters.{Letter, bytes_at}
use message_center_cpp.Message.Mail.{send-Mail}
use message_center_cpp.Emulator.{
  emu_max_topics, emu_inline_max, emu_max_observers, TopicPriority, critical, normal, Emulator,
  register_topic, add_observer, compose_fast, post_fast, post_bulk, post,
}
use message_center_cpp.Emulator.Letters.{
  Nodes, Holding, After, AllFastCarry-length, AllFastCarry-append, compose_fast-Carries,
}
use message_center_cpp.Emulator.Drain.{After-refl}

-- The topic IDs that are given out go up from 0 to 255, each once, and the counter stays where no
-- topic is left: a call answers 65535 then, and changes nothing.
pub register_topic_lem :
    (e : Emulator) (priority : TopicPriority)
    → e.topic_count ≤ emu_max_topics
    → let (id, e') = register_topic e priority in
      (id ≡ (if ltb e.topic_count emu_max_topics then e.topic_count else 65535))
      × (e'.topic_count
          ≡ (if ltb e.topic_count emu_max_topics then e.topic_count + 1 else e.topic_count))
      × (e'.topic_count ≤ emu_max_topics)
      × ((t : ℕ) → (e'.topics t).observers ≡ (e.topics t).observers)
unfolding register_topic
register_topic_lem e priority small = elim (Bool-cases (leb emu_max_topics e.topic_count)) [
  | inl f ↦ rw f (ground arith, ground arith, ground arith, λ t. refl)
  | inr f ↦ rw f (
    ground arith,
    ground arith,
    ground arith,
    λ t. elim (ℕ_discrete e.topic_count t) [ yes same ↦ ground arith | no ne ↦ ground arith ],
  )
]

-- An observer that is added leaves every topic with at most 8.
pub add_observer-few :
    (e : Emulator) (topic_id : ℕ) (o : FastObserver)
    → ((t : ℕ) → length (e.topics t).observers ≤ emu_max_observers)
    → (t : ℕ) → length ((add_observer e topic_id o).1.topics t).observers ≤ emu_max_observers
unfolding add_observer
add_observer-few e topic_id o few t = elim (Bool-cases (leb emu_max_topics topic_id)) [
  | inl f ↦ rw f (few t)
  | inr f ↦ elim (Bool-cases (leb emu_max_observers (length (e.topics topic_id).observers))) [
    | inl g ↦ rw (f, g) (few t)
    | inr g ↦
        rw (f, g)
          (elim (ℕ_discrete topic_id t) [
            | yes same ↦ ground (arith, few t, length-append (e.topics topic_id).observers (o ∷ []))
            | no ne ↦ ground (arith, few t)
          ])
  ]
]

TopicPriority-cases : (p : TopicPriority) → (p ≡ critical) ⊎ (p ≡ normal)
TopicPriority-cases critical = inl refl
TopicPriority-cases normal = inr refl

abbrev pub is_critical : TopicPriority → Bool
is_critical critical = true
is_critical normal = false

module _ (e : Emulator) (topic_id : ℕ) (bytes : Option (List ℕ)) where
  -- What `post` is to answer: false for an unknown topic, and for more than 48 bytes on a critical
  -- one.
  abbrev pub accepts : Bool
  accepts =
      not (leb emu_max_topics topic_id)
      && (not (is_critical (e.topics topic_id).priority)
          || leb (length (bytes_at bytes)) emu_inline_max)

  -- What a queue is to hold after the post, where `chosen` says that it is the topic's queue.
  abbrev pub with_post : Bool → List Letter → List Letter
  with_post chosen ls =
      if accepts && chosen && not (length (e.topics topic_id).observers == 0)
      then ls
        ++ record {
          topic_id = topic_id;
          bytes = bytes_at bytes;
          observers = (e.topics topic_id).observers;
        }
          ∷ []
      else ls

module _ {fcap bcap : ℕ} (c : IsCapacity fcap) (d : IsCapacity bcap) {before : Store} (e : Emulator)
    {ns : Nodes} (fs bs : List Letter) (topic_id : ℕ) (bytes : Option (List ℕ)) (out : Outside)
    (v : Holding fcap bcap before e ns fs bs)
    (few : length (e.topics topic_id).observers ≤ emu_max_observers) (room : length fs < fcap)
    (room_bulk : length bs < bcap) (fresh : count out.node ns.fast_free ≡ 0)
    (new : count out.node ns.fast_nodes ≡ 0) (fresh_bulk : count out.node ns.bulk_free ≡ 0)
    (new_bulk : count out.node ns.bulk_nodes ≡ 0) (unused : e.payloads out.payload ≡ none) where
  -- the post of a message that a queue takes
  abbrev letter : Letter
  letter = record {
    topic_id = topic_id;
    bytes = bytes_at bytes;
    observers = (e.topics topic_id).observers;
  }

  post_fast-observed :
      leb emu_max_topics topic_id ≡ false
      → leb (length (bytes_at bytes)) emu_inline_max ≡ true
      → (length (e.topics topic_id).observers == 0) ≡ false
      → (e' : Emulator) × (post_fast fcap e topic_id bytes (length (bytes_at bytes)) out
          ≡ some (true, e'))
        × After fcap bcap before e [] (fs ++ letter ∷ []) bs e'
  unfolding post_fast reserve write
  post_fast-observed known fits observed =
      let m =
        compose_fast (e.topics topic_id).observers topic_id bytes (length (bytes_at bytes))
          ((reserve e.fast out).1.messages (reserve e.fast out).0) in
      let (b, free', nodes', pushed, queued) =
        send_lem c v.fast.queued out m
          (omega (arith, room, AllFastCarry-length v.fast.messages fs v.fast.carried)) fresh new in
      let short : ltb emu_inline_max (length (bytes_at bytes)) ≡ false = ground arith in
      (
        record e { fast = b },
        rw (known, short, observed, pushed) refl,
        record {
          nodes = record ns { fast_free = free'; fast_nodes = nodes' };
          holds = record {
            fast = record {
              messages = v.fast.messages ++ m ∷ [];
              queued = queued;
              carried = AllFastCarry-append v.fast.messages fs m letter v.fast.carried (
                  compose_fast-Carries (e.topics topic_id).observers topic_id bytes _
                    (ground arith));
            };
            bulk = v.bulk;
          };
          log = sym (append-nil e.calls);
          topics = refl;
        },
      )

  post_bulk-observed :
      leb emu_max_topics topic_id ≡ false
      → (length (e.topics topic_id).observers == 0) ≡ false
      → (e' : Emulator) × (post_bulk bcap e topic_id bytes (length (bytes_at bytes)) out
          ≡ some (true, e'))
        × After fcap bcap before e [] fs (bs ++ letter ∷ []) e'
  unfolding post_bulk
  post_bulk-observed known observed =
      let (b, s, free', nodes', sent, w) =
        send-Mail d v.bulk (e.topics topic_id).observers topic_id bytes out (ground arith)
          (omega arith) room_bulk fresh_bulk new_bulk unused in
      (
        record e { bulk = b; payloads = s },
        rw (known, observed, sent) refl,
        record {
          nodes = record ns { bulk_free = free'; bulk_nodes = nodes' };
          holds = record { fast = v.fast; bulk = w };
          log = sym (append-nil e.calls);
          topics = refl;
        },
      )

  post_fast-silent :
      leb emu_max_topics topic_id ≡ false
      → leb (length (bytes_at bytes)) emu_inline_max ≡ true
      → (length (e.topics topic_id).observers == 0) ≡ true
      → post_fast fcap e topic_id bytes (length (bytes_at bytes)) out ≡ some (true, e)
  unfolding post_fast
  post_fast-silent known fits silent =
      let short : ltb emu_inline_max (length (bytes_at bytes)) ≡ false = ground arith in
      rw (known, short, silent) refl

  post_bulk-silent :
      leb emu_max_topics topic_id ≡ false
      → (length (e.topics topic_id).observers == 0) ≡ true
      → post_bulk bcap e topic_id bytes (length (bytes_at bytes)) out ≡ some (true, e)
  unfolding post_bulk
  post_bulk-silent known silent = rw (known, silent) refl

  -- On rings with room, and with `new` returning addresses that are not in use, `post` to a topic with
  -- at most 8 observers answers as `accepts` says, and adds the letter behind those of the queue for
  -- the topic's priority, if it is accepted and somebody observes the topic; nobody is called, and the
  -- other queue is as before.
  pub post_routes :
      (e' : Emulator) × (post fcap bcap e topic_id bytes (length (bytes_at bytes)) out
        ≡ some (accepts e topic_id bytes, e'))
      × After fcap bcap before e []
          (with_post e topic_id bytes (is_critical (e.topics topic_id).priority) fs)
          (with_post e topic_id bytes (not (is_critical (e.topics topic_id).priority)) bs)
          e'
  unfolding post
  post_routes = elim (Bool-cases (leb emu_max_topics topic_id)) [
    | inl unknown ↦ rw unknown (e, refl, After-refl v)
    | inr known ↦ elim (Bool-cases (length (e.topics topic_id).observers == 0)) [
      | inl silent ↦ elim (TopicPriority-cases (e.topics topic_id).priority) [
        | inl p ↦ elim (Bool-cases (leb (length (bytes_at bytes)) emu_inline_max)) [
          | inl fits ↦
              rw (known, p, fits, silent) (e, post_fast-silent known fits silent, After-refl v)
          | inr large ↦ rw (known, p, large) (e, refl, After-refl v)
        ]
        | inr p ↦ rw (known, p, silent) (e, post_bulk-silent known silent, After-refl v)
      ]
      | inr observed ↦ elim (TopicPriority-cases (e.topics topic_id).priority) [
        | inl p ↦ elim (Bool-cases (leb (length (bytes_at bytes)) emu_inline_max)) [
          | inl fits ↦ rw (known, p, fits, observed) (post_fast-observed known fits observed)
          | inr large ↦ rw (known, p, large) (e, refl, After-refl v)
        ]
        | inr p ↦ rw (known, p, observed) (post_bulk-observed known observed)
      ]
    ]
  ]
