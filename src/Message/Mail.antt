-- ===== src/Message/Mail.antt =====
-- A mailbox and a store of payloads hold a list of letters: a post adds one at the end, and a
-- dispatch calls the observers of the first.
use message_center_cpp.Common.{
  ℕ, suc, ◌≤◌, ◌<◌, ◌≡◌, ◌≢◌, refl, sym, ap, ◌∙◌, ◌⊎◌, true, false, Option, none, some, List, [],
  ◌∷◌, ◌++◌, length, count, arith, inl, inr, ℕ_discrete, All, All-append, All-left, All-right,
}
use message_center_cpp.Payload.{Store}
use message_center_cpp.Mpmc.Arith.{IsCapacity}
use message_center_cpp.Mailbox.{Mailbox, Outside, reserve, write, recycle}
use message_center_cpp.Mailbox.Queued.{Queued, send_lem, receive-nil, receive-cons}
use message_center_cpp.Message.{FastObserver, FastMessage, send, deliver}
use message_center_cpp.Message.Letters.{
  Letter, calls_of, bytes_at, shared, Carries, Carries-live, Carries-kept, Spent, call_all-Carries,
}
use message_center_cpp.Message.Compose.{compose-Carries}

abbrev pub Apart : FastMessage → FastMessage → Type 0
Apart m m' = (p : ℕ) → shared m ≡ some p → shared m' ≢ some p

-- The messages carry the letters, and no two of them share a payload.
abbrev pub AllCarry : Store → Store → List FastMessage → List Letter → Type 0
AllCarry before s [] [] = Unit
AllCarry before s [] (l ∷ ls) = true ≡ false
AllCarry before s (m ∷ ms) [] = true ≡ false
AllCarry before s (m ∷ ms) (l ∷ ls) =
    Carries before s m l × All (Apart m) ms × AllCarry before s ms ls

abbrev Untouched : Store → Store → FastMessage → Type 0
Untouched s t m = (p : ℕ) → shared m ≡ some p → t p ≡ s p

-- The mailbox holds the letters, and the store their payloads besides what `before` has in it.
pub record Mail (cap : ℕ) (before : Store) (b : Mailbox FastMessage) (s : Store)
    (free nodes : List ℕ) (ls : List Letter) : Type 0 where
  pub messages : List FastMessage
  pub queued : Queued cap b free nodes messages
  pub carried : AllCarry before s messages ls
  pub others : (p : ℕ) → All (λ m. shared m ≢ some p) messages → s p ≡ before p

module _ (before : Store) where
  AllCarry-kept :
      (s t : Store) (ms : List FastMessage) (ls : List Letter)
      → All (Untouched s t) ms
      → AllCarry before s ms ls
      → AllCarry before t ms ls
  AllCarry-kept s t [] [] u v = v
  AllCarry-kept s t [] (l ∷ ls) u v = v
  AllCarry-kept s t (m ∷ ms) [] u v = v
  AllCarry-kept s t (m ∷ ms) (l ∷ ls) u v =
      (Carries-kept t v.0 u.0, v.1, AllCarry-kept s t ms ls u.1 v.2)

  -- A payload that is not there is nobody's.
  AllCarry-none :
      (s : Store) (ms : List FastMessage) (ls : List Letter) (p : ℕ)
      → s p ≡ none
      → AllCarry before s ms ls
      → All (λ m. shared m ≢ some p) ms
  AllCarry-none s [] [] p e v = tt
  AllCarry-none s [] (l ∷ ls) p e v = tt
  AllCarry-none s (m ∷ ms) [] p e v = ground arith
  AllCarry-none s (m ∷ ms) (l ∷ ls) p e v =
      (λ sh. Carries-live v.0 sh e, AllCarry-none s ms ls p e v.2)

  pub AllCarry-length :
      (s : Store) (ms : List FastMessage) (ls : List Letter)
      → AllCarry before s ms ls
      → length ms ≡ length ls
  AllCarry-length s [] [] v = refl
  AllCarry-length s [] (l ∷ ls) v = ground arith
  AllCarry-length s (m ∷ ms) [] v = ground arith
  AllCarry-length s (m ∷ ms) (l ∷ ls) v = ap suc (AllCarry-length s ms ls v.2)

  AllCarry-append :
      (s t : Store) (m : FastMessage) (l : Letter) (ms : List FastMessage) (ls : List Letter)
      → ((p : ℕ) → shared m ≡ some p → s p ≡ none)
      → ((p : ℕ) → shared m ≢ some p → t p ≡ s p)
      → Carries before t m l
      → AllCarry before s ms ls
      → AllCarry before t (ms ++ m ∷ []) (ls ++ l ∷ [])
  AllCarry-append s t m l [] [] fresh same v w = (v, tt, tt)
  AllCarry-append s t m l [] (l' ∷ ls) fresh same v w = ground arith
  AllCarry-append s t m l (m' ∷ ms) [] fresh same v w = ground arith
  AllCarry-append s t m l (m' ∷ ms) (l' ∷ ls) fresh same v w = (
    Carries-kept t w.0 (λ p sh. same p (λ sh'. Carries-live w.0 sh (fresh p sh'))),
    All-append (Apart m') ms (m ∷ []) w.1 (λ p sh sh'. Carries-live w.0 sh (fresh p sh'), tt),
    AllCarry-append s t m l ms ls fresh same v w.2,
  )

Option-is : (x : Option ℕ) (p : ℕ) → (x ≡ some p) ⊎ (x ≢ some p)
Option-is none p = inr (λ e. ground (arith, e))
Option-is (some q) p = elim (ℕ_discrete q p) [
  | yes e ↦ inl (ap some e)
  | no ne ↦ inr (λ e. ne (ground (arith, e)))
]

-- What is left when the first message has been dispatched.
pub Spent-rest :
    {before s t : Store} (m : FastMessage) (ms : List FastMessage) (l : Letter) (ls : List Letter)
    → AllCarry before s (m ∷ ms) (l ∷ ls)
    → ((p : ℕ) → All (λ m'. shared m' ≢ some p) (m ∷ ms) → s p ≡ before p)
    → Spent before s m t
    → AllCarry before t ms ls × ((p : ℕ) → All (λ m'. shared m' ≢ some p) ms → t p ≡ before p)
Spent-rest {before} {s} {t} m ms l ls w others spent = (
  AllCarry-kept before s t ms ls (untouched ms w.1) w.2,
  λ p a. elim (Option-is (shared m) p) [
    | inl same ↦ spent.own p same
    | inr ne ↦ spent.others p ne ∙ others p (ne, a)
  ],
)
  where
    untouched : (ms : List FastMessage) → All (Apart m) ms → All (Untouched s t) ms
    untouched [] a = tt
    untouched (m' ∷ ms) a = (λ p sh. spent.others p (λ sh'. a.0 p sh' sh), untouched ms a.1)

deliver_nothing :
    {cap : ℕ} (c : IsCapacity cap) {b : Mailbox FastMessage} {s : Store} {free nodes : List ℕ}
    (ms : List FastMessage)
    → Queued cap b free nodes ms
    → length ms ≡ 0
    → (out : Outside) → deliver cap b s out ≡ some (none, b, s)
unfolding deliver
deliver_nothing c [] v e out = rw (receive-nil c v out) refl
deliver_nothing c (m ∷ ms) v e out = absurd (omega arith)

module _ {cap : ℕ} (c : IsCapacity cap) {before : Store} {b : Mailbox FastMessage} {s : Store}
    {free nodes : List ℕ} where
  -- A post of some bytes, or of none, to some observers adds its letter at the end.
  pub send-Mail :
      {ls : List Letter}
      → Mail cap before b s free nodes ls
      → (os : List FastObserver) (topic_id : ℕ) (bytes : Option (List ℕ)) (out : Outside)
      → 0 < length os
      → length os ≤ 255
      → length ls < cap
      → count out.node free ≡ 0
      → count out.node nodes ≡ 0
      → s out.payload ≡ none
      → (b' : Mailbox FastMessage) × (s' : Store) × (free' : List ℕ) × (nodes' : List ℕ) × (send cap
            b s os topic_id bytes
            (length (bytes_at bytes))
            out
          ≡ some (b', s'))
        × Mail cap before b' s' free' nodes'
            (ls ++ record { topic_id = topic_id; bytes = bytes_at bytes; observers = os } ∷ [])
  unfolding send reserve write
  send-Mail {ls} v os topic_id bytes out observed few room fresh new unused =
      let nobody = AllCarry-none before s v.messages ls out.payload unused v.carried in
      let old = (reserve b out).1.messages (reserve b out).0 in
      let (m, t, composed, carries, own, same, at_payload) =
        compose-Carries before s os topic_id out.payload old unused
          (sym (v.others out.payload nobody) ∙ unused) observed few bytes in
      let (b', free', nodes', pushed, queued) =
        send_lem c v.queued out m
          (omega (arith, room, AllCarry-length before s v.messages ls v.carried)) fresh new in
      (
        b',
        t,
        free',
        nodes',
        rw (composed, pushed) refl,
        record {
          messages = v.messages ++ m ∷ [];
          queued = queued;
          carried = AllCarry-append before s t m _ v.messages ls own same carries v.carried;
          others = λ p a.
              same p (All-right (λ m'. shared m' ≢ some p) v.messages (m ∷ []) a).0
              ∙ v.others p (All-left (λ m'. shared m' ≢ some p) v.messages (m ∷ []) a);
        },
      )

  pub deliver-Mail_nil :
      Mail cap before b s free nodes [] → (out : Outside) → deliver cap b s out ≡ some (none, b, s)
  deliver-Mail_nil v out =
      deliver_nothing c v.messages v.queued (AllCarry-length before s v.messages [] v.carried) out

  deliver_first :
      (ms : List FastMessage) (l : Letter) (ls : List Letter)
      → Queued cap b free nodes ms
      → AllCarry before s ms (l ∷ ls)
      → ((p : ℕ) → All (λ m. shared m ≢ some p) ms → s p ≡ before p)
      → (out : Outside)
      → (b' : Mailbox FastMessage) × (s' : Store) × (free' : List ℕ) × (nodes' : List ℕ) × (deliver
            cap b s out
          ≡ some (some (calls_of l), b', s'))
        × Mail cap before b' s' free' nodes' ls
  unfolding deliver
  deliver_first [] l ls v w others out = ground arith
  deliver_first (m ∷ ms) l ls v w others out =
      let (node, b1, free', nodes', got, at_node, queued) = receive-cons c v out in
      let (t, called, spent) = call_all-Carries w.0 in
      let rest = Spent-rest m ms l ls w others spent in
      (
        recycle b1 node out,
        t,
        free',
        nodes',
        rw (got, at_node, called) refl,
        record { messages = ms; queued = queued; carried = rest.0; others = rest.1 },
      )

  -- A dispatch calls the observers of the first letter once each, in order, with its bytes, and
  -- leaves the others.
  pub deliver-Mail_cons :
      {l : Letter} {ls : List Letter}
      → Mail cap before b s free nodes (l ∷ ls)
      → (out : Outside)
      → (b' : Mailbox FastMessage) × (s' : Store) × (free' : List ℕ) × (nodes' : List ℕ) × (deliver
            cap b s out
          ≡ some (some (calls_of l), b', s'))
        × Mail cap before b' s' free' nodes' ls
  deliver-Mail_cons {l} {ls} v out = deliver_first v.messages l ls v.queued v.carried v.others out

-- With no letter left, the payloads are those of `before`.
pub Mail-nil_payloads :
    {cap : ℕ} {before : Store} {b : Mailbox FastMessage} {s : Store} {free nodes : List ℕ}
    → Mail cap before b s free nodes []
    → (p : ℕ) → s p ≡ before p
Mail-nil_payloads {before = before} {s = s} v p = v.others p (nobody v.messages v.carried)
  where
    nobody : (ms : List FastMessage) → AllCarry before s ms [] → All (λ m. shared m ≢ some p) ms
    nobody [] w = tt
    nobody (m ∷ ms) w = ground arith
