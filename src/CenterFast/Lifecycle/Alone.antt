-- ===== src/CenterFast/Lifecycle/Alone.antt =====
-- One client thread of src/messagecenter_fast.h and its dispatch threads.
use message_center_cpp.Common.{
  ℕ, ◌<◌, ◌≡◌, ◌≢◌, refl, sym, ap, subst, ◌∙◌, ◌⊎◌, inl, inr, Bool, true, false, none, some, arith,
  ℕ_discrete, Bool-cases,
}
use message_center_cpp.Mailbox.{update}
use message_center_cpp.CenterFast.Lifecycle.{
  Client, outside, starting, clearing, creating, stopping, joining, leaving, Threads, construct,
  goes, create, Step, check_start, clear, set, spawn, check_stop, request, join, join_none, leave,
  finish, Reach, here, next,
}

-- no dispatch thread runs
abbrev Quiet : Threads → Type 0
Quiet c = (c.thread ≡ none) × ((w : ℕ) → c.workers w ≡ false)

-- at most the thread of `m_dispatchThread` runs
abbrev Busy : Threads → Type 0
Busy c = (v : ℕ) × (c.thread ≡ some v) × ((w : ℕ) → w ≢ v → c.workers w ≡ false)

-- What holds of one client where it stands.
abbrev At : Threads → Client → Type 0
At c outside = ((c.running ≡ false) × Quiet c) ⊎ ((c.running ≡ true) × Busy c)
At c starting = Quiet c
At c clearing = Quiet c
At c creating = Quiet c × (c.running ≡ true)
At c stopping = Busy c
At c joining = Busy c
At c leaving = Quiet c

outside-Quiet : (c : Threads) → At c outside → c.running ≡ false → Quiet c
outside-Quiet c (inl v) e = v.1
outside-Quiet c (inr v) e = ground (arith, v.0)

outside-Busy : (c : Threads) → At c outside → c.running ≡ true → Busy c
outside-Busy c (inl v) e = ground (arith, v.0)
outside-Busy c (inr v) e = v.1

moved : (c : Threads) (a b : Client) → a ≡ b → At c a → At c b
moved c a b e v = subst (At c) e v

abbrev Inv : Threads → Type 0
Inv c = At c (c.clients 0)

settle : (c : Threads) (i : ℕ) (at : Client) → i < 1 → At (goes c i at) at → Inv (goes c i at)
settle c i at only v =
    let same : i ≡ 0 = omega arith in
    let there : update c.clients i at 0 ≡ at = ground arith in
    subst (At (goes c i at)) (sym there) v

from : (c : Threads) (i : ℕ) (at : Client) → i < 1 → c.clients i ≡ at → Inv c → At c at
from c i at only e v =
    let same : i ≡ 0 = omega arith in moved c (c.clients 0) at (ap c.clients (sym same) ∙ e) v

still_false : (f : ℕ → Bool) (w x : ℕ) → f x ≡ false → update f w false x ≡ false
still_false f w x e = elim (ℕ_discrete w x) [ yes same ↦ ground arith | no ne ↦ ground arith ]

ended-Quiet :
    (c : Threads) (w : ℕ) → Quiet c → Quiet (record c { workers = update c.workers w false })
ended-Quiet c w v = (v.0, λ x. still_false c.workers w x (v.1 x))

ended-Busy : (c : Threads) (w : ℕ) → Busy c → Busy (record c { workers = update c.workers w false })
ended-Busy c w v = (v.0, v.1, λ x ne. still_false c.workers w x (v.2 x ne))

ended-At :
    (c : Threads) (w : ℕ) (at : Client)
    → At c at
    → At (record c { workers = update c.workers w false }) at
ended-At c w outside (inl v) = inl (v.0, ended-Quiet c w v.1)
ended-At c w outside (inr v) = inr (v.0, ended-Busy c w v.1)
ended-At c w starting v = ended-Quiet c w v
ended-At c w clearing v = ended-Quiet c w v
ended-At c w creating v = (ended-Quiet c w v.0, v.1)
ended-At c w stopping v = ended-Busy c w v
ended-At c w joining v = ended-Busy c w v
ended-At c w leaving v = ended-Quiet c w v

-- a thread that is created where none runs
create-Busy : (c : Threads) → Quiet c → Busy (create c)
unfolding create
create-Busy c v = (
  c.created,
  refl,
  λ w ne. (elim (ℕ_discrete c.created w) [
    | yes same ↦ absurd (ne (sym same))
    | no other ↦
        let kept : update c.workers c.created true w ≡ c.workers w = ground arith in kept ∙ v.1 w
  ]),
)

-- the thread that was joined was the last
join-Quiet :
    (c : Threads) (w : ℕ)
    → Busy c
    → c.thread ≡ some w
    → c.workers w ≡ false
    → (x : ℕ) → c.workers x ≡ false
join-Quiet c w v e f x = elim (ℕ_discrete x w) [
  | yes same ↦ rw same f
  | no ne ↦ v.2 x (λ g. ne (ground (arith, v.1)))
]

Step-Inv : {c d : Threads} → Step 1 c d → Inv c → Inv d
unfolding create
Step-Inv {c} (check_start i only e r) v =
    settle c i starting only (outside-Quiet c (from c i outside only e v) r)
Step-Inv {c} (clear i only e) v =
    settle (record c { stopping_flag = false }) i clearing only (from c i starting only e v)
Step-Inv {c} (set i only e) v =
    settle (record c { running = true }) i creating only (from c i clearing only e v, refl)
Step-Inv {c} (spawn i only e) v =
    let q = from c i creating only e v in
    settle (create c) i outside only (inr (q.1, create-Busy c q.0))
Step-Inv {c} (check_stop i only e r) v =
    settle c i stopping only (outside-Busy c (from c i outside only e v) r)
Step-Inv {c} (request i only e) v =
    settle (record c { stopping_flag = true }) i joining only (from c i stopping only e v)
Step-Inv {c} (join i w only e t f) v =
    settle (record c { thread = none }) i leaving only
      (refl, join-Quiet c w (from c i joining only e v) t f)
Step-Inv {c} (join_none i only e t) v =
    let b = from c i joining only e v in absurd (ground (arith, b.1))
Step-Inv {c} (leave i only e) v =
    settle (record c { running = false }) i outside only (inl (refl, from c i leaving only e v))
Step-Inv {c} (finish w r s) v = ended-At c w (c.clients 0) v

Reach-Inv : {c : Threads} → Reach 1 c → Inv c
unfolding construct
Reach-Inv here = inl (refl, (refl, λ w. refl))
Reach-Inv (next r s) = Step-Inv s (Reach-Inv r)

Quiet-alone : (c : Threads) (v w : ℕ) → Quiet c → c.workers v ≡ true → v ≡ w
Quiet-alone c v w q e = ground (arith, q.1 v)

Busy-alone : (c : Threads) (v w : ℕ) → Busy c → c.workers v ≡ true → c.workers w ≡ true → v ≡ w
Busy-alone c v w b e f = elim (ℕ_discrete v b.0) [
  | no ne ↦ ground (arith, b.2 v ne)
  | yes same ↦ elim (ℕ_discrete w b.0) [
    | no ne ↦ ground (arith, b.2 w ne)
    | yes same' ↦ same ∙ sym same'
  ]
]

At-alone :
    (c : Threads) (at : Client) (v w : ℕ)
    → At c at
    → c.workers v ≡ true
    → c.workers w ≡ true
    → v ≡ w
At-alone c outside v w (inl h) e f = Quiet-alone c v w h.1 e
At-alone c outside v w (inr h) e f = Busy-alone c v w h.1 e f
At-alone c starting v w h e f = Quiet-alone c v w h e
At-alone c clearing v w h e f = Quiet-alone c v w h e
At-alone c creating v w h e f = Quiet-alone c v w h.0 e
At-alone c stopping v w h e f = Busy-alone c v w h e f
At-alone c joining v w h e f = Busy-alone c v w h e f
At-alone c leaving v w h e f = Quiet-alone c v w h e

-- Where one thread makes all calls of `start` and `stop`, two dispatch threads never run at once.
pub one_dispatcher :
    {c : Threads} (v w : ℕ) → Reach 1 c → v ≢ w → c.workers v ≡ true → c.workers w ≡ false
one_dispatcher {c} v w r ne e = elim (Bool-cases (c.workers w)) [
  | inl f ↦ absurd (ne (At-alone c (c.clients 0) v w (Reach-Inv r) e f))
  | inr f ↦ f
]
