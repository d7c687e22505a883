-- ===== src/Fast/Threads/Frame.antt =====
-- What a thread of src/eventqueue_fast.h knows of the message that it holds, and
-- what a step of another thread has to leave as it is for that.
use message_center_cpp.Common.{
  ℕ, zero, suc, ◌<◌, ◌≤◌, ◌≡◌, ◌≢◌, refl, ap, ◌∙◌, Option, none, some, List, [], ◌∷◌, ◌++◌, map,
  length, ◌==◌, if◌then◌else◌, arith, ℕ_discrete, ==_iff, ne→not_==, ◌⊎◌, append-nil,
}
use message_center_cpp.Message.{FastObserver, FastCall}
use message_center_cpp.Message.Letters.{Letter, call_of, calls_of}
use message_center_cpp.Fast.Threads.{
  Pc, idle, popping, claiming, filling, pushing, calling, releasing, deleting, returning, linking,
  swinging,
}
use message_center_cpp.Fast.Threads.Nodes.{holds}
use message_center_cpp.Fast.Threads.Letters.{Jobs}

-- the calls for the message that was popped after `pos` others
abbrev pub calls_at : ℕ → List (ℕ × FastCall) → List FastCall
calls_at pos [] = []
calls_at pos (c ∷ log) = if c.0 == pos then c.1 ∷ calls_at pos log else calls_at pos log

abbrev pub letter_at : List Letter → ℕ → Option Letter
letter_at [] pos = none
letter_at (l ∷ ls) zero = some l
letter_at (l ∷ ls) (suc pos) = letter_at ls pos

-- the message that a thread dispatches
abbrev pub works : Pc → Option ℕ
works (calling node pos rest) = some pos
works (releasing node pos rest) = some pos
works _ = none

-- what the nodes are for, and what was sent, taken and called
pub record Story : Type 0 where
  pub jobs : Jobs
  pub sent : List Letter
  pub taken : ℕ
  pub log : List (ℕ × FastCall)

-- The message at the node says `l`, for `left` more calls, and the calls before them were made.
pub record Dispatches (t : Story) (node pos left : ℕ) (rest : List FastObserver) : Type 0 where
  pub letter : Letter
  pub job : t.jobs node ≡ some (letter, left)
  pub popped : pos < t.taken
  pub was_sent : letter_at t.sent pos ≡ some letter
  pub so_far : calls_at pos t.log ++ map (call_of letter) rest ≡ calls_of letter

abbrev pub At : Story → Pc → Type 0
At t (popping os topic_id bytes old_head) = (0 < length os) × (length os ≤ 16)
At t (claiming os topic_id bytes old_head new_head) = (0 < length os) × (length os ≤ 16)
At t (filling node os topic_id bytes) = (0 < length os) × (length os ≤ 16)
At t (pushing node l) = (t.jobs node ≡ some (l, length l.observers)) × (length l.observers ≤ 16)
At t (calling node pos rest) = Dispatches t node pos (length rest) rest
At t (releasing node pos rest) = Dispatches t node pos (suc (length rest)) rest
At t _ = Unit

-- What is the same in two stories for a thread that stands at `p`.
pub record Same (t u : Story) (p : Pc) : Type 0 where
  pub jobs : (x : ℕ) → holds p ≡ some x → u.jobs x ≡ t.jobs x
  pub sent : (pos : ℕ) → pos < t.taken → letter_at u.sent pos ≡ letter_at t.sent pos
  pub taken : t.taken ≤ u.taken
  pub log : (pos : ℕ) → works p ≡ some pos → calls_at pos u.log ≡ calls_at pos t.log

Dispatches-kept :
    {t u : Story} {node pos left : ℕ} {rest : List FastObserver}
    → u.jobs node ≡ t.jobs node
    → (pos < t.taken → letter_at u.sent pos ≡ letter_at t.sent pos)
    → t.taken ≤ u.taken
    → calls_at pos u.log ≡ calls_at pos t.log
    → Dispatches t node pos left rest
    → Dispatches u node pos left rest
Dispatches-kept {rest = rest} jobs sent taken log d = record {
  letter = d.letter;
  job = jobs ∙ d.job;
  popped = omega (arith, taken, d.popped);
  was_sent = sent d.popped ∙ d.was_sent;
  so_far = ap (λ cs. cs ++ map (call_of d.letter) rest) log ∙ d.so_far;
}

pub At-kept : (t u : Story) (p : Pc) → Same t u p → At t p → At u p
At-kept t u idle k a = tt
At-kept t u (popping os topic_id bytes old_head) k a = a
At-kept t u (claiming os topic_id bytes old_head new_head) k a = a
At-kept t u (filling node os topic_id bytes) k a = a
At-kept t u (pushing node l) k a = (k.jobs node refl ∙ a.0, a.1)
At-kept t u (calling node pos rest) k a =
    Dispatches-kept (k.jobs node refl) (k.sent pos) k.taken (k.log pos refl) a
At-kept t u (releasing node pos rest) k a =
    Dispatches-kept (k.jobs node refl) (k.sent pos) k.taken (k.log pos refl) a
At-kept t u (deleting node) k a = tt
At-kept t u (returning node) k a = tt
At-kept t u (linking node old_head) k a = tt
At-kept t u (swinging node old_head) k a = tt

-- The queue between two steps: the ring holds the letters of `waiting`, those of `past` were popped.
pub record Told (t : Story) (pc : ℕ → Pc) (nodes : List ℕ) (past waiting : List Letter)
    : Type 0 where
  pub sent_is : t.sent ≡ past ++ waiting
  pub taken_is : t.taken ≡ length past
  pub queued : map t.jobs nodes ≡ map (λ l. some (l, length l.observers)) waiting
  pub threads : (i : ℕ) → At t (pc i)
  pub one_worker : (i j pos : ℕ) → works (pc i) ≡ some pos → works (pc j) ≡ some pos → i ≡ j
  pub later : (pos : ℕ) → t.taken ≤ pos → calls_at pos t.log ≡ []
  pub done :
      (pos : ℕ) (l : Letter)
      → letter_at t.sent pos ≡ some l
      → pos < t.taken
      → (calls_at pos t.log ≡ calls_of l) ⊎ ((i : ℕ) × (works (pc i) ≡ some pos))

pub letter_at-past :
    (past : List Letter) (l : Letter) (ls : List Letter)
    → letter_at (past ++ l ∷ ls) (length past) ≡ some l
letter_at-past [] l ls = refl
letter_at-past (k ∷ past) l ls = letter_at-past past l ls

pub letter_at-front :
    (past xs ys : List Letter) (pos : ℕ)
    → pos < length past
    → letter_at (past ++ xs) pos ≡ letter_at (past ++ ys) pos
letter_at-front [] xs ys pos h = absurd (omega arith)
letter_at-front (l ∷ past) xs ys zero h = refl
letter_at-front (l ∷ past) xs ys (suc pos) h = letter_at-front past xs ys pos (omega arith)

pub calls_at-append :
    (pos : ℕ) (xs ys : List (ℕ × FastCall))
    → calls_at pos (xs ++ ys) ≡ calls_at pos xs ++ calls_at pos ys
calls_at-append pos [] ys = refl
calls_at-append pos (c ∷ xs) ys = elim (ℕ_discrete c.0 pos) [
  | yes e ↦ rw ((==_iff c.0 pos).1 e) (ap (λ cs. c.1 ∷ cs) (calls_at-append pos xs ys))
  | no ne ↦ rw (ne→not_== c.0 pos ne) (calls_at-append pos xs ys)
]

-- One more call counts for its message, and for no other.
pub calls_at-here :
    (pos : ℕ) (c : FastCall) (log : List (ℕ × FastCall))
    → calls_at pos (log ++ (pos, c) ∷ []) ≡ calls_at pos log ++ c ∷ []
calls_at-here pos c log =
    calls_at-append pos log ((pos, c) ∷ []) ∙ rw ((==_iff pos pos).1 refl) refl

pub calls_at-elsewhere :
    (pos other : ℕ) (c : FastCall) (log : List (ℕ × FastCall))
    → pos ≢ other
    → calls_at other (log ++ (pos, c) ∷ []) ≡ calls_at other log
calls_at-elsewhere pos other c log ne =
    calls_at-append other log ((pos, c) ∷ [])
    ∙ rw (ne→not_== pos other ne) (append-nil (calls_at other log))
