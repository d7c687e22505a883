-- ===== src/MessageCenter/Lifecycle/Workers.antt =====
-- How many workers a centre of src/messagecenter.cpp has.
use message_center_cpp.Common.{
  ℕ, ◌+◌, ◌≤◌, ◌<◌, ◌≡◌, refl, false, none, some, arith, ==_iff, Option-cases, inl, inr,
}
use message_center_cpp.MessageCenter.Lifecycle.{
  starting, running, finished, Center, construct, spawn, joined, Step, check_start, start,
  check_stop, request, join, join_none, leave, finish, Reach, here, next,
}

-- What holds with one client, number 0: only the newest worker may be unfinished, and it is the one
-- in `thread`.
record Inv (c : Center) : Type 0 where
  idle : c.thread ≡ none → (w : ℕ) → w < c.spawned → c.workers w ≡ finished
  newest : (t : ℕ) → c.thread ≡ some t → c.spawned ≡ t + 1
  older : (t : ℕ) → c.thread ≡ some t → (w : ℕ) → w < t → c.workers w ≡ finished
  off : c.started ≡ false → c.thread ≡ none
  about : c.clients 0 ≡ starting → c.thread ≡ none

construct-Inv : Inv construct
unfolding construct
construct-Inv = record {
  idle = λ e w h. refl;
  newest = λ t e. cc;
  older = λ t e w h. refl;
  off = λ e. refl;
  about = λ e. refl;
}

Step-Inv : {c d : Center} → Step 1 c d → Inv c → Inv d
unfolding spawn joined
Step-Inv {c} (check_start i lt e off) v = record {
  idle = v.idle;
  newest = v.newest;
  older = v.older;
  off = v.off;
  about = λ p. v.off off;
}
Step-Inv {c} (start i lt e free) v = record {
  idle = λ p. cc;
  newest = λ t p. ground arith;
  older = λ t p w h. ground (arith, v.idle (v.about (ground arith)) w);
  off = λ p. cc;
  about = λ p. ground arith;
}
Step-Inv {c} (check_stop i lt e on) v = record {
  idle = v.idle;
  newest = v.newest;
  older = v.older;
  off = v.off;
  about = λ p. ground arith;
}
Step-Inv {c} (request i lt e free) v = record {
  idle = v.idle;
  newest = v.newest;
  older = v.older;
  off = v.off;
  about = λ p. ground arith;
}
Step-Inv {c} (join i t lt e at done) v = record {
  idle = λ p w h. ground (arith, v.newest t at, v.older t at w, ==_iff w t);
  newest = λ u p. cc;
  older = λ u p. cc;
  off = λ p. refl;
  about = λ p. refl;
}
Step-Inv {c} (join_none i lt e at) v = record {
  idle = λ p w h. v.idle at w h;
  newest = λ u p. cc;
  older = λ u p. cc;
  off = λ p. refl;
  about = λ p. refl;
}
Step-Inv {c} (leave w lt e stop) v = record {
  idle = λ p u h. ground (arith, v.idle p u h, v.idle p w lt);
  newest = v.newest;
  older = λ t p u h. ground (arith, v.older t p u h, v.older t p w, v.newest t p);
  off = v.off;
  about = v.about;
}
Step-Inv {c} (finish w lt e) v = record {
  idle = λ p u h. ground (arith, v.idle p u h);
  newest = v.newest;
  older = λ t p u h. ground (arith, v.older t p u h);
  off = v.off;
  about = v.about;
}

Reach-Inv : {c : Center} → Reach 1 c → Inv c
Reach-Inv here = construct-Inv
Reach-Inv (next r st) = Step-Inv st (Reach-Inv r)

-- Where one thread makes all calls of `Start` and `Stop`, two workers never run at once: of any
-- two, the older one is finished.
pub one_worker : {c : Center} (w u : ℕ) → Reach 1 c → w < u → u < c.spawned → c.workers w ≡ finished
one_worker {c} w u r older_w known = elim (Option-cases c.thread) [
  | inl e ↦ (Reach-Inv r).idle e w (omega arith)
  | inr (t, e) ↦ (Reach-Inv r).older t e w (omega (arith, (Reach-Inv r).newest t e))
]

-- Where one thread makes all calls of `Start` and `Stop`, a centre that is not started has no
-- worker that is not finished.
pub stopped_is_quiet :
    {c : Center} (w : ℕ) → Reach 1 c → c.started ≡ false → w < c.spawned → c.workers w ≡ finished
stopped_is_quiet w r off known = (Reach-Inv r).idle ((Reach-Inv r).off off) w known

-- Where several threads may call `Start`, two of them can both pass its test before either takes
-- the lock: then two workers run on one queue, and `m_thread` knows only the second.
pub double_start :
    (n : ℕ)
    → 2 ≤ n
    → (c : Center) × Reach n c
      × (c.workers 0 ≡ running)
      × (c.workers 1 ≡ running)
      × (c.thread ≡ some 1)
unfolding construct spawn
double_start n h = (
  _,
  next
      (next
        (next (next here (check_start 0 (omega arith) refl refl))
          (check_start 1 (omega arith) refl refl))
        (start 0 (omega arith) refl refl))
      (start 1 (omega arith) refl refl),
  refl,
  refl,
  refl,
)
