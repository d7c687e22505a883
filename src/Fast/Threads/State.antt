-- ===== src/Fast/Threads/State.antt =====
-- What is known of the queue of src/eventqueue_fast.h between two steps of its threads.
use message_center_cpp.Common.{
  ℕ, ◌<◌, ◌≤◌, ◌≡◌, ◌≢◌, refl, sym, ap, subst, ◌∙◌, Option, none, some, List, [], ◌∷◌, ◌++◌, length,
  arith, length-append,
}
use message_center_cpp.Mpmc.Arith.{IsCapacity}
use message_center_cpp.Mpmc.Threads.Invariant.{update_cases}
use message_center_cpp.Mailbox.{update}
use message_center_cpp.Message.{FastObserver}
use message_center_cpp.Message.Letters.{Letter}
use message_center_cpp.Fast.{max_observers}
use message_center_cpp.Fast.Threads.{System, Begins}
use message_center_cpp.Fast.Threads.Nodes.{holds, Owned, begin-Owned, one_owner}
use message_center_cpp.Fast.Threads.Pool.{Pooled, begin-Pooled}
use message_center_cpp.Fast.Threads.Letters.{Jobs, Loaded}
use message_center_cpp.Fast.Threads.Frame.{calls_at, Story, At, Told}

abbrev pub story : System → Jobs → Story
story s jobs = record { jobs = jobs; sent = s.sent; taken = s.taken; log = s.log }

pub record Inv (cap : ℕ) (s : System) : Type 0 where
  pub free : List ℕ
  pub nodes : List ℕ
  pub owner : ℕ → Option ℕ
  pub jobs : Jobs
  pub past : List Letter
  pub waiting : List Letter
  pub owned : Owned cap s free nodes owner
  pub loaded : Loaded s.payloads s.mailbox.messages s.fresh jobs
  pub told : Told (story s jobs) s.pc nodes past waiting
  pub topics : (t : ℕ) → length (s.topics t) ≤ 16
  pub pooled : Pooled s.mailbox.message_pool free s.pc

-- Two threads hold different nodes, so what is written for one is not of the other.
pub other_job :
    {cap : ℕ} {s : System} {free nodes : List ℕ} {owner : ℕ → Option ℕ}
    (v : Owned cap s free nodes owner) (jobs : Jobs) (o : Option (Letter × ℕ)) (i j node x : ℕ)
    → i ≢ j
    → holds (s.pc i) ≡ some node
    → holds (s.pc j) ≡ some x
    → update jobs node o x ≡ jobs x
other_job {cap} {s} v jobs o i j node x ne e f =
    update_cases (λ (q : Option (Letter × ℕ)). q ≡ jobs x) jobs node o x
      (λ same. absurd (ne (one_owner v i j x (e ∙ ap some same) f))) (λ q. refl)

pub start-Inv :
    {cap : ℕ} (c : IsCapacity cap) {s : System} (free : List ℕ) → Begins cap s free → Inv cap s
start-Inv c {s} free v = record {
  free = free;
  nodes = [];
  owner = λ x. none;
  jobs = λ x. none;
  past = [];
  waiting = [];
  owned = begin-Owned c free v;
  loaded = record {
    loads = λ x l n e. ground (arith, e);
    few = λ x l n e. ground (arith, e);
    apart = λ x y p e. absurd (e refl);
    born = λ x p e. absurd (e refl);
    unborn = λ p h. v.no_payload p;
  };
  told = record {
    sent_is = v.nothing_sent;
    taken_is = v.nothing_taken;
    queued = refl;
    threads = λ i. subst (At (story s (λ x. none))) (sym (v.all_idle i)) tt;
    one_worker = λ i j pos e. ground (arith, v.all_idle i, e);
    later = λ pos h. ap (calls_at pos) v.no_call;
    done = λ pos l e h. absurd (omega (arith, v.nothing_taken));
  };
  topics = λ t. rw (v.no_observer t) (omega arith);
  pooled = begin-Pooled free v;
}

module _ {cap : ℕ} {s : System} (v : Inv cap s) where
  pub observer-Inv :
      (topic_id : ℕ) (o : FastObserver)
      → length (s.topics topic_id) < max_observers
      → Inv cap (record s { topics = update s.topics topic_id (s.topics topic_id ++ o ∷ []) })
  observer-Inv topic_id o h = record {
    free = v.free;
    nodes = v.nodes;
    owner = v.owner;
    jobs = v.jobs;
    past = v.past;
    waiting = v.waiting;
    owned = record {
      ring = v.owned.ring;
      chain = v.owned.chain;
      alone = v.owned.alone;
      known = v.owned.known;
      held = λ i x e.
          let old = v.owned.held i x e in
          record {
            owned = old.owned;
            not_free = old.not_free;
            not_queued = old.not_queued;
            made = old.made;
          };
    };
    loaded = v.loaded;
    told = v.told;
    topics = λ t.
        update_cases (λ (os : List FastObserver). length os ≤ 16) s.topics topic_id
          (s.topics topic_id ++ o ∷ []) t
          (λ e. omega (arith, length-append {0} (s.topics topic_id) (o ∷ []))) (λ ne. v.topics t);
    pooled = v.pooled;
  }
