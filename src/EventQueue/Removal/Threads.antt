-- ===== src/EventQueue/Removal/Threads.antt =====
-- Sums over the threads of a system, and IDs in lists.
use message_center_cpp.Common.{
  ℕ, zero, suc, ◌+◌, ◌≤◌, ◌<◌, ◌≡◌, refl, ◌≢◌, List, [], ◌∷◌, ◌++◌, All, All-append, arith,
  ℕ_discrete, ◌==◌, ==_iff, Bool-cases, inl, inr, sym,
}
use message_center_cpp.EventQueue.Removal.{Pc, idle, invoking, waiting, update, erase_id}

-- Whether a thread is inside a dispatch.
abbrev pub busy : Pc → ℕ
busy (invoking _) = 1
busy _ = 0

-- the IDs that a thread may be calling, or may call later, from a snapshot
abbrev pub pending : Pc → List ℕ
pending (invoking snapshot) = snapshot
pending _ = []

-- how many of the first `n` threads are inside a dispatch
pub dispatching : ℕ → (ℕ → Pc) → ℕ
dispatching zero pc = 0
dispatching (suc n) pc = busy (pc n) + dispatching n pc

pub none_busy : (n : ℕ) → 0 ≡ dispatching n (λ _. idle)
unfolding dispatching
none_busy zero = refl
none_busy (suc n) = omega (arith, none_busy n)

dispatching-update_above :
    (n i : ℕ) (pc : ℕ → Pc) (p : Pc) → n ≤ i → dispatching n (update pc i p) ≡ dispatching n pc
unfolding dispatching
dispatching-update_above zero i pc p h = refl
dispatching-update_above (suc n) i pc p h =
    ground (arith, dispatching-update_above n i pc p (omega arith))

pub dispatching-update :
    (n i : ℕ) (pc : ℕ → Pc) (p : Pc)
    → i < n
    → dispatching n (update pc i p) + busy (pc i) ≡ dispatching n pc + busy p
unfolding dispatching
dispatching-update zero i pc p h = absurd (omega arith)
dispatching-update (suc n) i pc p h = elim (ℕ_discrete i n) [
  | yes e ↦ ground (arith, dispatching-update_above n i pc p (omega arith))
  | no ne ↦ ground (arith, dispatching-update n i pc p (omega arith))
]

pub dispatching-zero : (n i : ℕ) (pc : ℕ → Pc) → dispatching n pc ≡ 0 → i < n → busy (pc i) ≡ 0
unfolding dispatching
dispatching-zero zero i pc e h = absurd (omega arith)
dispatching-zero (suc n) i pc e h = elim (ℕ_discrete i n) [
  | yes q ↦ rw q (omega arith)
  | no ne ↦ dispatching-zero n i pc (omega arith) (omega arith)
]

pub pending-nil : (p : Pc) → busy p ≡ 0 → pending p ≡ []
pending-nil idle e = refl
pending-nil (invoking xs) e = absurd (omega arith)
pending-nil (waiting x) e = refl

-- `x` is not in the list.
abbrev pub Absent : ℕ → List ℕ → Type 0
Absent x = All (λ y. y ≢ x)

abbrev pub Distinct : List ℕ → Type 0
Distinct [] = Unit {0}
Distinct (x ∷ xs) = Absent x xs × Distinct xs

pub erase_id-All : (P : ℕ → Type 0) (x : ℕ) (xs : List ℕ) → All P xs → All P (erase_id x xs)
unfolding erase_id
erase_id-All P x [] h = tt
erase_id-All P x (y ∷ ys) h = elim (Bool-cases (y == x)) [
  | inl e ↦ rw e h.1
  | inr e ↦ rw e (h.0, erase_id-All P x ys h.1)
]

pub erase_id-Distinct : (x : ℕ) (xs : List ℕ) → Distinct xs → Distinct (erase_id x xs)
unfolding erase_id
erase_id-Distinct x [] d = tt
erase_id-Distinct x (y ∷ ys) d = elim (Bool-cases (y == x)) [
  | inl e ↦ rw e d.1
  | inr e ↦ rw e (erase_id-All (λ z. z ≢ y) x ys d.0, erase_id-Distinct x ys d.1)
]

-- Where IDs are distinct, the ID that is erased is gone.
pub erase_id-Absent : (x : ℕ) (xs : List ℕ) → Distinct xs → Absent x (erase_id x xs)
unfolding erase_id
erase_id-Absent x [] d = tt
erase_id-Absent x (y ∷ ys) d = elim (ℕ_discrete y x) [
  | yes e ↦ rw ((==_iff y x).1 e) (rw (← e) d.0)
  | no ne ↦ ground (arith, erase_id-Absent x ys d.1)
]

pub Absent-below : (n : ℕ) (xs : List ℕ) → All (λ y. y < n) xs → Absent n xs
Absent-below n [] h = tt
Absent-below n (y ∷ ys) h = (omega arith, Absent-below n ys h.1)

pub Below_suc : (n : ℕ) (xs : List ℕ) → All (λ y. y < n) xs → All (λ y. y < n + 1) xs
Below_suc n [] h = tt
Below_suc n (y ∷ ys) h = (omega arith, Below_suc n ys h.1)

pub Distinct-snoc : (xs : List ℕ) (x : ℕ) → Distinct xs → Absent x xs → Distinct (xs ++ x ∷ [])
Distinct-snoc [] x d a = (tt, tt)
Distinct-snoc (y ∷ ys) x d a =
    (All-append _ ys (x ∷ []) d.0 (λ e. a.0 (sym e), tt), Distinct-snoc ys x d.1 a.1)
