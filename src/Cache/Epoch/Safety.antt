-- ===== src/Cache/Epoch/Safety.antt =====
-- What `is_safe_to_invalidate` guarantees.
use re_mlcxl.Base.{
  ℕ, zero, suc, ◌+◌, ◌≤◌, ◌<◌, ◌≡◌, ◌≢◌, ◌↔◌, refl, ap, sym, subst, ◌∙◌, inl, inr, true, false,
  arith, add64, ◌==◌, Bool-cases, ==→eq,
}
use re_mlcxl.Cache.Epoch.{
  ThreadLocalEpoch, EpochManager, periodically_advance_global_epoch, enter_mark_active,
  enter_publish, worker_thread_leave_epoch, is_safe_loop, is_safe_to_invalidate, Phase, outside,
  marked, loaded, inside, System, Step, advance, mark, load, publish, leave, Reach, start, Stays,
}

-- The worker has an epoch that lets an entry of the target epoch go.
abbrev pub Passed : ThreadLocalEpoch → ℕ → Type 0
Passed w target_epoch = w.active ≡ true → target_epoch < w.current_epoch

is_safe_loop-Passed :
    (m : EpochManager) (target rounds i : ℕ)
    → is_safe_loop m target rounds i ≡ true
    → (j : ℕ) → i ≤ j
    → j < i + rounds
    → Passed (m.worker_threads_epochs j) target
unfolding is_safe_loop
is_safe_loop-Passed m target zero i safe j lo hi = absurd (omega arith)
is_safe_loop-Passed m target (suc rounds) i safe j lo hi = elim (Bool-cases (j == i)) [
  | inl here ↦
      let same : j ≡ i = ==→eq j i here in
      subst (λ k. Passed (m.worker_threads_epochs k) target) (sym same) (λ a. ground arith)
  | inr later ↦
      is_safe_loop-Passed m target rounds (i + 1) (ground arith) j (ground arith) (omega arith)
]

Passed-is_safe_loop :
    (m : EpochManager) (target rounds i : ℕ)
    → ((j : ℕ) → i ≤ j → j < i + rounds → Passed (m.worker_threads_epochs j) target)
    → is_safe_loop m target rounds i ≡ true
unfolding is_safe_loop
Passed-is_safe_loop m target zero i each = refl
Passed-is_safe_loop m target (suc rounds) i each =
    let first = each i (omega arith) (omega arith) in
    let rest =
      Passed-is_safe_loop m target rounds (i + 1) (λ j lo hi. each j (omega arith) (omega arith)) in
    ground (arith, first)

-- `is_safe_to_invalidate(E)` is true exactly when every active worker has an epoch above E.
pub is_safe_iff :
    (m : EpochManager) (target : ℕ)
    → (is_safe_to_invalidate m target ≡ true)
      ↔ ((j : ℕ) → j < m.total_workers_number → Passed (m.worker_threads_epochs j) target)
unfolding is_safe_to_invalidate
is_safe_iff m target = (
  λ safe j lt.
      is_safe_loop-Passed m target m.total_workers_number 0 safe j (omega arith) (omega arith),
  λ each. Passed-is_safe_loop m target m.total_workers_number 0 (λ j lo hi. each j (omega arith)),
)

-- The state of a worker's record in each phase, under a bound for its epochs.
abbrev PhaseFits : ℕ → Phase → ThreadLocalEpoch → Type 0
PhaseFits global outside w = (w.active ≡ false) × (w.current_epoch ≤ global)
PhaseFits global marked w = (w.active ≡ true) × (w.current_epoch ≤ global)
PhaseFits global (loaded g) w = (w.active ≡ true) × (w.current_epoch ≤ global) × (g ≤ global)
PhaseFits global inside w = (w.active ≡ true) × (w.current_epoch ≤ global)

abbrev pub Inv : System → Type 0
Inv s = (i : ℕ) → PhaseFits s.manager.global_epoch (s.phase i) (s.manager.worker_threads_epochs i)

PhaseFits-mono :
    (a b : ℕ) (p : Phase) (w : ThreadLocalEpoch) → a ≤ b → PhaseFits a p w → PhaseFits b p w
PhaseFits-mono a b outside w le h = (h.0, omega arith)
PhaseFits-mono a b marked w le h = (h.0, omega arith)
PhaseFits-mono a b (loaded g) w le h = (h.0, omega arith, omega arith)
PhaseFits-mono a b inside w le h = (h.0, omega arith)

-- The invariant of a worker whose phase is known.
at_phase :
    (s : System) (k i : ℕ) (p : Phase)
    → s.phase k ≡ p
    → i ≡ k
    → Inv s
    → PhaseFits s.manager.global_epoch p (s.manager.worker_threads_epochs i)
at_phase s k i p e same inv =
    subst (λ q. PhaseFits s.manager.global_epoch q (s.manager.worker_threads_epochs i))
      (ap s.phase same ∙ e) (inv i)

Step-Inv : {s t : System} → Step s t → Inv s → Inv t
unfolding periodically_advance_global_epoch enter_mark_active enter_publish
    worker_thread_leave_epoch
Step-Inv {s} (advance small) inv = λ i.
    PhaseFits-mono s.manager.global_epoch (add64 s.manager.global_epoch 1) (s.phase i)
      (s.manager.worker_threads_epochs i) (omega arith) (inv i)
Step-Inv {s} (mark k e) inv = λ i. elim (Bool-cases (i == k)) [
  | inl here ↦ rw here (refl, (at_phase s k i outside e (==→eq i k here) inv).1)
  | inr other ↦ rw other (inv i)
]
Step-Inv {s} (load k e) inv = λ i. elim (Bool-cases (i == k)) [
  | inl here ↦
      let h = at_phase s k i marked e (==→eq i k here) inv in rw here (h.0, h.1, omega arith)
  | inr other ↦ rw other (inv i)
]
Step-Inv {s} (publish k g e) inv = λ i. elim (Bool-cases (i == k)) [
  | inl here ↦ let h = at_phase s k i (loaded g) e (==→eq i k here) inv in rw here (h.0, h.2)
  | inr other ↦ rw other (inv i)
]
Step-Inv {s} (leave k e) inv = λ i. elim (Bool-cases (i == k)) [
  | inl here ↦ rw here (refl, (at_phase s k i inside e (==→eq i k here) inv).1)
  | inr other ↦ rw other (inv i)
]

Reach-Inv : (n : ℕ) {s : System} → Reach (start n) s → Inv s
Reach-Inv n Reach.here = λ i. (refl, omega arith)
Reach-Inv n (Reach.next before step) = Step-Inv step (Reach-Inv n before)

Reach-total : (n : ℕ) {s : System} → Reach (start n) s → s.manager.total_workers_number ≡ n
unfolding periodically_advance_global_epoch enter_mark_active enter_publish
    worker_thread_leave_epoch
Reach-total n Reach.here = refl
Reach-total n (Reach.next before (advance small)) = Reach-total n before
Reach-total n (Reach.next before (mark i e)) = Reach-total n before
Reach-total n (Reach.next before (load i e)) = Reach-total n before
Reach-total n (Reach.next before (publish i g e)) = Reach-total n before
Reach-total n (Reach.next before (leave i e)) = Reach-total n before

-- What a worker that read an epoch up to a target epoch keeps until it leaves.
abbrev pub Held : ℕ → Phase → ThreadLocalEpoch → Type 0
Held target outside w = ⊥
Held target marked w = ⊥
Held target (loaded g) w = (w.active ≡ true) × (w.current_epoch ≤ target) × (g ≤ target)
Held target inside w = (w.active ≡ true) × (w.current_epoch ≤ target)

HeldAt : ℕ → ℕ → System → Type 0
HeldAt target i s = Held target (s.phase i) (s.manager.worker_threads_epochs i)

known_phase :
    (target : ℕ) (s : System) (k i : ℕ) (p : Phase)
    → s.phase k ≡ p
    → i ≡ k
    → HeldAt target i s
    → Held target p (s.manager.worker_threads_epochs i)
unfolding HeldAt
known_phase target s k i p e same held =
    subst (λ q. Held target q (s.manager.worker_threads_epochs i)) (ap s.phase same ∙ e) held

Step-Held :
    (target i : ℕ) {s t : System}
    → Step s t
    → t.phase i ≢ outside
    → HeldAt target i s
    → HeldAt target i t
unfolding periodically_advance_global_epoch enter_mark_active enter_publish
    worker_thread_leave_epoch HeldAt
Step-Held target i {s} (advance small) stays held = held
Step-Held target i {s} (mark k e) stays held = elim (Bool-cases (i == k)) [
  | inl here ↦ absurd (known_phase target s k i outside e (==→eq i k here) held)
  | inr other ↦ rw other held
]
Step-Held target i {s} (load k e) stays held = elim (Bool-cases (i == k)) [
  | inl here ↦ absurd (known_phase target s k i marked e (==→eq i k here) held)
  | inr other ↦ rw other held
]
Step-Held target i {s} (publish k g e) stays held = elim (Bool-cases (i == k)) [
  | inl here ↦
      let h = known_phase target s k i (loaded g) e (==→eq i k here) held in rw here (h.0, h.2)
  | inr other ↦ rw other held
]
Step-Held target i {s} (leave k e) stays held = elim (Bool-cases (i == k)) [
  | inl here ↦ absurd (stays (rw here refl))
  | inr other ↦ rw other held
]

Stays-Held : (target i : ℕ) {s t : System} → Stays i s t → HeldAt target i s → HeldAt target i t
Stays-Held target i Stays.here held = held
Stays-Held target i (Stays.next before step stays) held =
    Step-Held target i step stays (Stays-Held target i before held)

-- The worker has read the epoch that it publishes, and has not left.
abbrev pub HasEntered : Phase → Type 0
HasEntered outside = ⊥
HasEntered marked = ⊥
HasEntered (loaded g) = Unit {0}
HasEntered inside = Unit {0}

start-HeldAt :
    (target i : ℕ) (s : System)
    → Inv s
    → HasEntered (s.phase i)
    → s.manager.global_epoch ≤ target
    → HeldAt target i s
unfolding HeldAt
start-HeldAt target i s inv entered le =
    fits (s.phase i) (s.manager.worker_threads_epochs i) (inv i) entered
  where
    fits :
        (p : Phase) (w : ThreadLocalEpoch)
        → PhaseFits s.manager.global_epoch p w
        → HasEntered p
        → Held target p w
    fits outside w h entered = absurd entered
    fits marked w h entered = absurd entered
    fits (loaded g) w h entered = (h.0, omega arith, omega arith)
    fits inside w h entered = (h.0, omega arith)

HeldAt-active :
    (target i : ℕ) (s : System)
    → HeldAt target i s
    → let w = s.manager.worker_threads_epochs i in (w.active ≡ true) × (w.current_epoch ≤ target)
unfolding HeldAt
HeldAt-active target i s held = active (s.phase i) (s.manager.worker_threads_epochs i) held
  where
    active :
        (p : Phase) (w : ThreadLocalEpoch)
        → Held target p w
        → (w.active ≡ true) × (w.current_epoch ≤ target)
    active outside w h = absurd h
    active marked w h = absurd h
    active (loaded g) w h = (h.0, h.1)
    active inside w h = h

-- The grace period. In a state that is reachable from n workers outside, one of them has read its epoch
-- and not left, and a target epoch is not less than the global one. In every reachable state that comes
-- later by steps in which this worker does not leave, `is_safe_to_invalidate` refuses the target epoch.
pub is_safe-refused :
    (n i target : ℕ) {s t : System}
    → Reach (start n) s
    → i < n
    → HasEntered (s.phase i)
    → s.manager.global_epoch ≤ target
    → Reach (start n) t
    → Stays i s t
    → is_safe_to_invalidate t.manager target ≡ false
is_safe-refused n i target {s} {t} reach lt entered le reach_t stays =
    let held =
      HeldAt-active target i t
        (Stays-Held target i stays (start-HeldAt target i s (Reach-Inv n reach) entered le)) in
    let total = Reach-total n reach_t in
    elim (Bool-cases (is_safe_to_invalidate t.manager target)) [
      | inl safe ↦
          let passed = (is_safe_iff t.manager target).0 safe i (omega arith) held.0 in
          absurd (omega arith)
      | inr refused ↦ refused
    ]
