-- ===== src/Cache/Epoch.antt =====
-- Forward_epoch/EpochManager.hpp. Each atomic access is one step, so entering is three steps that
-- other threads interleave with; the accesses are sequentially consistent. The global epoch does not
-- reach 2 ^ 64 (at one step a millisecond that takes half a billion years).
pub mod Safety
use re_mlcxl.Base.{
  ℕ, zero, suc, ◌+◌, ◌≤◌, ◌<◌, ◌≡◌, ◌≢◌, Bool, true, false, ◌&&◌, add64, u64_mod, leb, ◌==◌,
  if◌then◌else◌,
}

-- `thread_local_epoch`.
pub record ThreadLocalEpoch : Type 0 where
  pub current_epoch : ℕ
  pub active : Bool

-- `EpochManager`; the workers' array as a function of the worker id.
pub record EpochManager : Type 0 where
  pub global_epoch : ℕ
  pub worker_threads_epochs : ℕ → ThreadLocalEpoch
  pub total_workers_number : ℕ

-- The constructor.
abbrev pub new_epoch_manager : ℕ → EpochManager
new_epoch_manager total_workers_number = record {
  global_epoch = 0;
  worker_threads_epochs = λ _. record { current_epoch = 0; active = false };
  total_workers_number = total_workers_number;
}

abbrev pub update_worker : EpochManager → ℕ → (ThreadLocalEpoch → ThreadLocalEpoch) → EpochManager
update_worker m worker_id f = record m {
  worker_threads_epochs =
      λ i. if i == worker_id then f (m.worker_threads_epochs i) else m.worker_threads_epochs i;
}

-- `periodically_advance_global_epoch`.
unfoldable pub periodically_advance_global_epoch : EpochManager → EpochManager
periodically_advance_global_epoch m = record m { global_epoch = add64 m.global_epoch 1 }

-- The three steps of `worker_thread_enter_epoch`: the worker's flag is set, the global epoch is read
-- (a value of the worker's own), and the value read is published.
unfoldable pub enter_mark_active : EpochManager → ℕ → EpochManager
enter_mark_active m worker_id = update_worker m worker_id (λ w. record w { active = true })

unfoldable pub enter_publish : EpochManager → ℕ → ℕ → EpochManager
enter_publish m worker_id snapshot =
    update_worker m worker_id (λ w. record w { current_epoch = snapshot })

-- `get_global_epoch`.
abbrev pub get_global_epoch : EpochManager → ℕ
get_global_epoch m = m.global_epoch

-- `worker_thread_enter_epoch` with nothing in between.
unfoldable pub worker_thread_enter_epoch : EpochManager → ℕ → EpochManager
unfolding enter_mark_active enter_publish
worker_thread_enter_epoch m worker_id =
    let marked = enter_mark_active m worker_id in
    enter_publish marked worker_id (get_global_epoch marked)

-- `worker_thread_leave_epoch`.
unfoldable pub worker_thread_leave_epoch : EpochManager → ℕ → EpochManager
worker_thread_leave_epoch m worker_id = update_worker m worker_id (λ w. record w { active = false })

-- The loop of `is_safe_to_invalidate` over the last workers of the array.
pub is_safe_loop : EpochManager → ℕ → ℕ → ℕ → Bool
is_safe_loop m target_epoch zero i = true
is_safe_loop m target_epoch (suc rounds) i =
    let w = m.worker_threads_epochs i in
    let rest = is_safe_loop m target_epoch rounds (i + 1) in
    if w.active && leb w.current_epoch target_epoch then false else rest

-- `is_safe_to_invalidate`. The source loads the workers' epochs one after the other, while workers enter
-- and leave; here the scan reads one state.
unfoldable pub is_safe_to_invalidate : EpochManager → ℕ → Bool
unfolding is_safe_loop
is_safe_to_invalidate m target_epoch = is_safe_loop m target_epoch m.total_workers_number 0

-- Where a worker stands: outside, past the first or the second step of entering, or inside.
pub data Phase : Type 0 where
  outside : Phase
  marked : Phase
  loaded : ℕ → Phase
  inside : Phase

pub record System : Type 0 where
  pub manager : EpochManager
  pub phase : ℕ → Phase

abbrev pub set_phase : (ℕ → Phase) → ℕ → Phase → ℕ → Phase
set_phase phase worker_id p i = if i == worker_id then p else phase i

-- The steps of the threads, in any order.
pub data Step (s : System) : System → Type 0 where
  advance :
      s.manager.global_epoch + 1 < u64_mod
      → Step s (record s { manager = periodically_advance_global_epoch s.manager })
  mark :
      (i : ℕ)
      → s.phase i ≡ outside
      → Step s
          (record { manager = enter_mark_active s.manager i; phase = set_phase s.phase i marked })
  load :
      (i : ℕ)
      → s.phase i ≡ marked
      → Step s (record s { phase = set_phase s.phase i (loaded (get_global_epoch s.manager)) })
  publish :
      (i snapshot : ℕ)
      → s.phase i ≡ loaded snapshot
      → Step s (record {
        manager = enter_publish s.manager i snapshot;
        phase = set_phase s.phase i inside;
      })
  leave :
      (i : ℕ)
      → s.phase i ≡ inside
      → Step s (record {
        manager = worker_thread_leave_epoch s.manager i;
        phase = set_phase s.phase i outside;
      })

pub data Reach (s : System) : System → Type 0 where
  here : Reach s s
  next : {t u : System} → Reach s t → Step t u → Reach s u

abbrev pub start : ℕ → System
start total_workers_number = record {
  manager = new_epoch_manager total_workers_number;
  phase = λ _. outside;
}

-- Steps in which a given worker does not leave.
pub data Stays (i : ℕ) (s : System) : System → Type 0 where
  here : Stays i s s
  next : {t u : System} → Stays i s t → Step t u → u.phase i ≢ outside → Stays i s u
