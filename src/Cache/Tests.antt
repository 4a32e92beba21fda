-- ===== src/Cache/Tests.antt =====
-- The theorems on the record cache at concrete inputs.
use re_mlcxl.Base.{
  ◌≢◌, suc, sym, ==→eq, ℕ, ◌+◌, ◌*◌, ◌<◌, ◌≤◌, ◌≡◌, ◌⊎◌, ◌↔◌, refl, inl, inr, Bool, true, false,
  List, [], ◌∷◌, none, some, arith, ◌==◌, if◌then◌else◌, All, Bool-cases,
}
use re_mlcxl.Cache.Entry.{
  RecordCacheType, read_only_mode,
  removed_from_hash_table_but_wait_for_physical_memory_deallocation,
  promote_thread_holding_the_position,
}
use re_mlcxl.Cache.Sieve.{
  SieveFifoQueue, evict_one_from_sieve_fifo, drain_state_removed_only, mark_slab_entries_as_null,
  refused,
}
use re_mlcxl.Cache.Sieve.Conserve.{copies, returned, HandInQueue, evict-keeps}
use re_mlcxl.Cache.Sieve.Progress.{evict-IsFound}
use re_mlcxl.Cache.Sieve.Drain.{removed_of, among, take, drain_lem, evict-mark}
use re_mlcxl.Cache.Epoch.{
  new_epoch_manager, is_safe_to_invalidate, System, inside, outside, Reach, next, here, loaded,
  enter_publish, enter_mark_active, set_phase, periodically_advance_global_epoch, marked, advance,
  mark, load, publish, start,
}
use re_mlcxl.Cache.Epoch.Safety.{Passed, is_safe_iff, is_safe-refused}
use re_mlcxl.Cache.Slab.{
  RecordCacheSlabAllocator, align_up, get_class_index, do_deallocate, num_classes, min_block_size,
  block_step,
}
use re_mlcxl.Cache.Slab.Carve.{get_class_index_lem}
use re_mlcxl.Cache.Slab.Balance.{count_on, Balanced, do_deallocate-Balanced}
use re_mlcxl.Cache.Table.{
  same_key, RecordCache, InvalidationEntry, try_lookup_in_record_cache,
  try_update_and_invalidate_record_cache, forward_items,
}
use re_mlcxl.Cache.Table.Update.{count_read_only, lookup-update}
use re_mlcxl.Cache.Table.Chains.{occurs, Chained}
use re_mlcxl.Cache.Table.Forward.{Settled, forward_items_lem, forward_items-entry}
use re_mlcxl.Cache.Table.Promote.InFlight
use re_mlcxl.Cache.Promotion.{install, phase_one, phase_three, phase_three-update}
use re_mlcxl.Cache.Entry.{is_removed}
use re_mlcxl.Cache.Evict.{Evictor, handle_victim}
use re_mlcxl.Cache.Evict.Victim.{Handled, handle_victim_lem}
use re_mlcxl.Cache.Rescue.{Walk, rescue_chain}
use re_mlcxl.Cache.Rescue.Chain.{Rescued, rescue_chain_lem}
use re_mlcxl.Cache.Table.Promote.{
  has_key, PromoteQueue, PromoteRequestMessage, signal_promote_thread, signal_direct_update_promote,
  take_request, finish_request,
}
use re_mlcxl.Cache.Table.Promote.InFlight.{
  queued, signal_promote_thread-IsValid, signal_direct_update_promote-IsValid, same_key-eq,
}
use re_mlcxl.Cache.Table.Promote.Lifecycle
use re_mlcxl.Cache.Table.Promote.Lifecycle.{Promoting, Calls, IsExact, Calls-IsExact}

-- A null pointer, an entry, and the hand at an entry that was accessed.
abbrev fifo : SieveFifoQueue
fifo = record {
  sieve_fifo_queue = none ∷ some 5 ∷ some 7 ∷ [];
  hand_pointer = 2;
  visited = λ p. p == 7;
}

-- The hand stands behind the only evictable entry.
abbrev starving : SieveFifoQueue
starving = record {
  sieve_fifo_queue = some 5 ∷ some 6 ∷ some 7 ∷ [];
  hand_pointer = 1;
  visited = λ p. false;
}

abbrev types : ℕ → RecordCacheType
types p =
    if p == 5
    then removed_from_hash_table_but_wait_for_physical_memory_deallocation
    else read_only_mode

abbrev accept : ℕ → Bool
accept p = true

abbrev keep : ℕ → Bool
keep p = false

abbrev only_five : ℕ → Bool
only_five p = p == 5

-- Worker 1 of 2 enters, and the epoch advances.
abbrev entered : System
entered = record {
  manager = enter_publish (enter_mark_active (new_epoch_manager 2) 1) 1 0;
  phase = set_phase (set_phase (set_phase (λ _. outside) 1 marked) 1 (loaded 0)) 1 inside;
}

abbrev advanced : System
advanced = record entered { manager = periodically_advance_global_epoch entered.manager }

entered-Reach : Reach (start 2) entered
unfolding enter_publish enter_mark_active
entered-Reach = next (next (next here (mark 1 refl)) (load 1 refl)) (publish 1 0 refl)

-- One slab of 24-byte blocks with a single live block, at the address 4096.
abbrev slabs : RecordCacheSlabAllocator
slabs = record {
  classes = λ c. record {
    free_list = 4120 ∷ [];
    block_size = 24;
    slab_count = 1;
    drain_target_idx = none;
  };
  base_ptr = 4096;
  current_ptr = 2101248;
  end_ptr = 2101248;
  total_capacity = 2097152;
  bytes_in_use = 24;
  max_slab_count = 1;
  slab_metadata =
      λ i. record { live_count = 1; block_size = 24; total_blocks = 2; is_drain_target = false };
  free_slab_pool = [];
  reclaimed_slab_total = 0;
  sunk_to_tail_total = 0;
  drain_target_switch_total = 0;
  rescue_attempted_total = 0;
  rescue_succeeded_total = 0;
}

abbrev visible : ℕ → ℕ → Bool
visible worker_id tx_ts = true

abbrev key : List ℕ
key = 1 ∷ []

-- A placeholder at 9 before a read-only entry at 8.
abbrev cache : RecordCache
cache = record {
  entries = λ p. record {
    entry_type = if p == 9 then promote_thread_holding_the_position else read_only_mode;
    update_during_promote = false;
    last_modified_worker_id = 0;
    tx_ts = 0;
    key = key;
    value = 5 ∷ [];
  };
  hash_map = λ k. if same_key k key then 9 ∷ 8 ∷ [] else [];
  epoch_manager = new_epoch_manager 2;
  invalidation_queue = [];
  sieve_fifo_queue = fifo;
  active_entry_count = 2;
  pending_state_invalidated_from_hash = 0;
  update_skip_placeholder = 0;
  update_found_readonly_next = 0;
  update_no_updatable_readonly = 0;
}

-- The chain of the one key, and no other.
chain_at : (k : List ℕ) (p : ℕ) → 0 < occurs p (cache.hash_map k) → (k ≡ key) × ((p ≡ 9) ⊎ (p ≡ 8))
unfolding occurs
chain_at k p there = elim (Bool-cases (same_key k key)) [
  | inr other ↦ absurd (omega (arith, rw other at there))
  | inl same ↦ (
    same_key-eq k key same,
    elim (Bool-cases (9 == p)) [
      | inl nine ↦ inl (sym (==→eq 9 p nine))
      | inr less ↦ elim (Bool-cases (8 == p)) [
        | inl eight ↦ inr (sym (==→eq 8 p eight))
        | inr none_of ↦ absurd (omega (arith, rw (same, less, none_of) at there))
      ]
    ],
  )
]

cache-Chained : Chained cache
unfolding occurs
cache-Chained = record {
  once = λ k p. elim (Bool-cases (same_key k key)) [
    | inr other ↦ rw other (omega arith)
    | inl same ↦ elim (Bool-cases (9 == p)) [
      | inl nine ↦ rw (same, sym (==→eq 9 p nine)) (omega arith)
      | inr less ↦ elim (Bool-cases (8 == p)) [
        | inl eight ↦ rw (same, less, eight) (omega arith)
        | inr none_of ↦ rw (same, less, none_of) (omega arith)
      ]
    ]
  ];
  own = λ k p there. (chain_at k p there).0;
  linked = λ k p there. elim (chain_at k p there).1 [
    | inl nine ↦ rw nine refl
    | inr eight ↦ rw eight refl
  ];
}

abbrev items : List InvalidationEntry
items = record { entry_pointer = 8; update_epoch = 3 } ∷ []

abbrev request : PromoteRequestMessage
request = record {
  key = 7 ∷ [];
  bf = 0;
  pid = 1;
  slot_id = 2;
  key_length = 1;
  value_length = 8;
  is_urgent = false;
  is_direct_update = false;
}

abbrev queue : PromoteQueue
queue = record {
  promote_request_message_queue = request ∷ [];
  inflight_promote_keys = (7 ∷ []) ∷ [];
  promote_enqueue_skipped_queue_full = 0;
  promote_enqueue_skipped_inflight = 0;
  direct_update_skipped_queue_full = 0;
  direct_update_skipped_inflight = 0;
  direct_update_enqueued = 0;
}

queue-IsValid : InFlight.IsValid queue
unfolding queued has_key
queue-IsValid = (
  omega arith,
  λ k. elim (Bool-cases (same_key (7 ∷ []) k)) [
    | inl e ↦ rw e (omega arith)
    | inr e ↦ rw e (omega arith)
  ],
)

evict-keeps_example :
    let (r, t) = evict_one_from_sieve_fifo (some accept) (some keep) fifo in
    (copies 5 t.sieve_fifo_queue + returned 5 r ≡ copies 5 fifo.sieve_fifo_queue)
    × HandInQueue t
    × ((v : ℕ) → r ≡ some v → (refused (some accept) v ≡ false) × (t.visited v ≡ false))
evict-keeps_example = evict-keeps (some accept) (some keep) 5 fifo (inl (omega arith))

evict-IsFound_example :
    (v : ℕ) × ((evict_one_from_sieve_fifo (some accept) (some keep) fifo).0 ≡ some v)
evict-IsFound_example =
    evict-IsFound (some accept) (some keep) fifo (tt, (refl, (refl, tt))) (omega arith)

drain_lem_example :
    let (victims, t) = drain_state_removed_only types 1 fifo in
    (victims ≡ take 1 (removed_of types fifo.sieve_fifo_queue))
    × (copies 5 t.sieve_fifo_queue + among 5 victims ≡ copies 5 fifo.sieve_fifo_queue)
    × (t.visited ≡ fifo.visited)
    × HandInQueue t
drain_lem_example = drain_lem types 1 5 fifo (inl (omega arith))

evict-mark_example :
    let (r, t) =
      evict_one_from_sieve_fifo (some accept) (some keep) (mark_slab_entries_as_null 6 8 fifo) in
    (6 ≤ 7 → 7 < 8 → (copies 7 t.sieve_fifo_queue ≡ 0) × (returned 7 r ≡ 0))
    × ((7 < 6) ⊎ (8 ≤ 7)
        → copies 7 t.sieve_fifo_queue + returned 7 r ≡ copies 7 fifo.sieve_fifo_queue)
evict-mark_example = evict-mark (some accept) (some keep) 6 8 7 fifo (inl (omega arith))

is_safe-refused_example : is_safe_to_invalidate advanced.manager 0 ≡ false
unfolding enter_publish enter_mark_active
is_safe-refused_example =
    is_safe-refused 2 1 0 {s = entered} {t = advanced} entered-Reach (omega arith) tt (omega arith)
      (next entered-Reach (advance (omega arith)))
      (next here (advance (omega arith)) (λ e. ground arith))

is_safe_iff_example : (is_safe_to_invalidate (new_epoch_manager 2) 3 ≡ true) ↔ (
    (j : ℕ)
    → j < (new_epoch_manager 2).total_workers_number
    → Passed ((new_epoch_manager 2).worker_threads_epochs j) 3)
is_safe_iff_example = is_safe_iff (new_epoch_manager 2) 3

get_class_index_lem_example :
    let block_size = min_block_size + get_class_index 25 * block_step in
    (get_class_index 25 < num_classes)
    × (align_up 25 ≡ block_size)
    × (25 ≤ block_size)
    × (min_block_size ≤ 25 → block_size < 25 + block_step)
get_class_index_lem_example = get_class_index_lem 25 (omega arith)

do_deallocate-Balanced_example : Balanced (do_deallocate slabs 4096 24) (get_class_index 24) 0
unfolding count_on
do_deallocate-Balanced_example =
    do_deallocate-Balanced slabs 4096 24 0 (λ e. ground arith) (omega arith) (omega arith)
      (omega arith) (omega arith) (omega arith, tt) (omega arith)

lookup-update_example :
    (try_lookup_in_record_cache visible
      (try_update_and_invalidate_record_cache cache key 0).1
      key
      1).0
    ≡ none
unfolding count_read_only same_key
lookup-update_example = lookup-update visible cache key 0 1 (refl, omega arith)

forward_items_lem_example :
    let r = forward_items cache items in
    Chained r.1
    × All (Settled cache.epoch_manager r.0 r.1) items
    × ((k : List ℕ) (q : ℕ)
        → All (λ item. q ≢ item.entry_pointer) items
        → occurs q (r.1.hash_map k) ≡ occurs q (cache.hash_map k))
forward_items_lem_example = forward_items_lem cache items cache-Chained

forward_items-entry_example : (forward_items cache items).1.entries 9 ≡ cache.entries 9
forward_items-entry_example = forward_items-entry cache items 9 ((λ e. absurd (omega arith)), tt)

signal_promote_thread-IsValid_example :
    InFlight.IsValid (signal_promote_thread false queue 2 (9 ∷ []) 0 1 2 8 false).1
signal_promote_thread-IsValid_example =
    signal_promote_thread-IsValid false queue 2 (9 ∷ []) 0 1 2 8 false queue-IsValid

signal_direct_update_promote-IsValid_example :
    InFlight.IsValid (signal_direct_update_promote false queue 2 (9 ∷ []) 0 1 2 8).1
signal_direct_update_promote-IsValid_example =
    signal_direct_update_promote-IsValid false queue 2 (9 ∷ []) 0 1 2 8 queue-IsValid

-- A request is taken, another key is signalled meanwhile, and the first request ends.
abbrev promoting : Promoting
promoting = record { queue = queue; processed = [] }

abbrev taken : Promoting
taken = record {
  queue = record queue { promote_request_message_queue = [] };
  processed = request ∷ [];
}

abbrev signalled : Promoting
signalled = record taken {
  queue = (signal_promote_thread false taken.queue 2 (9 ∷ []) 0 1 2 8 false).1;
}

abbrev finished : Promoting
finished = record { queue = finish_request signalled.queue request; processed = [] }

promoting-IsExact : IsExact promoting
unfolding queued has_key
promoting-IsExact = record {
  bounded = omega arith;
  counted = λ k. elim (Bool-cases (same_key (7 ∷ []) k)) [
    | inl e ↦ rw e (omega arith)
    | inr e ↦ rw e (omega arith)
  ];
}

meanwhile : Calls false promoting finished
unfolding take_request
meanwhile =
    Lifecycle.next
      (Lifecycle.next (Lifecycle.next Lifecycle.here (Lifecycle.take request taken.queue refl))
        (Lifecycle.signal 2 (9 ∷ []) 0 1 2 8 false))
      (Lifecycle.finish [] [] request refl)

Calls-IsExact_example : IsExact finished
Calls-IsExact_example = Calls-IsExact false promoting-IsExact meanwhile

-- The read-only entry at 8 is the head of its chain.
abbrev evictor : Evictor
evictor = record {
  cache = record cache { hash_map = λ k. if same_key k key then 8 ∷ [] else [] };
  allocator = slabs;
  sieve_eviction_entries = 0;
}

head_at : (k : List ℕ) (p : ℕ) → 0 < occurs p (evictor.cache.hash_map k) → (k ≡ key) × (p ≡ 8)
unfolding occurs
head_at k p there = elim (Bool-cases (same_key k key)) [
  | inr other ↦ absurd (omega (arith, rw other at there))
  | inl same ↦ (
    same_key-eq k key same,
    elim (Bool-cases (8 == p)) [
      | inl eight ↦ sym (==→eq 8 p eight)
      | inr none_of ↦ absurd (omega (arith, rw (same, none_of) at there))
    ],
  )
]

evictor-Chained : Chained evictor.cache
unfolding occurs
evictor-Chained = record {
  once = λ k p. elim (Bool-cases (same_key k key)) [
    | inr other ↦ rw other (omega arith)
    | inl same ↦ elim (Bool-cases (8 == p)) [
      | inl eight ↦ rw (same, eight) (omega arith)
      | inr none_of ↦ rw (same, none_of) (omega arith)
    ]
  ];
  own = λ k p there. (head_at k p there).0;
  linked = λ k p there. rw ((head_at k p there).1) refl;
}

abbrev walk : Walk
walk = record { entries = cache.entries; collected = []; active_entry_count = 2 }

abbrev chain : List ℕ
chain = 9 ∷ 8 ∷ []

handle_victim_lem_example : Handled 32 evictor 8 (handle_victim 32 evictor 8)
handle_victim_lem_example = handle_victim_lem 32 evictor 8 evictor-Chained

rescue_chain_lem_example :
    let r = rescue_chain 8 9 walk chain in
    (Rescued 8 9 walk.entries 8
      → 0 < occurs 8 chain
      → (occurs 8 r.0 ≡ 0)
        × (occurs 8 r.1.collected ≡ suc (occurs 8 walk.collected))
        × ((r.1.entries 8).entry_type
            ≡ removed_from_hash_table_but_wait_for_physical_memory_deallocation))
    × ((Rescued 8 9 walk.entries 8 → occurs 8 chain ≡ 0)
        → (occurs 8 r.0 ≡ occurs 8 chain)
          × (occurs 8 r.1.collected ≡ occurs 8 walk.collected)
          × (r.1.entries 8 ≡ walk.entries 8))
unfolding occurs
rescue_chain_lem_example = rescue_chain_lem 8 9 8 walk chain (omega arith)

-- A cache without the key.
abbrev absent : RecordCache
absent = record cache { hash_map = λ k. [] }

phase_three-update_example :
    let u = (try_update_and_invalidate_record_cache (install absent 7 key 1) key 0).1 in
    let d = phase_three u 7 key 3 1 key in
    (is_removed (d.entries 7).entry_type ≡ true) × (d.hash_map key ≡ absent.hash_map key)
unfolding phase_one
phase_three-update_example =
    phase_three-update absent (install absent 7 key 1) 7 key 1 0 3 1 key refl
