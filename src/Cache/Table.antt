-- ===== src/Cache/Table.antt =====
-- RecordCache.hpp and RecordCache.cpp: the hash table of per-key chains, and the requests of the
-- workers. A key is its bytes; the shards are one map, since a key's bytes determine its shard, and a
-- key that is missing has the empty chain. A chain is the list of its entries' addresses, the head
-- first. A request runs in one step, so the update's `casType` finds the type it has read.
pub mod Chains
pub mod Forward
pub mod Update
pub mod Promote
use re_mlcxl.Base.{
  ℕ, zero, suc, ◌+◌, ◌/◌, ◌%◌, Bool, true, false, ◌&&◌, List, [], ◌∷◌, ◌++◌, Option, none, some,
  length, add64, leb, ◌==◌, if◌then◌else◌,
}
use re_mlcxl.Cache.Entry.{
  RecordCacheType, read_only_mode, write_through_mode, write_back_mode,
  logically_deleted_but_still_in_hash_table,
  removed_from_hash_table_but_wait_for_physical_memory_deallocation,
  promote_thread_holding_the_position, is_read_only, is_removed, is_placeholder,
}
use re_mlcxl.Cache.Epoch.{
  EpochManager, worker_thread_enter_epoch, worker_thread_leave_epoch, get_global_epoch,
  is_safe_to_invalidate, periodically_advance_global_epoch,
}
use re_mlcxl.Cache.Sieve.{SieveFifoQueue, insert_into_sieve_fifo, on_sieve_fifo_access}
use re_mlcxl.Cache.Slab.{update_at}

-- `RecordCacheEntry`, with the key and the value of the payload apart, less `next` (the chain) and
-- `visited` (in the queue's state).
pub record RecordCacheEntry : Type 0 where
  pub entry_type : RecordCacheType
  pub update_during_promote : Bool
  pub last_modified_worker_id : ℕ
  pub tx_ts : ℕ
  pub key : List ℕ
  pub value : List ℕ

pub record InvalidationEntry : Type 0 where
  pub entry_pointer : ℕ
  pub update_epoch : ℕ

-- The hash table, the queues and the counters that the requests change.
pub record RecordCache : Type 0 where
  pub entries : ℕ → RecordCacheEntry
  pub hash_map : List ℕ → List ℕ
  pub epoch_manager : EpochManager
  pub invalidation_queue : List InvalidationEntry
  pub sieve_fifo_queue : SieveFifoQueue
  pub active_entry_count : ℕ
  pub pending_state_invalidated_from_hash : ℕ
  pub update_skip_placeholder : ℕ
  pub update_found_readonly_next : ℕ
  pub update_no_updatable_readonly : ℕ

unfoldable pub same_key : List ℕ → List ℕ → Bool
same_key [] [] = true
same_key [] (b ∷ bs) = false
same_key (a ∷ xs) [] = false
same_key (a ∷ xs) (b ∷ bs) = let rest = same_key xs bs in (a == b) && rest

abbrev pub set_chain : (List ℕ → List ℕ) → List ℕ → List ℕ → List ℕ → List ℕ
set_chain hash_map key chain = λ k. if same_key k key then chain else hash_map k

abbrev pub set_type : RecordCache → ℕ → RecordCacheType → RecordCache
set_type c p t = record c { entries = update_at c.entries p (λ e. record e { entry_type = t }) }

-- `BuildPrefixedKey` and `BuildPrefixedKeyOwning`: the two bytes of the table's id, the low one first.
unfoldable pub build_prefixed_key : Bool → ℕ → List ℕ → List ℕ
build_prefixed_key true dt_id key = key
build_prefixed_key false dt_id key = (dt_id % 256) ∷ (dt_id / 256) ∷ key

abbrev pub enter_epoch : RecordCache → ℕ → RecordCache
unfolding worker_thread_enter_epoch
enter_epoch c worker_id = record c {
  epoch_manager = worker_thread_enter_epoch c.epoch_manager worker_id;
}

abbrev pub leave_epoch : RecordCache → ℕ → RecordCache
unfolding worker_thread_leave_epoch
leave_epoch c worker_id = record c {
  epoch_manager = worker_thread_leave_epoch c.epoch_manager worker_id;
}

-- The walk of `tryLookupInRecordCache`; `is_visible_for_me` is `cr::Worker`'s.
unfoldable pub find_visible : (ℕ → ℕ → Bool) → (ℕ → RecordCacheEntry) → List ℕ → Option ℕ
find_visible is_visible_for_me entries [] = none
find_visible is_visible_for_me entries (p ∷ next) =
    let e = entries p in
    let rest = find_visible is_visible_for_me entries next in
    if is_read_only e.entry_type && is_visible_for_me e.last_modified_worker_id e.tx_ts
    then some p
    else rest

-- `tryLookupInRecordCache` on the prefixed key; the value is what the callback gets.
unfoldable pub try_lookup_in_record_cache :
    (ℕ → ℕ → Bool) → RecordCache → List ℕ → ℕ → Option (List ℕ) × RecordCache
unfolding find_visible on_sieve_fifo_access worker_thread_enter_epoch worker_thread_leave_epoch
try_lookup_in_record_cache is_visible_for_me c key worker_id =
    let entered = enter_epoch c worker_id in
    elim (find_visible is_visible_for_me entered.entries (entered.hash_map key)) [
      | none ↦ (none, leave_epoch entered worker_id)
      | some p ↦ (
        some (entered.entries p).value,
        leave_epoch
            (record entered {
              sieve_fifo_queue = on_sieve_fifo_access entered.sieve_fifo_queue (some p);
            })
            worker_id,
      )
    ]

pub record UpdatableLookupResult : Type 0 where
  pub target : Option ℕ
  pub skipped_placeholder : Bool
  pub found_readonly_next : Bool

-- The second layer of `FindFirstUpdatableEntry`.
abbrev pub check_second : (ℕ → RecordCacheEntry) → List ℕ → Bool → UpdatableLookupResult
check_second entries [] skipped = record {
  target = none;
  skipped_placeholder = skipped;
  found_readonly_next = false;
}
check_second entries (second ∷ _) skipped =
    if is_read_only (entries second).entry_type
    then record { target = some second; skipped_placeholder = skipped; found_readonly_next = true }
    else record { target = none; skipped_placeholder = skipped; found_readonly_next = false }

-- `FindFirstUpdatableEntry`, with the entries after it: a placeholder at the head is marked.
unfoldable pub find_first_updatable_entry :
    (ℕ → RecordCacheEntry) → List ℕ → UpdatableLookupResult × (ℕ → RecordCacheEntry)
find_first_updatable_entry entries [] =
    (record { target = none; skipped_placeholder = false; found_readonly_next = false }, entries)
find_first_updatable_entry entries (head ∷ next) =
    let t0 = (entries head).entry_type in
    let dirty = update_at entries head (λ e. record e { update_during_promote = true }) in
    if is_read_only t0
    then (
      record { target = some head; skipped_placeholder = false; found_readonly_next = false },
      entries,
    )
    else if is_placeholder t0
    then (check_second dirty next true, dirty)
    else (check_second entries next false, entries)

abbrev pub count_if : Bool → ℕ → ℕ
count_if b n = if b then n + 1 else n

-- `tryUpdateAndInvalidateRecordCache` on the prefixed key.
unfoldable pub try_update_and_invalidate_record_cache :
    RecordCache → List ℕ → ℕ → Bool × RecordCache
unfolding find_first_updatable_entry worker_thread_enter_epoch worker_thread_leave_epoch
try_update_and_invalidate_record_cache c key worker_id =
    let entered = enter_epoch c worker_id in
    let looked = find_first_updatable_entry entered.entries (entered.hash_map key) in
    let result = looked.0 in
    let counted = record entered {
      entries = looked.1;
      update_skip_placeholder = count_if result.skipped_placeholder entered.update_skip_placeholder;
      update_found_readonly_next =
          count_if result.found_readonly_next entered.update_found_readonly_next;
    } in
    elim result.target [
      | none ↦ (
        false,
        leave_epoch
            (record counted {
              update_no_updatable_readonly = counted.update_no_updatable_readonly + 1;
            })
            worker_id,
      )
      | some target ↦
          let deleted = set_type counted target logically_deleted_but_still_in_hash_table in
          (
            true,
            leave_epoch
                (record deleted {
                  invalidation_queue =
                      deleted.invalidation_queue
                      ++ (record {
                        entry_pointer = target;
                        update_epoch = get_global_epoch deleted.epoch_manager;
                      }
                          ∷ []);
                })
                worker_id,
          )
    ]

-- `GetFromRecordCache`: the head of the chain.
unfoldable pub get_from_record_cache : RecordCache → List ℕ → Option ℕ
get_from_record_cache c key = elim (c.hash_map key) [ [] ↦ none | head ∷ _ ↦ some head ]

-- `InsertOrAssignInRecordCache`.
unfoldable pub insert_or_assign_in_record_cache : RecordCache → List ℕ → ℕ → Bool × RecordCache
unfolding insert_into_sieve_fifo
insert_or_assign_in_record_cache c key entry = elim (c.hash_map key) [
  | [] ↦ (
    true,
    record c {
      hash_map = set_chain c.hash_map key (entry ∷ []);
      active_entry_count = add64 c.active_entry_count 1;
      sieve_fifo_queue = insert_into_sieve_fifo c.sieve_fifo_queue (some entry);
    },
  )
  | _ ∷ _ ↦ (false, c)
]

-- `EraseFromRecordCache`: the whole chain of the key.
unfoldable pub erase_from_record_cache : RecordCache → List ℕ → Bool × RecordCache
erase_from_record_cache c key = elim (c.hash_map key) [
  | [] ↦ (false, c)
  | _ ∷ _ ↦ (true, record c { hash_map = set_chain c.hash_map key [] })
]

-- The walk of `forwardEpochThread` to the entry: the chain without it, `none` when it is not there.
unfoldable pub unlink : ℕ → List ℕ → Option (List ℕ)
unlink entry [] = none
unlink entry (cur ∷ next) =
    let rest = unlink entry next in
    if cur == entry then some next else elim rest [ none ↦ none | some kept ↦ some (cur ∷ kept) ]

-- One item of `forwardEpochThread`, and whether it is tried again.
unfoldable pub forward_item : RecordCache → InvalidationEntry → Bool × RecordCache
unfolding unlink
forward_item c item =
    let entry = c.entries item.entry_pointer in
    if is_safe_to_invalidate c.epoch_manager item.update_epoch
    then elim (unlink item.entry_pointer (c.hash_map entry.key)) [
      | some chain ↦ (
        false,
        record (set_type (record c { hash_map = set_chain c.hash_map entry.key chain })
            item.entry_pointer removed_from_hash_table_but_wait_for_physical_memory_deallocation) {
              pending_state_invalidated_from_hash = c.pending_state_invalidated_from_hash + 1;
            },
      )
      | none ↦ (if is_removed entry.entry_type then false else true, c)
    ]
    else (true, c)

-- The loop over the retry queue.
unfoldable pub forward_items :
    RecordCache → List InvalidationEntry → List InvalidationEntry × RecordCache
unfolding forward_item
forward_items c [] = ([], c)
forward_items c (item ∷ rest) =
    let first = forward_item c item in
    let others = forward_items first.1 rest in
    (if first.0 then item ∷ others.0 else others.0, others.1)

-- One round of `forwardEpochThread` on its local retry queue.
unfoldable pub forward_round :
    RecordCache → List InvalidationEntry → List InvalidationEntry × RecordCache
unfolding forward_items periodically_advance_global_epoch
forward_round c local_invalidation_retry_queue =
    forward_items
      (record c {
        epoch_manager = periodically_advance_global_epoch c.epoch_manager;
        invalidation_queue = [];
      })
      (local_invalidation_retry_queue ++ c.invalidation_queue)
