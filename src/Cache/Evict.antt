-- ===== src/Cache/Evict.antt =====
-- SIEVE_eviction/SIEVEEvictionThread.cpp: what the eviction thread does with a victim. The type is
-- tested again under the shard's lock in the source; here the victim is handled in one step.
pub mod Victim
use re_mlcxl.Base.{
  ℕ, zero, suc, ◌+◌, ◌<◌, ◌≡◌, ◌≢◌, ◌⊎◌, refl, sym, ap, ◌∙◌, subst, inl, inr, Bool, true, false,
  List, [], ◌∷◌, ◌++◌, none, some, if◌then◌else◌, ◌==◌, Bool-cases, ==-refl, ==→eq, not-==→ne, ltb,
  ltb→lt, not-ltb→le, sub64, length, arith,
}
use re_mlcxl.Cache.Entry.{
  removed_from_hash_table_but_wait_for_physical_memory_deallocation, is_read_only, is_removed,
}
use re_mlcxl.Cache.Sieve.{
  reinsert_into_sieve_fifo, evict_one_from_sieve_fifo, thread_try_mark_evictable,
}
use re_mlcxl.Cache.Slab.{RecordCacheSlabAllocator, do_deallocate, is_slab_under_utilized}
use re_mlcxl.Cache.Table.{RecordCacheEntry, RecordCache, set_chain, set_type}

pub record Evictor : Type 0 where
  pub cache : RecordCache
  pub allocator : RecordCacheSlabAllocator
  pub sieve_eviction_entries : ℕ

-- `totalSizeForRecordCacheEntry`, for the compiler's `sizeof(RecordCacheEntry)`.
abbrev pub total_size : ℕ → RecordCacheEntry → ℕ
total_size size_of_entry e = size_of_entry + length e.key + length e.value

-- The deallocation of a victim, with the counters of both cases.
abbrev pub free_victim : ℕ → Evictor → ℕ → Evictor
unfolding do_deallocate
free_victim size_of_entry s victim = record {
  cache = record s.cache { active_entry_count = sub64 s.cache.active_entry_count 1 };
  allocator = do_deallocate s.allocator victim (total_size size_of_entry (s.cache.entries victim));
  sieve_eviction_entries = s.sieve_eviction_entries + 1;
}

-- `handle_state100_victim`.
unfoldable pub handle_state100_victim : ℕ → Evictor → ℕ → Evictor
unfolding do_deallocate
handle_state100_victim size_of_entry s victim =
    let freed = free_victim size_of_entry s victim in
    record freed {
      cache = record freed.cache {
        pending_state_invalidated_from_hash =
            sub64 freed.cache.pending_state_invalidated_from_hash 1;
      };
    }

abbrev pub reinsert : Evictor → ℕ → Evictor
unfolding reinsert_into_sieve_fifo
reinsert s victim = record s {
  cache = record s.cache {
    sieve_fifo_queue = reinsert_into_sieve_fifo s.cache.sieve_fifo_queue (some victim);
  };
}

-- Case B: the victim is freed when it is the head of its chain.
unfoldable pub handle_read_only_victim : ℕ → Evictor → ℕ → Evictor
unfolding do_deallocate reinsert_into_sieve_fifo
handle_read_only_victim size_of_entry s victim =
    let key = (s.cache.entries victim).key in
    elim (s.cache.hash_map key) [
      | [] ↦ reinsert s victim
      | head ∷ next ↦
          if head == victim
          then free_victim size_of_entry
              (record s {
                cache =
                    set_type (record s.cache { hash_map = set_chain s.cache.hash_map key next })
                      victim removed_from_hash_table_but_wait_for_physical_memory_deallocation;
              })
              victim
          else reinsert s victim
    ]

-- The three cases of the thread's loop.
unfoldable pub handle_victim : ℕ → Evictor → ℕ → Evictor
unfolding handle_state100_victim handle_read_only_victim reinsert_into_sieve_fifo
handle_victim size_of_entry s victim =
    let entry_type = (s.cache.entries victim).entry_type in
    if is_removed entry_type
    then handle_state100_victim size_of_entry s victim
    else if is_read_only entry_type
    then handle_read_only_victim size_of_entry s victim
    else reinsert s victim

-- The loop over a batch; `none` from the queue ends it, and the result tells whether it did.
unfoldable pub evict_batch : ℕ → ℕ → Evictor → Bool × Evictor
unfolding handle_victim evict_one_from_sieve_fifo is_slab_under_utilized
evict_batch size_of_entry zero s = (false, s)
evict_batch size_of_entry (suc rounds) s =
    let found =
      evict_one_from_sieve_fifo
        (some (thread_try_mark_evictable (λ p. (s.cache.entries p).entry_type)))
        (some (is_slab_under_utilized s.allocator)) s.cache.sieve_fifo_queue in
    let left = record s { cache = record s.cache { sieve_fifo_queue = found.1 } } in
    elim found.0 [
      | none ↦ (true, left)
      | some victim ↦ evict_batch size_of_entry rounds (handle_victim size_of_entry left victim)
    ]
