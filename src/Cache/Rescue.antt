-- ===== src/Cache/Rescue.antt =====
-- RecordCache.cpp: what `tryRescueSlabForAllocator` unlinks from a chain, and its wait. The walk over a
-- chain holds the lock of the shard, so it is one step; a failed `casType` leaves the type.
pub mod Chain
use re_mlcxl.Base.{
  ℕ, suc, ◌+◌, ◌≡◌, ◌≢◌, ◌≤◌, ◌<◌, ◌⊎◌, refl, sym, ap, ◌∙◌, subst, inl, inr, Bool, true, false,
  ◌&&◌, ◌||◌, List, [], ◌∷◌, if◌then◌else◌, leb, leb→le, ltb, ltb→lt, ◌==◌, Bool-cases, ==-refl,
  ==→eq, not-==→ne, arith, sub64,
}
use re_mlcxl.Cache.Entry.{
  RecordCacheType, read_only_mode, write_through_mode, write_back_mode,
  logically_deleted_but_still_in_hash_table,
  removed_from_hash_table_but_wait_for_physical_memory_deallocation,
  promote_thread_holding_the_position, is_read_only, is_logically_deleted,
}
use re_mlcxl.Cache.Slab.{update_at}
use re_mlcxl.Cache.Table.{RecordCacheEntry, InvalidationEntry}

-- The state of the walk: the entries, the collected ones and the count of active ones.
pub record Walk : Type 0 where
  pub entries : ℕ → RecordCacheEntry
  pub collected : List ℕ
  pub active_entry_count : ℕ

-- Whether the walk unlinks an entry: it is on the slab, and one of the two `casType` succeeds.
abbrev pub unlinks : ℕ → ℕ → (ℕ → RecordCacheEntry) → ℕ → Bool
unlinks slab_base slab_end entries cur =
    (leb slab_base cur && ltb cur slab_end)
    && (is_read_only (entries cur).entry_type || is_logically_deleted (entries cur).entry_type)

-- The walk over a chain: what stays linked, and the state behind it. The back of `collected` comes first.
unfoldable pub rescue_chain : ℕ → ℕ → Walk → List ℕ → List ℕ × Walk
rescue_chain slab_base slab_end w [] = ([], w)
rescue_chain slab_base slab_end w (cur ∷ next) =
    let unlinked = unlinks slab_base slab_end w.entries cur in
    let changed : Walk = record {
      entries = update_at w.entries cur (λ e. record e {
        entry_type = removed_from_hash_table_but_wait_for_physical_memory_deallocation;
      });
      collected = cur ∷ w.collected;
      active_entry_count = sub64 w.active_entry_count 1;
    } in
    let rest = rescue_chain slab_base slab_end (if unlinked then changed else w) next in
    (if unlinked then rest.0 else cur ∷ rest.0, rest.1)

-- The wait: `kMaxPoll` tests, each of the state that the other threads have reached by then.
unfoldable pub poll_safe : List Bool → Bool
poll_safe [] = false
poll_safe (is_safe ∷ later) = let rest = poll_safe later in if is_safe then true else rest

-- Behind the wait: the blocks to deallocate, and the items for the invalidation queue.
unfoldable pub after_wait : Bool → ℕ → List ℕ → List ℕ × List InvalidationEntry
after_wait true e_unlink collected = (collected, [])
after_wait false e_unlink [] = ([], [])
after_wait false e_unlink (entry ∷ collected) =
    let rest = after_wait false e_unlink collected in
    ([], record { entry_pointer = entry; update_epoch = e_unlink } ∷ rest.1)
