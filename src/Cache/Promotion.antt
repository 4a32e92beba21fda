-- ===== src/Cache/Promotion.antt =====
-- Promote/PromoteThread.cpp, `processOnPromotionRequest`: the two parts that hold the shard's lock, each
-- one step, and the drop of an entry. The allocation before them and the optimistic read of the page
-- between them are not modelled; what the read yields is an argument.
use re_mlcxl.Base.{
  ℕ, ◌+◌, ◌%◌, replicate, ◌≡◌, ◌⊎◌, refl, ap, sym, ◌∙◌, subst, inl, inr, Bool, true, false, ◌||◌,
  List, [], ◌∷◌, Option, none, some, if◌then◌else◌, ◌==◌, Bool-cases, ==-refl, add64,
}
use re_mlcxl.Cache.Entry.{
  read_only_mode, removed_from_hash_table_but_wait_for_physical_memory_deallocation,
  promote_thread_holding_the_position, is_read_only, is_logically_deleted, is_removed,
  is_placeholder,
}
use re_mlcxl.Cache.Sieve.{insert_into_sieve_fifo}
use re_mlcxl.Cache.Slab.{update_at}
use re_mlcxl.Cache.Table.{
  RecordCacheEntry, RecordCache, set_chain, set_type, unlink,
  try_update_and_invalidate_record_cache, check_second,
}
use re_mlcxl.Cache.Table.Promote.InFlight.{same_key_refl}
use re_mlcxl.Cache.Table.Update.{
  after_update, after_lookup, dirty_at, update-entries, after_update-held,
}

-- `allocate_new_entry`: the placeholder at the new block. The bytes of the value are not written yet and
-- read as zero here; their number is the request's `value_length` as a
-- 16-bit integer. The key is one of fewer than 2^16 bytes, whose length the source does not cut.
abbrev pub allocate_new_entry : List ℕ → ℕ → RecordCacheEntry
allocate_new_entry key value_length = record {
  entry_type = promote_thread_holding_the_position;
  update_during_promote = false;
  last_modified_worker_id = 0;
  tx_ts = 0;
  key = key;
  value = replicate (value_length % 65536) 0;
}

-- Phase 1 may install the placeholder: the key is not there, or its head is dead.
abbrev pub may_install : (ℕ → RecordCacheEntry) → List ℕ → Bool
may_install entries [] = true
may_install entries (existing_head ∷ _) =
    is_logically_deleted (entries existing_head).entry_type
    || is_removed (entries existing_head).entry_type

-- The placeholder as the new head, counted and queued.
unfoldable pub install : RecordCache → ℕ → List ℕ → ℕ → RecordCache
unfolding insert_into_sieve_fifo
install c new_entry key value_length = record c {
  entries = update_at c.entries new_entry (λ _. allocate_new_entry key value_length);
  hash_map = set_chain c.hash_map key (new_entry ∷ c.hash_map key);
  active_entry_count = add64 c.active_entry_count 1;
  sieve_fifo_queue = insert_into_sieve_fifo c.sieve_fifo_queue (some new_entry);
}

-- Phase 1; `none` when the head is still live.
unfoldable pub phase_one : RecordCache → ℕ → List ℕ → ℕ → Option RecordCache
unfolding install
phase_one c new_entry key value_length =
    if may_install c.entries (c.hash_map key)
    then some (install c new_entry key value_length)
    else none

abbrev unlinked_or : Option (List ℕ) → List ℕ → List ℕ
unlinked_or none chain = chain
unlinked_or (some kept) chain = kept

-- The entry is unlinked, if it is linked, and left to the eviction thread.
unfoldable pub drop_new_entry : RecordCache → ℕ → List ℕ → RecordCache
unfolding unlink
drop_new_entry c new_entry key =
    let chain = c.hash_map key in
    record (set_type
      (record c {
        hash_map = set_chain c.hash_map key (unlinked_or (unlink new_entry chain) chain);
      })
      new_entry removed_from_hash_table_but_wait_for_physical_memory_deallocation) {
        pending_state_invalidated_from_hash = c.pending_state_invalidated_from_hash + 1;
      }

-- Phase 3, with what phase 2 read. An entry of another type is left as it is: for a removed one that is the
-- source's return, and for the rest the source has an assertion that fails, which is not modelled.
unfoldable pub phase_three : RecordCache → ℕ → List ℕ → ℕ → ℕ → List ℕ → RecordCache
unfolding drop_new_entry
phase_three c new_entry key local_tx_ts local_worker_id local_value =
    let current_type = (c.entries new_entry).entry_type in
    let published = record c {
      entries = update_at c.entries new_entry (λ e. record e {
        value = local_value;
        tx_ts = local_tx_ts;
        last_modified_worker_id = local_worker_id;
        entry_type = read_only_mode;
      });
    } in
    if is_placeholder current_type
    then (if (c.entries new_entry).update_during_promote
        then drop_new_entry c new_entry key
        else published)
    else if is_logically_deleted current_type
    then drop_new_entry c new_entry key
    else c

drop_new_entry-IsRemoved :
    (c : RecordCache) (p : ℕ) (key : List ℕ)
    → is_removed ((drop_new_entry c p key).entries p).entry_type ≡ true
unfolding drop_new_entry
drop_new_entry-IsRemoved c p key = rw (==-refl p) refl

-- An entry that Phase 3 does not publish: a marked placeholder, or one that was deleted.
abbrev Stale : RecordCacheEntry → Type 0
Stale e =
    ((is_placeholder e.entry_type ≡ true) × (e.update_during_promote ≡ true))
    ⊎ ((is_placeholder e.entry_type ≡ false) × (is_logically_deleted e.entry_type ≡ true))

phase_three-Stale :
    (c : RecordCache) (p : ℕ) (key : List ℕ) (tx worker : ℕ) (value : List ℕ)
    → Stale (c.entries p)
    → phase_three c p key tx worker value ≡ drop_new_entry c p key
unfolding phase_three
phase_three-Stale c p key tx worker value (inl (held, dirty)) = rw (held, dirty, phase_three) refl
phase_three-Stale c p key tx worker value (inr (other, deleted)) =
    rw (other, deleted, phase_three) refl

second_Stale :
    (entries : ℕ → RecordCacheEntry) (p : ℕ) (next : List ℕ)
    → is_placeholder (entries p).entry_type ≡ true
    → Stale (after_lookup (check_second (dirty_at entries p) next true, dirty_at entries p) p)
second_Stale entries p [] held = inl (rw (==-refl p) (held, refl))
second_Stale entries p (q ∷ rest) held =
    elim (Bool-cases (is_read_only (dirty_at entries p q).entry_type)) [
      | inr other ↦ rw other (inl (rw (==-refl p) (held, refl)))
      | inl found ↦ elim (Bool-cases (p == q)) [
        | inl same ↦ rw (found, same) (inr (refl, refl))
        | inr differ ↦ rw (found, differ) (inl (rw (==-refl p) (held, refl)))
      ]
    ]

phase_one-install :
    (c i : RecordCache) (p : ℕ) (key : List ℕ) (value_length : ℕ)
    → phase_one c p key value_length ≡ some i
    → install c p key value_length ≡ i
unfolding phase_one
phase_one-install c i p key value_length h =
    elim (Bool-cases (may_install c.entries (c.hash_map key))) [
      | inl free ↦ some_eq (install c p key value_length) i (sym (rw (free, phase_one) refl) ∙ h)
      | inr live ↦ absurd (none_ne i (sym (rw (live, phase_one) refl) ∙ h))
    ]
  where
    from_some : RecordCache → Option RecordCache → RecordCache
    from_some d none = d
    from_some d (some a) = a

    some_eq : (a b : RecordCache) → some a ≡ some b → a ≡ b
    some_eq a b e = ap (from_some a) e

    none_ne : (a : RecordCache) → none ≡ some a → ⊥
    none_ne a e = cc e

updated-Stale :
    (c : RecordCache) (p : ℕ) (key : List ℕ) (value_length worker : ℕ)
    → let u =
        (try_update_and_invalidate_record_cache (install c p key value_length) key worker).1 in
      Stale (u.entries p) × (u.hash_map key ≡ p ∷ c.hash_map key)
unfolding install
updated-Stale c p key value_length worker =
    let i = install c p key value_length in
    let same = update-entries i key worker in
    let linked : i.hash_map key ≡ p ∷ c.hash_map key = rw (same_key_refl key) refl in
    let held : is_placeholder (i.entries p).entry_type ≡ true = rw (==-refl p) refl in
    let other : is_read_only (i.entries p).entry_type ≡ false = rw (==-refl p) refl in
    let looked = after_update-held i.entries p (c.hash_map key) other held in
    (
      subst (λ f. Stale (f p)) (sym (same.0 ∙ ap (after_update i.entries) linked ∙ looked))
          (second_Stale i.entries p (c.hash_map key) held),
      ap (λ f. f key) same.1 ∙ linked,
    )

drop_new_entry-chain :
    (c : RecordCache) (p : ℕ) (key chain : List ℕ)
    → c.hash_map key ≡ p ∷ chain
    → (drop_new_entry c p key).hash_map key ≡ chain
unfolding drop_new_entry unlink
drop_new_entry-chain c p key chain linked =
    rw (same_key_refl key, linked, drop_new_entry, ==-refl p) refl

-- No promotion publishes a value that an update overtook: when the placeholder of a promotion is
-- installed and then, before Phase 3, the key is updated, Phase 3 leaves the new entry removed and the
-- key's chain as it was before the promotion, whatever Phase 2 read.
pub phase_three-update :
    (c i : RecordCache) (p : ℕ) (key : List ℕ) (value_length worker tx writer : ℕ) (value : List ℕ)
    → phase_one c p key value_length ≡ some i
    → let u = (try_update_and_invalidate_record_cache i key worker).1 in
      let d = phase_three u p key tx writer value in
      (is_removed (d.entries p).entry_type ≡ true) × (d.hash_map key ≡ c.hash_map key)
phase_three-update c i p key value_length worker tx writer value h =
    subst
      (λ (j : RecordCache).
        let u = (try_update_and_invalidate_record_cache j key worker).1 in
        let d = phase_three u p key tx writer value in
        (is_removed (d.entries p).entry_type ≡ true) × (d.hash_map key ≡ c.hash_map key))
      (phase_one-install c i p key value_length h) dropped
  where
    dropped :
        let u =
          (try_update_and_invalidate_record_cache (install c p key value_length) key worker).1 in
        let d = phase_three u p key tx writer value in
        (is_removed (d.entries p).entry_type ≡ true) × (d.hash_map key ≡ c.hash_map key)
    dropped =
        let u =
          (try_update_and_invalidate_record_cache (install c p key value_length) key worker).1 in
        let stale = updated-Stale c p key value_length worker in
        let e = phase_three-Stale u p key tx writer value stale.0 in
        rw e
          (drop_new_entry-IsRemoved u p key, drop_new_entry-chain u p key (c.hash_map key) stale.1)
