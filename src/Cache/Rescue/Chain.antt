-- ===== src/Cache/Rescue/Chain.antt =====
-- What the walk of `tryRescueSlabForAllocator` does to a chain and to its entries.
use re_mlcxl.Base.{
  ℕ, suc, ◌≡◌, ◌≢◌, ◌≤◌, ◌<◌, ◌⊎◌, refl, sym, ap, ◌∙◌, subst, inl, inr, Bool, true, false, ◌&&◌,
  ◌||◌, List, [], ◌∷◌, leb, leb→le, ltb, ltb→lt, ◌==◌, Bool-cases, ==-refl, ==→eq, not-==→ne, arith,
  sub64,
}
use re_mlcxl.Cache.Entry.{
  RecordCacheType, read_only_mode, write_through_mode, write_back_mode,
  logically_deleted_but_still_in_hash_table,
  removed_from_hash_table_but_wait_for_physical_memory_deallocation,
  promote_thread_holding_the_position, is_read_only, is_logically_deleted,
}
use re_mlcxl.Cache.Slab.{update_at}
use re_mlcxl.Cache.Table.{RecordCacheEntry}
use re_mlcxl.Cache.Table.Chains.{occurs}
use re_mlcxl.Cache.Rescue.{Walk, unlinks, rescue_chain}

-- The state behind an entry that is unlinked.
abbrev unlink_state : Walk → ℕ → Walk
unlink_state w cur = record {
  entries = update_at w.entries cur (λ e. record e {
    entry_type = removed_from_hash_table_but_wait_for_physical_memory_deallocation;
  });
  collected = cur ∷ w.collected;
  active_entry_count = sub64 w.active_entry_count 1;
}

-- The entries that the walk is for: those of the slab that are read-only or logically deleted.
abbrev pub Rescued : ℕ → ℕ → (ℕ → RecordCacheEntry) → ℕ → Type 0
Rescued slab_base slab_end entries p =
    (slab_base ≤ p)
    × (p < slab_end)
    × (((entries p).entry_type ≡ read_only_mode)
        ⊎ ((entries p).entry_type ≡ logically_deleted_but_still_in_hash_table))

module _ (slab_base slab_end p : ℕ) where
  abbrev on_slab : RecordCacheEntry → Bool
  on_slab e =
      (leb slab_base p && ltb p slab_end)
      && (is_read_only e.entry_type || is_logically_deleted e.entry_type)

  Rescued-unlinks :
      (entries : ℕ → RecordCacheEntry)
      → Rescued slab_base slab_end entries p
      → unlinks slab_base slab_end entries p ≡ true
  Rescued-unlinks entries (low, high, inl kind) = rw kind (ground (arith, low, high))
  Rescued-unlinks entries (low, high, inr kind) = rw kind (ground (arith, low, high))

  unlinks-Rescued :
      (entries : ℕ → RecordCacheEntry)
      → unlinks slab_base slab_end entries p ≡ true
      → Rescued slab_base slab_end entries p
  unlinks-Rescued entries h =
      let (bounds, kind) = both (leb slab_base p && ltb p slab_end) _ h in
      let (low, high) = both (leb slab_base p) (ltb p slab_end) bounds in
      (leb→le slab_base p low, ltb→lt p slab_end high, type_of (entries p).entry_type kind)
    where
      both : (a b : Bool) → (a && b) ≡ true → (a ≡ true) × (b ≡ true)
      both true true h = (refl, refl)
      both true false h = absurd (ground arith)
      both false b h = absurd (ground arith)

      type_of :
          (t : RecordCacheType)
          → (is_read_only t || is_logically_deleted t) ≡ true
          → (t ≡ read_only_mode) ⊎ (t ≡ logically_deleted_but_still_in_hash_table)
      type_of read_only_mode h = inl refl
      type_of logically_deleted_but_still_in_hash_table h = inr refl
      type_of write_through_mode h = absurd (ground arith)
      type_of write_back_mode h = absurd (ground arith)
      type_of removed_from_hash_table_but_wait_for_physical_memory_deallocation h =
          absurd (ground arith)
      type_of promote_thread_holding_the_position h = absurd (ground arith)

  -- The step at another entry leaves p as it is.
  unlink_state-other :
      (w : Walk) (cur : ℕ)
      → (cur == p) ≡ false
      → ((unlink_state w cur).entries p ≡ w.entries p)
        × (occurs p (unlink_state w cur).collected ≡ occurs p w.collected)
  unfolding occurs
  unlink_state-other w cur other =
      let swapped : (p == cur) ≡ false = ground (arith, not-==→ne cur p other) in
      (rw swapped refl, rw other refl)

  -- An entry that the walk does not meet, or is not for, stays as it is.
  rescue_chain-left :
      (w : Walk) (chain : List ℕ)
      → (unlinks slab_base slab_end w.entries p ≡ true → occurs p chain ≡ 0)
      → let r = rescue_chain slab_base slab_end w chain in
        (occurs p r.0 ≡ occurs p chain)
        × (occurs p r.1.collected ≡ occurs p w.collected)
        × (r.1.entries p ≡ w.entries p)
  unfolding rescue_chain occurs
  rescue_chain-left w [] h = (refl, refl, refl)
  rescue_chain-left w (cur ∷ next) h = elim (Bool-cases (cur == p)) [
    | inl here ↦ elim (Bool-cases (unlinks slab_base slab_end w.entries p)) [
      | inl taken ↦ absurd (suc_ne (occurs p next) (rw here at h taken))
      | inr left ↦
          let at_cur =
            subst (λ q. unlinks slab_base slab_end w.entries q ≡ false) (sym (==→eq cur p here))
              left in
          let ih = rescue_chain-left w next (λ taken. absurd (no_both left taken)) in
          rw (at_cur, rescue_chain, here) (ap suc ih.0, ih.1, ih.2)
    ]
    | inr other ↦
        let rest = rw other at h in
        elim (Bool-cases (unlinks slab_base slab_end w.entries cur)) [
          | inl taken ↦
              let same = unlink_state-other w cur other in
              let ih =
                rescue_chain-left (unlink_state w cur) next
                  (subst (λ e. on_slab e ≡ true → occurs p next ≡ 0) (sym same.0) rest) in
              rw (taken, rescue_chain, other) (ih.0, ih.1 ∙ same.1, ih.2 ∙ same.0)
          | inr left ↦
              let ih = rescue_chain-left w next rest in
              rw (left, rescue_chain, other) (ih.0, ih.1, ih.2)
        ]
  ]
    where
      suc_ne : (n : ℕ) → suc n ≢ 0
      suc_ne n e = omega (arith, e)

      no_both : {b : Bool} → b ≡ false → b ≡ true → ⊥
      no_both left taken = ground (arith, left, taken)

  -- An entry that the walk is for and meets once is taken out.
  rescue_chain-taken :
      (w : Walk) (chain : List ℕ)
      → unlinks slab_base slab_end w.entries p ≡ true
      → occurs p chain ≡ 1
      → let r = rescue_chain slab_base slab_end w chain in
        (occurs p r.0 ≡ 0)
        × (occurs p r.1.collected ≡ suc (occurs p w.collected))
        × ((r.1.entries p).entry_type
            ≡ removed_from_hash_table_but_wait_for_physical_memory_deallocation)
  unfolding rescue_chain occurs
  rescue_chain-taken w [] h once = absurd (omega (arith, once))
  rescue_chain-taken w (cur ∷ next) h once = elim (Bool-cases (cur == p)) [
    | inl here ↦
        let e = ==→eq cur p here in
        let at_cur = subst (λ q. unlinks slab_base slab_end w.entries q ≡ true) (sym e) h in
        let later : occurs p next ≡ 0 = omega (arith, rw here at once) in
        let (kept, collected, entry) =
          rescue_chain-left (unlink_state w cur) next (λ taken. later) in
        let marked : ((unlink_state w cur).entries p).entry_type
            ≡ removed_from_hash_table_but_wait_for_physical_memory_deallocation =
          rw (e, ==-refl p) refl in
        let added : occurs p (unlink_state w cur).collected ≡ suc (occurs p w.collected) =
          rw here refl in
        rw (at_cur, rescue_chain)
          (kept ∙ later, collected ∙ added, ap (λ x. x.entry_type) entry ∙ marked)
    | inr other ↦
        let rest = rw other at once in
        elim (Bool-cases (unlinks slab_base slab_end w.entries cur)) [
          | inl taken ↦
              let same = unlink_state-other w cur other in
              let ih =
                rescue_chain-taken (unlink_state w cur) next
                  (subst (λ e. on_slab e ≡ true) (sym same.0) h) rest in
              rw (taken, rescue_chain) (ih.0, ih.1 ∙ ap suc same.1, ih.2)
          | inr left ↦
              let ih = rescue_chain-taken w next h rest in
              rw (left, rescue_chain, other) (ih.0, ih.1, ih.2)
        ]
  ]

  -- The walk of `tryRescueSlabForAllocator` over a chain, at an address that stands there at most once.
  -- When it stands there, lies on the slab, and is read-only or logically deleted, it is no longer in the
  -- chain, was collected once, and has the type of removed entries. In every other case it stands in
  -- the chain and in the collected list as often as before, and its entry is unchanged.
  pub rescue_chain_lem :
      (w : Walk) (chain : List ℕ)
      → occurs p chain ≤ 1
      → let r = rescue_chain slab_base slab_end w chain in
        (Rescued slab_base slab_end w.entries p
          → 0 < occurs p chain
          → (occurs p r.0 ≡ 0)
            × (occurs p r.1.collected ≡ suc (occurs p w.collected))
            × ((r.1.entries p).entry_type
                ≡ removed_from_hash_table_but_wait_for_physical_memory_deallocation))
        × ((Rescued slab_base slab_end w.entries p → occurs p chain ≡ 0)
            → (occurs p r.0 ≡ occurs p chain)
              × (occurs p r.1.collected ≡ occurs p w.collected)
              × (r.1.entries p ≡ w.entries p))
  rescue_chain_lem w chain once = (
    λ rescued there.
        rescue_chain-taken w chain (Rescued-unlinks w.entries rescued) (omega (arith, once, there)),
    λ spared. rescue_chain-left w chain (λ h. spared (unlinks-Rescued w.entries h)),
  )
