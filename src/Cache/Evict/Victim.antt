-- ===== src/Cache/Evict/Victim.antt =====
-- What the eviction thread's handling of a victim does to the victim, to the chains and to the queue.
use re_mlcxl.Base.{
  ℕ, suc, ◌+◌, ◌<◌, ◌≡◌, ◌≢◌, ◌⊎◌, refl, sym, ap, ◌∙◌, subst, inl, inr, Bool, true, false, List, [],
  ◌∷◌, ◌++◌, some, if◌then◌else◌, ◌==◌, Bool-cases, ==-refl, ==→eq, not-==→ne, ltb, ltb→lt,
  not-ltb→le, sub64, arith,
}
use re_mlcxl.Cache.Entry.{
  removed_from_hash_table_but_wait_for_physical_memory_deallocation, is_read_only, is_removed,
}
use re_mlcxl.Cache.Sieve.{reinsert_into_sieve_fifo}
use re_mlcxl.Cache.Slab.{do_deallocate}
use re_mlcxl.Cache.Table.{RecordCache}
use re_mlcxl.Cache.Table.Chains.{
  occurs, Chained, Unlinked, Without, take_out, chain_of, OnlyOut, take_out-OnlyOut,
}
use re_mlcxl.Cache.Evict.{
  Evictor, total_size, free_victim, handle_state100_victim, reinsert, handle_read_only_victim,
  handle_victim,
}

-- The victim was freed: its block went to the allocator, it has the type of removed entries, and it is
-- not queued again.
abbrev pub Freed : ℕ → Evictor → ℕ → Evictor → Type 0
Freed size_of_entry s victim t =
    (t.allocator
      ≡ do_deallocate s.allocator victim (total_size size_of_entry (s.cache.entries victim)))
    × (is_removed (t.cache.entries victim).entry_type ≡ true)
    × (t.sieve_eviction_entries ≡ s.sieve_eviction_entries + 1)
    × (t.cache.active_entry_count ≡ sub64 s.cache.active_entry_count 1)
    × (t.cache.sieve_fifo_queue ≡ s.cache.sieve_fifo_queue)

-- The victim was put back: nothing but the queue changed.
abbrev pub PutBack : Evictor → ℕ → Evictor → Type 0
PutBack s victim t =
    (t.allocator ≡ s.allocator)
    × (t.cache.entries ≡ s.cache.entries)
    × (t.cache.hash_map ≡ s.cache.hash_map)
    × (t.sieve_eviction_entries ≡ s.sieve_eviction_entries)
    × (t.cache.sieve_fifo_queue.sieve_fifo_queue
        ≡ s.cache.sieve_fifo_queue.sieve_fifo_queue ++ (some victim ∷ []))

chain_cases :
    (chain : List ℕ) → (chain ≡ []) ⊎ ((head : ℕ) × (next : List ℕ) × (chain ≡ head ∷ next))
chain_cases [] = inl refl
chain_cases (head ∷ next) = inr (head, next, refl)

-- The victim is the head of its key's chain.
abbrev pub IsHead : RecordCache → ℕ → Type 0
IsHead c p = (next : List ℕ) × (chain_of c p ≡ p ∷ next)

-- What becomes of a victim: it is freed when it is removed, or read-only and the head of its chain; and
-- it is put back otherwise.
abbrev pub Handled : ℕ → Evictor → ℕ → Evictor → Type 0
Handled size_of_entry s victim t =
    (Freed size_of_entry s victim t
      × ((is_removed (s.cache.entries victim).entry_type ≡ true)
          ⊎ ((is_read_only (s.cache.entries victim).entry_type ≡ true) × IsHead s.cache victim))
      × OnlyOut s.cache victim t.cache)
    ⊎ (PutBack s victim t
        × (is_removed (s.cache.entries victim).entry_type ≡ false)
        × (is_read_only (s.cache.entries victim).entry_type ≡ true → ¬ (IsHead s.cache victim))
        × Chained t.cache)

-- A removed entry stands in no chain.
removed-Unlinked :
    (c : RecordCache) (p : ℕ)
    → Chained c
    → is_removed (c.entries p).entry_type ≡ true
    → Unlinked c p
removed-Unlinked c p chained gone k = elim (Bool-cases (ltb 0 (occurs p (c.hash_map k)))) [
  | inl linked ↦
      let alive = chained.linked k p (ltb→lt 0 (occurs p (c.hash_map k)) linked) in
      absurd (ground (arith, gone, alive))
  | inr free ↦ let le = not-ltb→le 0 (occurs p (c.hash_map k)) free in omega (arith, le)
]

module _ (size_of_entry : ℕ) (s : Evictor) (victim : ℕ) (chained : Chained s.cache) where
  reinsert-Handled :
      is_removed (s.cache.entries victim).entry_type ≡ false
      → (is_read_only (s.cache.entries victim).entry_type ≡ true → ¬ (IsHead s.cache victim))
      → Handled size_of_entry s victim (reinsert s victim)
  unfolding reinsert_into_sieve_fifo
  reinsert-Handled there no_head = inr (
    (refl, refl, refl, refl, refl),
    there,
    no_head,
    record { once = chained.once; own = chained.own; linked = chained.linked },
  )

  state100-Handled :
      is_removed (s.cache.entries victim).entry_type ≡ true
      → Handled size_of_entry s victim (handle_state100_victim size_of_entry s victim)
  unfolding handle_state100_victim
  state100-Handled gone = inl (
    (refl, gone, refl, refl, refl),
    inl gone,
    (
      record { once = chained.once; own = chained.own; linked = chained.linked },
      removed-Unlinked s.cache victim chained gone,
      λ k q ne. refl,
    ),
  )

  -- The victim at the head of its chain is taken out of the chain and then freed.
  head-Handled :
      (next : List ℕ)
      → is_read_only (s.cache.entries victim).entry_type ≡ true
      → chain_of s.cache victim ≡ victim ∷ next
      → Handled size_of_entry s victim
          (free_victim size_of_entry (record s { cache = take_out s.cache victim next }) victim)
  unfolding occurs free_victim do_deallocate
  head-Handled next read_only first =
      let (well, out, others) = take_out-OnlyOut s.cache victim next chained without there in
      inl (
        freed,
        inr (read_only, (next, first)),
        (record { once = well.once; own = well.own; linked = well.linked }, out, others),
      )
    where
      head :
          (q : ℕ) (b : Bool)
          → (if b then suc (occurs q next) else occurs q next)
            ≡ occurs q next + (if b then 1 else 0)
      head q true = omega arith
      head q false = omega arith

      without : Without victim (chain_of s.cache victim) next
      without q = ap (occurs q) first ∙ head q (victim == q)

      there : 0 < occurs victim (chain_of s.cache victim)
      there =
          let one =
            without victim ∙ ap (λ b. occurs victim next + (if b then 1 else 0)) (==-refl victim) in
          omega (arith, one)

      marked : (take_out s.cache victim next).entries victim ≡ record (s.cache.entries victim) {
        entry_type = removed_from_hash_table_but_wait_for_physical_memory_deallocation;
      }
      marked = rw (==-refl victim) refl

      freed :
          Freed size_of_entry s victim
            (free_victim size_of_entry (record s { cache = take_out s.cache victim next }) victim)
      freed = (
        ap (λ e. do_deallocate s.allocator victim (total_size size_of_entry e)) marked,
        ap (λ e. is_removed e.entry_type) marked,
        refl,
        refl,
        refl,
      )

  handle_read_only_victim-Handled :
      is_removed (s.cache.entries victim).entry_type ≡ false
      → is_read_only (s.cache.entries victim).entry_type ≡ true
      → Handled size_of_entry s victim (handle_read_only_victim size_of_entry s victim)
  unfolding handle_read_only_victim
  handle_read_only_victim-Handled there read_only = elim (chain_cases (chain_of s.cache victim)) [
    | inl empty ↦
        subst (Handled size_of_entry s victim) (sym (rw (empty, handle_read_only_victim) refl))
          (reinsert-Handled there (λ r h. nil_ne victim h.0 (sym empty ∙ h.1)))
    | inr (first, next, linked) ↦ elim (Bool-cases (first == victim)) [
      | inl own ↦
          subst (Handled size_of_entry s victim)
            (sym (rw (linked, own, handle_read_only_victim) refl))
            (head-Handled next read_only (linked ∙ ap (λ p. p ∷ next) (==→eq first victim own)))
      | inr other ↦
          subst (Handled size_of_entry s victim)
            (sym (rw (linked, other, handle_read_only_victim) refl))
            (reinsert-Handled there
              (λ r h. not-==→ne first victim other (head_eq (sym linked ∙ h.1))))
    ]
  ]
    where
      nil_ne : (p : ℕ) (next : List ℕ) → [] ≢ p ∷ next
      nil_ne p next e = cc e

      head_eq : {p q : ℕ} {ps qs : List ℕ} → p ∷ ps ≡ q ∷ qs → p ≡ q
      head_eq e = cc e

-- The eviction thread handles a victim of a cache with well-formed chains in one of two ways, and the
-- chains stay well-formed. A victim that is removed, or that is read-only and the head of its chain, is
-- freed: its block is deallocated, it has the type of removed entries, stands in no chain, is counted as
-- evicted and is not queued again, and the other entries stand in the chains as before. Any other
-- victim is put back at the tail of the queue, and the entries, the chains, the allocator and the count
-- of evictions stay as they are.
pub handle_victim_lem :
    (size_of_entry : ℕ) (s : Evictor) (victim : ℕ)
    → Chained s.cache
    → Handled size_of_entry s victim (handle_victim size_of_entry s victim)
unfolding handle_victim
handle_victim_lem size_of_entry s victim chained =
    elim (Bool-cases (is_removed (s.cache.entries victim).entry_type)) [
      | inl gone ↦
          subst (Handled size_of_entry s victim) (sym (rw (gone, handle_victim) refl))
            (state100-Handled size_of_entry s victim chained gone)
      | inr there ↦ elim (Bool-cases (is_read_only (s.cache.entries victim).entry_type)) [
        | inl read_only ↦
            subst (Handled size_of_entry s victim) (sym (rw (there, read_only, handle_victim) refl))
              (handle_read_only_victim-Handled size_of_entry s victim chained there read_only)
        | inr other ↦
            subst (Handled size_of_entry s victim) (sym (rw (there, other, handle_victim) refl)) (
              reinsert-Handled size_of_entry s victim chained there
                (λ r h. ground (arith, r, other)))
      ]
    ]
