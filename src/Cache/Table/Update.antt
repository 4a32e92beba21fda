-- ===== src/Cache/Table/Update.antt =====
-- A lookup after an update.
use re_mlcxl.Base.{
  ℕ, suc, ◌≤◌, ◌≡◌, refl, ap, sym, inl, inr, Bool, true, false, List, [], ◌∷◌, none, some,
  if◌then◌else◌, Bool-cases, Option-cases, ◌==◌, ==-refl, arith,
}
use re_mlcxl.Cache.Entry.{logically_deleted_but_still_in_hash_table, is_read_only, is_placeholder}
use re_mlcxl.Cache.Slab.{update_at}
use re_mlcxl.Cache.Table.{
  RecordCacheEntry, RecordCache, UpdatableLookupResult, check_second, find_visible,
  try_lookup_in_record_cache, find_first_updatable_entry, try_update_and_invalidate_record_cache,
}

-- The entries of a chain that a lookup could return.
unfoldable pub count_read_only : (ℕ → RecordCacheEntry) → List ℕ → ℕ
count_read_only entries [] = 0
count_read_only entries (p ∷ ps) =
    let rest = count_read_only entries ps in
    if is_read_only (entries p).entry_type then suc rest else rest

-- Where the promote thread keeps the one entry that can be returned: at the head, or behind one entry.
abbrev pub OneOnTop : (ℕ → RecordCacheEntry) → List ℕ → Type 0
OneOnTop entries [] = Unit {0}
OneOnTop entries (p ∷ []) = Unit {0}
OneOnTop entries (p ∷ q ∷ rest) =
    (count_read_only entries rest ≡ 0) × (count_read_only entries (p ∷ q ∷ []) ≤ 1)

find_visible-none :
    (visible : ℕ → ℕ → Bool) (entries : ℕ → RecordCacheEntry) (chain : List ℕ)
    → count_read_only entries chain ≡ 0
    → find_visible visible entries chain ≡ none
unfolding find_visible count_read_only
find_visible-none visible entries [] h = refl
find_visible-none visible entries (p ∷ ps) h =
    elim (Bool-cases (is_read_only (entries p).entry_type)) [
      | inl found ↦ absurd (ground (arith, h, found))
      | inr other ↦ rw other (find_visible-none visible entries ps (ground (arith, h, other)))
    ]

-- A write that makes no entry read-only.
count_read_only-update :
    (entries changed : ℕ → RecordCacheEntry) (chain : List ℕ)
    → ((p : ℕ)
        → is_read_only (entries p).entry_type ≡ false
        → is_read_only (changed p).entry_type ≡ false)
    → count_read_only entries chain ≡ 0
    → count_read_only changed chain ≡ 0
unfolding count_read_only
count_read_only-update entries changed [] keeps h = refl
count_read_only-update entries changed (p ∷ ps) keeps h =
    elim (Bool-cases (is_read_only (entries p).entry_type)) [
      | inl found ↦ absurd (ground (arith, h, found))
      | inr other ↦
          rw (keeps p other)
            (count_read_only-update entries changed ps keeps (ground (arith, h, other)))
    ]

abbrev Keeps : (ℕ → RecordCacheEntry) → (ℕ → RecordCacheEntry) → Type 0
Keeps entries changed =
    (p : ℕ)
    → is_read_only (entries p).entry_type ≡ false
    → is_read_only (changed p).entry_type ≡ false

abbrev pub delete_at : (ℕ → RecordCacheEntry) → ℕ → ℕ → RecordCacheEntry
delete_at entries k =
    update_at entries k (λ e. record e { entry_type = logically_deleted_but_still_in_hash_table })

abbrev pub dirty_at : (ℕ → RecordCacheEntry) → ℕ → ℕ → RecordCacheEntry
dirty_at entries k = update_at entries k (λ e. record e { update_during_promote = true })

delete_at-Keeps : (entries : ℕ → RecordCacheEntry) (k : ℕ) → Keeps entries (delete_at entries k)
delete_at-Keeps entries k p h = elim (Bool-cases (p == k)) [
  | inl here ↦ rw here refl
  | inr other ↦ rw other h
]

delete_at-gone :
    (entries : ℕ → RecordCacheEntry) (k : ℕ)
    → is_read_only (delete_at entries k k).entry_type ≡ false
delete_at-gone entries k = rw (==-refl k) refl

dirty_at-Keeps : (entries : ℕ → RecordCacheEntry) (k : ℕ) → Keeps entries (dirty_at entries k)
dirty_at-Keeps entries k p h = elim (Bool-cases (p == k)) [
  | inl here ↦ rw here h
  | inr other ↦ rw other h
]

dirty_at-same :
    (entries : ℕ → RecordCacheEntry) (k p : ℕ)
    → (dirty_at entries k p).entry_type ≡ (entries p).entry_type
dirty_at-same entries k p = elim (Bool-cases (p == k)) [
  | inl here ↦ rw here refl
  | inr other ↦ rw other refl
]

-- The entries after an update of a chain.
abbrev pub after_lookup : UpdatableLookupResult × (ℕ → RecordCacheEntry) → ℕ → RecordCacheEntry
after_lookup looked = elim looked.0.target [
  | none ↦ looked.1
  | some target ↦ delete_at looked.1 target
]

pub after_update : (ℕ → RecordCacheEntry) → List ℕ → ℕ → RecordCacheEntry
unfolding find_first_updatable_entry
after_update entries chain = after_lookup (find_first_updatable_entry entries chain)

after_update-head :
    (entries : ℕ → RecordCacheEntry) (p : ℕ) (next : List ℕ)
    → is_read_only (entries p).entry_type ≡ true
    → after_update entries (p ∷ next) ≡ delete_at entries p
unfolding after_update
after_update-head entries p next found = ap after_lookup (head found)
  where
    head :
        is_read_only (entries p).entry_type ≡ true
        → find_first_updatable_entry entries (p ∷ next) ≡ (
          record { target = some p; skipped_placeholder = false; found_readonly_next = false },
          entries,
        )
    head found = rw (found, find_first_updatable_entry) refl

pub after_update-held :
    (entries : ℕ → RecordCacheEntry) (p : ℕ) (next : List ℕ)
    → is_read_only (entries p).entry_type ≡ false
    → is_placeholder (entries p).entry_type ≡ true
    → after_update entries (p ∷ next)
      ≡ after_lookup (check_second (dirty_at entries p) next true, dirty_at entries p)
unfolding after_update
after_update-held entries p next other held = ap after_lookup (skip other held)
  where
    skip :
        is_read_only (entries p).entry_type ≡ false
        → is_placeholder (entries p).entry_type ≡ true
        → find_first_updatable_entry entries (p ∷ next)
          ≡ (check_second (dirty_at entries p) next true, dirty_at entries p)
    skip other held = rw (other, held, find_first_updatable_entry) refl

after_update-gone_head :
    (entries : ℕ → RecordCacheEntry) (p : ℕ) (next : List ℕ)
    → is_read_only (entries p).entry_type ≡ false
    → is_placeholder (entries p).entry_type ≡ false
    → after_update entries (p ∷ next) ≡ after_lookup (check_second entries next false, entries)
unfolding after_update
after_update-gone_head entries p next other gone = ap after_lookup (skip other gone)
  where
    skip :
        is_read_only (entries p).entry_type ≡ false
        → is_placeholder (entries p).entry_type ≡ false
        → find_first_updatable_entry entries (p ∷ next) ≡ (check_second entries next false, entries)
    skip other gone = rw (other, gone, find_first_updatable_entry) refl

after_update-one :
    (entries : ℕ → RecordCacheEntry) (p : ℕ)
    → count_read_only (after_update entries (p ∷ [])) (p ∷ []) ≡ 0
unfolding count_read_only
after_update-one entries p = elim (Bool-cases (is_read_only (entries p).entry_type)) [
  | inl found ↦ rw (after_update-head entries p [] found) (rw (delete_at-gone entries p) refl)
  | inr other ↦ elim (Bool-cases (is_placeholder (entries p).entry_type)) [
    | inl held ↦
        rw (after_update-held entries p [] other held) (rw (dirty_at-Keeps entries p p other) refl)
    | inr gone ↦ rw (after_update-gone_head entries p [] other gone) (rw other refl)
  ]
]

both_gone :
    (entries changed : ℕ → RecordCacheEntry) (p q : ℕ) (rest : List ℕ)
    → Keeps entries changed
    → is_read_only (changed p).entry_type ≡ false
    → is_read_only (changed q).entry_type ≡ false
    → count_read_only entries rest ≡ 0
    → count_read_only changed (p ∷ q ∷ rest) ≡ 0
unfolding count_read_only
both_gone entries changed p q rest keeps p_gone q_gone h =
    rw (p_gone, q_gone) (count_read_only-update entries changed rest keeps h)

second_other :
    (entries : ℕ → RecordCacheEntry) (p q : ℕ)
    → is_read_only (entries p).entry_type ≡ true
    → count_read_only entries (p ∷ q ∷ []) ≤ 1
    → is_read_only (entries q).entry_type ≡ false
unfolding count_read_only
second_other entries p q found le = elim (Bool-cases (is_read_only (entries q).entry_type)) [
  | inl second ↦ absurd (ground (arith, found, second, le))
  | inr other ↦ other
]

after_update-two :
    (entries : ℕ → RecordCacheEntry) (p q : ℕ) (rest : List ℕ)
    → OneOnTop entries (p ∷ q ∷ rest)
    → count_read_only (after_update entries (p ∷ q ∷ rest)) (p ∷ q ∷ rest) ≡ 0
after_update-two entries p q rest one = elim (Bool-cases (is_read_only (entries p).entry_type)) [
  | inl found ↦
      let q_other = second_other entries p q found one.1 in
      rw (after_update-head entries p (q ∷ rest) found) (
        both_gone entries (delete_at entries p) p q rest (delete_at-Keeps entries p)
          (delete_at-gone entries p) (delete_at-Keeps entries p q q_other) one.0)
  | inr other ↦ elim (Bool-cases (is_placeholder (entries p).entry_type)) [
    | inl held ↦
        let p_gone = dirty_at-Keeps entries p p other in
        elim (Bool-cases (is_read_only (dirty_at entries p q).entry_type)) [
          | inl second ↦
              rw (after_update-held entries p (q ∷ rest) other held, second)
                (both_gone entries (delete_at (dirty_at entries p) q) p q rest
                  (λ k h. delete_at-Keeps (dirty_at entries p) q k (dirty_at-Keeps entries p k h))
                  (delete_at-Keeps (dirty_at entries p) q p p_gone)
                  (delete_at-gone (dirty_at entries p) q) one.0)
          | inr neither ↦
              rw (after_update-held entries p (q ∷ rest) other held, neither)
                (both_gone entries (dirty_at entries p) p q rest (dirty_at-Keeps entries p) p_gone
                  neither one.0)
        ]
    | inr gone ↦ elim (Bool-cases (is_read_only (entries q).entry_type)) [
      | inl second ↦
          rw (after_update-gone_head entries p (q ∷ rest) other gone, second)
            (both_gone entries (delete_at entries q) p q rest (delete_at-Keeps entries q)
              (delete_at-Keeps entries q p other) (delete_at-gone entries q) one.0)
      | inr neither ↦
          rw (after_update-gone_head entries p (q ∷ rest) other gone, neither)
            (both_gone entries entries p q rest (λ k h. h) other neither one.0)
    ]
  ]
]

after_update-gone :
    (entries : ℕ → RecordCacheEntry) (chain : List ℕ)
    → OneOnTop entries chain
    → count_read_only (after_update entries chain) chain ≡ 0
unfolding count_read_only
after_update-gone entries [] one = refl
after_update-gone entries (p ∷ []) one = after_update-one entries p
after_update-gone entries (p ∷ q ∷ rest) one = after_update-two entries p q rest one

after_missing :
    (looked : UpdatableLookupResult × (ℕ → RecordCacheEntry))
    → looked.0.target ≡ none
    → after_lookup looked ≡ looked.1
after_missing looked h = rw h refl

after_found :
    (looked : UpdatableLookupResult × (ℕ → RecordCacheEntry)) (t : ℕ)
    → looked.0.target ≡ some t
    → after_lookup looked ≡ delete_at looked.1 t
after_found looked t h = rw h refl

pub update-entries :
    (c : RecordCache) (key : List ℕ) (worker : ℕ)
    → let updated = (try_update_and_invalidate_record_cache c key worker).1 in
      (updated.entries ≡ after_update c.entries (c.hash_map key)) × (updated.hash_map ≡ c.hash_map)
unfolding try_update_and_invalidate_record_cache after_update
update-entries c key worker =
    elim (Option-cases (find_first_updatable_entry c.entries (c.hash_map key)).0.target) [
      | inl missing ↦
          rw (missing, try_update_and_invalidate_record_cache)
            (
              sym (after_missing (find_first_updatable_entry c.entries (c.hash_map key)) missing),
              refl,
            )
      | inr found ↦
          rw (found.1, try_update_and_invalidate_record_cache)
            (
              sym (
                  after_found (find_first_updatable_entry c.entries (c.hash_map key)) found.0
                    found.1),
              refl,
            )
    ]

lookup-none :
    (visible : ℕ → ℕ → Bool) (c : RecordCache) (key : List ℕ) (worker : ℕ)
    → find_visible visible c.entries (c.hash_map key) ≡ none
    → (try_lookup_in_record_cache visible c key worker).0 ≡ none
unfolding try_lookup_in_record_cache
lookup-none visible c key worker h = rw (h, try_lookup_in_record_cache) refl

-- After `tryUpdateAndInvalidateRecordCache` on a key, whatever it returned, no lookup of the key by any
-- worker finds a value in the record cache, when before it at most one entry of the key's chain is
-- read-only and that is the head or the entry behind the head.
pub lookup-update :
    (visible : ℕ → ℕ → Bool) (c : RecordCache) (key : List ℕ) (worker reader : ℕ)
    → OneOnTop c.entries (c.hash_map key)
    → (try_lookup_in_record_cache visible
        (try_update_and_invalidate_record_cache c key worker).1
        key
        reader).0
      ≡ none
lookup-update visible c key worker reader one =
    let updated = (try_update_and_invalidate_record_cache c key worker).1 in
    let same = update-entries c key worker in
    lookup-none visible updated key reader (
      rw (same.0, same.1)
        (find_visible-none visible (after_update c.entries (c.hash_map key)) (c.hash_map key)
          (after_update-gone c.entries (c.hash_map key) one)))
