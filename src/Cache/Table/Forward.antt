-- ===== src/Cache/Table/Forward.antt =====
-- The rounds of forwardEpochThread.
use re_mlcxl.Base.{
  Has, ℕ, ◌+◌, ◌<◌, ◌≡◌, ◌≢◌, ◌⊎◌, refl, sym, ap, ◌∙◌, subst, inl, inr, true, false, List, [], ◌∷◌,
  Bool-cases, Option-cases, ◌==◌, ==-refl, ==→eq, not-==→ne, ltb, ltb→lt, not-ltb→le, if◌then◌else◌,
  arith, All, Sure,
}
use re_mlcxl.Cache.Entry.{is_removed}
use re_mlcxl.Cache.Epoch.{EpochManager, is_safe_to_invalidate}
use re_mlcxl.Cache.Table.{RecordCache, InvalidationEntry, unlink, forward_item, forward_items}
use re_mlcxl.Cache.Table.Chains.{
  occurs, Chained, Unlinked, Without, unlink-Without, chain_of, OnlyOut, take_out-OnlyOut,
}

abbrev pub IsRemoved : RecordCache → ℕ → Type 0
IsRemoved c p = is_removed (c.entries p).entry_type ≡ true

forward_item-IsRemoved :
    (c : RecordCache) (item : InvalidationEntry) (p : ℕ)
    → IsRemoved c p
    → IsRemoved (forward_item c item).1 p
unfolding forward_item
forward_item-IsRemoved c item p gone =
    let q = item.entry_pointer in
    elim (Bool-cases (is_safe_to_invalidate c.epoch_manager item.update_epoch)) [
      | inr unsafe ↦ rw (unsafe, forward_item) gone
      | inl safe ↦ elim (Option-cases (unlink q (c.hash_map (c.entries q).key))) [
        | inl missing ↦ rw (safe, missing, forward_item) gone
        | inr found ↦ elim (Bool-cases (p == q)) [
          | inl here ↦ rw (safe, found.1, forward_item, here) refl
          | inr other ↦ rw (safe, found.1, forward_item, other) gone
        ]
      ]
    ]

-- The entry is removed and stands in no chain.
abbrev pub Gone : RecordCache → ℕ → Type 0
Gone c p = IsRemoved c p × Unlinked c p

-- An item leaves the cache as it is, to be tried again or since its entry is gone; or its epoch is safe
-- and it takes its entry out.
forward_item_cases :
    (c : RecordCache) (item : InvalidationEntry)
    → Chained c
    → let r = forward_item c item in
      let safe = is_safe_to_invalidate c.epoch_manager item.update_epoch in
      ((r.1 ≡ c) × ((r.0 ≡ true) ⊎ ((safe ≡ true) × Gone c item.entry_pointer)))
      ⊎ ((safe ≡ true) × IsRemoved r.1 item.entry_pointer × OnlyOut c item.entry_pointer r.1)
unfolding forward_item occurs
forward_item_cases c item chained =
    let p = item.entry_pointer in
    elim (Bool-cases (is_safe_to_invalidate c.epoch_manager item.update_epoch)) [
      | inr unsafe ↦ rw (unsafe, forward_item) (inl (refl, inl refl))
      | inl safe ↦ elim (Option-cases (unlink p (chain_of c p))) [
        | inr (kept, found) ↦
            let without =
              subst (Sure (Without p (chain_of c p))) found (unlink-Without p (chain_of c p)) in
            let (well, out, others) =
              take_out-OnlyOut c p kept chained without (linked_before kept (without p)) in
            rw (safe, found, forward_item)
              (inr (
                refl,
                rw (==-refl p) refl,
                (record { once = well.once; own = well.own; linked = well.linked }, out, others),
              ))
        | inl missing ↦ elim (Bool-cases (is_removed (c.entries p).entry_type)) [
          | inl gone ↦
              rw (safe, missing, gone, forward_item)
                (inl (refl, inr (refl, (refl, removed-Unlinked gone))))
          | inr alive ↦ rw (safe, missing, alive, forward_item) (inl (refl, inl refl))
        ]
      ]
    ]
  where
    linked_before :
        (kept : List ℕ)
        → occurs item.entry_pointer (chain_of c item.entry_pointer)
          ≡ occurs item.entry_pointer kept
            + (if item.entry_pointer == item.entry_pointer then 1 else 0)
        → 0 < occurs item.entry_pointer (chain_of c item.entry_pointer)
    linked_before kept e =
        let one =
          e
          ∙ ap (λ b. occurs item.entry_pointer kept + (if b then 1 else 0))
              (==-refl item.entry_pointer) in
        omega (arith, one)

    removed-Unlinked : IsRemoved c item.entry_pointer → Unlinked c item.entry_pointer
    removed-Unlinked gone k = elim (Bool-cases (ltb 0 (occurs item.entry_pointer (c.hash_map k)))) [
      | inl linked ↦
          let alive =
            chained.linked k item.entry_pointer
              (ltb→lt 0 (occurs item.entry_pointer (c.hash_map k)) linked) in
          absurd (ground (arith, gone, alive))
      | inr free ↦
          let le = not-ltb→le 0 (occurs item.entry_pointer (c.hash_map k)) free in omega (arith, le)
    ]

forward_item-Chained :
    (c : RecordCache) (item : InvalidationEntry) → Chained c → Chained (forward_item c item).1
forward_item-Chained c item chained = elim (forward_item_cases c item chained) [
  | inl same ↦ subst Chained (sym same.0) chained
  | inr done ↦ done.2.0
]

forward_item-occurs :
    (c : RecordCache) (item : InvalidationEntry) (k : List ℕ) (q : ℕ)
    → Chained c
    → q ≢ item.entry_pointer
    → occurs q ((forward_item c item).1.hash_map k) ≡ occurs q (c.hash_map k)
forward_item-occurs c item k q chained ne = elim (forward_item_cases c item chained) [
  | inl same ↦ ap (λ d. occurs q (d.hash_map k)) same.0
  | inr done ↦ done.2.2 k q ne
]

forward_item-Gone :
    (c : RecordCache) (item : InvalidationEntry) (p : ℕ)
    → Chained c
    → Gone c p
    → Gone (forward_item c item).1 p
forward_item-Gone c item p chained gone = elim (forward_item_cases c item chained) [
  | inl same ↦ subst (λ d. Gone d p) (sym same.0) gone
  | inr done ↦ elim (Bool-cases (p == item.entry_pointer)) [
    | inl here ↦
        subst (Gone (forward_item c item).1) (sym (==→eq p item.entry_pointer here))
          (done.1, done.2.1)
    | inr other ↦ (
      forward_item-IsRemoved c item p gone.0,
      λ k. forward_item-occurs c item k p chained (not-==→ne p item.entry_pointer other) ∙ gone.1 k,
    )
  ]
]

forward_items-Gone :
    (c : RecordCache) (items : List InvalidationEntry) (p : ℕ)
    → Chained c
    → Gone c p
    → Gone (forward_items c items).1 p
unfolding forward_items
forward_items-Gone c [] p chained gone = gone
forward_items-Gone c (item ∷ rest) p chained gone =
    forward_items-Gone (forward_item c item).1 rest p (forward_item-Chained c item chained)
      (forward_item-Gone c item p chained gone)

forward_items-Chained :
    (c : RecordCache) (items : List InvalidationEntry)
    → Chained c
    → Chained (forward_items c items).1
unfolding forward_items
forward_items-Chained c [] chained = chained
forward_items-Chained c (item ∷ rest) chained =
    forward_items-Chained (forward_item c item).1 rest (forward_item-Chained c item chained)

forward_items-occurs :
    (c : RecordCache) (items : List InvalidationEntry) (k : List ℕ) (q : ℕ)
    → Chained c
    → All (λ item. q ≢ item.entry_pointer) items
    → occurs q ((forward_items c items).1.hash_map k) ≡ occurs q (c.hash_map k)
unfolding forward_items
forward_items-occurs c [] k q chained ne = refl
forward_items-occurs c (item ∷ rest) k q chained ne =
    forward_items-occurs (forward_item c item).1 rest k q (forward_item-Chained c item chained) ne.1
    ∙ forward_item-occurs c item k q chained ne.0

-- An item is to be tried again; or its epoch is safe, and its entry is gone.
abbrev pub Settled :
    EpochManager → List InvalidationEntry → RecordCache → InvalidationEntry → Type 0
Settled m retry d item =
    Has item retry
    ⊎ ((is_safe_to_invalidate m item.update_epoch ≡ true) × Gone d item.entry_pointer)

forward_item-epoch :
    (c : RecordCache) (item : InvalidationEntry)
    → Chained c
    → (forward_item c item).1.epoch_manager ≡ c.epoch_manager
unfolding forward_item
forward_item-epoch c item chained =
    elim (Bool-cases (is_safe_to_invalidate c.epoch_manager item.update_epoch)) [
      | inr unsafe ↦ rw (unsafe, forward_item) refl
      | inl safe ↦ elim (Option-cases (unlink item.entry_pointer (chain_of c item.entry_pointer))) [
        | inl missing ↦ rw (safe, missing, forward_item) refl
        | inr found ↦ rw (safe, found.1, forward_item) refl
      ]
    ]

settled :
    (c : RecordCache) (items : List InvalidationEntry)
    → Chained c
    → let r = forward_items c items in All (Settled c.epoch_manager r.0 r.1) items
unfolding forward_items
settled c [] chained = tt
settled c (item ∷ rest) chained =
    let d = (forward_item c item).1 in
    let good = forward_item-Chained c item chained in
    (
      elim (forward_item_cases c item chained) [
        | inr done ↦
            inr (done.0, forward_items-Gone d rest item.entry_pointer good (done.1, done.2.1))
        | inl same ↦ elim same.1 [
          | inl retried ↦ inl (rw retried (inl refl))
          | inr gone ↦ inr (
            gone.0,
            forward_items-Gone d rest item.entry_pointer good
                (subst (λ e. Gone e item.entry_pointer) (sym same.0) gone.1),
          )
        ]
      ],
      widen rest (settled d rest good),
    )
  where
    widen :
        (xs : List InvalidationEntry)
        → All
            (Settled
              (forward_item c item).1.epoch_manager
              (forward_items (forward_item c item).1 rest).0
              (forward_items (forward_item c item).1 rest).1)
            xs
        → All
            (Settled c.epoch_manager
              (forward_items c (item ∷ rest)).0
              (forward_items c (item ∷ rest)).1)
            xs
    widen [] each = tt
    widen (x ∷ xs) each = (
      elim each.0 [
        | inr gone ↦ inr (
          subst (λ m. is_safe_to_invalidate m x.update_epoch ≡ true)
              (forward_item-epoch c item chained) gone.0,
          gone.1,
        )
        | inl here ↦ elim (Bool-cases (forward_item c item).0) [
          | inl retried ↦ inl (rw retried (inr here))
          | inr dropped ↦ inl (rw dropped here)
        ]
      ],
      widen xs each.1,
    )

-- The loop of a round on a cache with well-formed chains (an entry stands in its own key's chain only,
-- at most once, and is not removed) leaves the chains well-formed. Each of its items is in the retry
-- queue afterwards, or has a safe epoch, and then its entry is removed and stands in no chain. Every
-- entry that no item names stands in the chains as before.
pub forward_items_lem :
    (c : RecordCache) (items : List InvalidationEntry)
    → Chained c
    → let r = forward_items c items in
      Chained r.1
      × All (Settled c.epoch_manager r.0 r.1) items
      × ((k : List ℕ) (q : ℕ)
          → All (λ item. q ≢ item.entry_pointer) items
          → occurs q (r.1.hash_map k) ≡ occurs q (c.hash_map k))
forward_items_lem c items chained = (
  forward_items-Chained c items chained,
  settled c items chained,
  λ k q ne. forward_items-occurs c items k q chained ne,
)

-- An item for another entry, or one that is not safe, leaves an entry as it is.
forward_item-entry :
    (c : RecordCache) (item : InvalidationEntry) (p : ℕ)
    → (item.entry_pointer ≡ p → is_safe_to_invalidate c.epoch_manager item.update_epoch ≡ false)
    → let d = (forward_item c item).1 in
      (d.entries p ≡ c.entries p) × (d.epoch_manager ≡ c.epoch_manager)
unfolding forward_item
forward_item-entry c item p guarded =
    let q = item.entry_pointer in
    elim (Bool-cases (is_safe_to_invalidate c.epoch_manager item.update_epoch)) [
      | inr unsafe ↦ rw (unsafe, forward_item) (refl, refl)
      | inl safe ↦ elim (Option-cases (unlink q (c.hash_map (c.entries q).key))) [
        | inl missing ↦ rw (safe, missing, forward_item) (refl, refl)
        | inr found ↦ elim (Bool-cases (p == q)) [
          | inl here ↦
              let unsafe = guarded (sym (==→eq p q here)) in absurd (ground (arith, safe, unsafe))
          | inr other ↦ rw (safe, found.1, forward_item, other) (refl, refl)
        ]
      ]
    ]

-- An entry all of whose items have an epoch that is not safe is left as it is by the loop of a round,
-- whatever happens to the other entries.
pub forward_items-entry :
    (c : RecordCache) (items : List InvalidationEntry) (p : ℕ)
    → All
        (λ item.
          item.entry_pointer ≡ p → is_safe_to_invalidate c.epoch_manager item.update_epoch ≡ false)
        items
    → (forward_items c items).1.entries p ≡ c.entries p
unfolding forward_items
forward_items-entry c [] p guarded = refl
forward_items-entry c (item ∷ rest) p guarded =
    let d = (forward_item c item).1 in
    let same = forward_item-entry c item p guarded.0 in
    forward_items-entry d rest p (
      subst
        (λ m. All (λ x. x.entry_pointer ≡ p → is_safe_to_invalidate m x.update_epoch ≡ false) rest)
        (sym same.1) guarded.1)
    ∙ same.0
