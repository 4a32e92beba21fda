-- ===== src/Cache/Slab/Balance.antt =====
-- The live count of a slab against the free list.
use re_mlcxl.Base.{
  ℕ, suc, ◌+◌, ◌-◌, ◌*◌, ◌≤◌, ◌<◌, ◌≡◌, ◌≢◌, refl, ap, sym, ◌∙◌, inl, inr, Bool, true, false, ◌&&◌,
  ◌||◌, List, [], ◌∷◌, ◌++◌, Option, none, some, All, arith, if◌then◌else◌, leb, ltb, ◌==◌,
  Bool-cases, ==→eq, not-==→ne, ==-refl, sub64, u64_mod, subst,
}
use re_mlcxl.Cache.Slab.{
  huge_page_size, max_block_size, RecordCacheSlabAllocator, update_slab, update_at, slab_of,
  get_class_index, keep_off_slab, try_reclaim_slab, choose_target, push_block, clear_target,
  becomes_target, half_used, do_deallocate,
}

-- The number of blocks of a list on a slab.
unfoldable pub count_on : ℕ → ℕ → List ℕ → ℕ
count_on base idx [] = 0
count_on base idx (p ∷ ps) =
    let rest = count_on base idx ps in if slab_of base p == idx then suc rest else rest

count_on-append :
    (base idx : ℕ) (ps qs : List ℕ)
    → count_on base idx (ps ++ qs) ≡ count_on base idx ps + count_on base idx qs
unfolding count_on
count_on-append base idx [] qs = omega arith
count_on-append base idx (p ∷ ps) qs = let ih = count_on-append base idx ps qs in ground (arith, ih)

-- A block of the class is free or live on its slab.
abbrev pub Balanced : RecordCacheSlabAllocator → ℕ → ℕ → Type 0
Balanced a c idx =
    (a.slab_metadata idx).live_count + count_on a.base_ptr idx (a.classes c).free_list
    ≡ (a.slab_metadata idx).total_blocks

-- The test of `tryReclaimSlab` on an address.
in_slab :
    (base idx p : ℕ)
    → base ≤ p
    → let begin = base + idx * huge_page_size in
      (leb begin p && ltb p (begin + huge_page_size)) ≡ (slab_of base p == idx)
in_slab base idx p lo = elim (Bool-cases (slab_of base p == idx)) [
  | inl same ↦ let e = ==→eq (slab_of base p) idx same in rw same (ground arith)
  | inr differ ↦ let ne = not-==→ne (slab_of base p) idx differ in rw differ (ground (arith, ne))
]

kept_off_self :
    (base idx : ℕ) (ps : List ℕ)
    → All (λ p. base ≤ p) ps
    → let begin = base + idx * huge_page_size in
      count_on base idx (keep_off_slab begin (begin + huge_page_size) ps) ≡ 0
unfolding count_on keep_off_slab
kept_off_self base idx [] above = refl
kept_off_self base idx (p ∷ ps) above =
    let ih = kept_off_self base idx ps above.1 in
    let lo = above.0 in
    rw (in_slab base idx p lo) (elim (Bool-cases (slab_of base p == idx)) [
      | inl same ↦ rw same ih
      | inr differ ↦ rw (differ, differ) ih
    ])

kept_off_other :
    (base idx other : ℕ) (ps : List ℕ)
    → other ≢ idx
    → All (λ p. base ≤ p) ps
    → let begin = base + idx * huge_page_size in
      count_on base other (keep_off_slab begin (begin + huge_page_size) ps) ≡ count_on base other ps
unfolding count_on keep_off_slab
kept_off_other base idx other [] ne above = refl
kept_off_other base idx other (p ∷ ps) ne above =
    let ih = kept_off_other base idx other ps ne above.1 in
    let lo = above.0 in
    rw (in_slab base idx p lo) (elim (Bool-cases (slab_of base p == idx)) [
      | inl same ↦ rw same (ground (arith, ih, ==→eq (slab_of base p) idx same, ne))
      | inr differ ↦ rw differ (ground (arith, ih))
    ])

-- What the choice of the drain target leaves as it is.
abbrev Keeps : RecordCacheSlabAllocator → RecordCacheSlabAllocator → ℕ → ℕ → Type 0
Keeps a b c idx =
    (b.base_ptr ≡ a.base_ptr)
    × ((b.classes c).free_list ≡ (a.classes c).free_list)
    × ((b.slab_metadata idx).live_count ≡ (a.slab_metadata idx).live_count)
    × ((b.slab_metadata idx).total_blocks ≡ (a.slab_metadata idx).total_blocks)

clear_target-Keeps :
    (a : RecordCacheSlabAllocator) (target : Option ℕ) (slab c idx : ℕ)
    → Keeps a (clear_target a target slab) c idx
clear_target-Keeps a none slab c idx = (refl, refl, refl, refl)
clear_target-Keeps a (some t) slab c idx = elim (Bool-cases (t == slab)) [
  | inl same ↦ rw same (refl, refl, refl, refl)
  | inr differ ↦ elim (Bool-cases (idx == t)) [
    | inl here ↦ rw (differ, here) (refl, refl, refl, refl)
    | inr there ↦ rw (differ, there) (refl, refl, refl, refl)
  ]
]

choose_target-Keeps :
    (a : RecordCacheSlabAllocator) (c slab live_after idx : ℕ)
    → Keeps a (choose_target a c slab live_after).1 c idx
unfolding choose_target
choose_target-Keeps a c slab live_after idx = elim (Bool-cases (ltb 0 live_after && half_used a)) [
  | inr idle ↦ rw idle (refl, refl, refl, refl)
  | inl busy ↦ elim (Bool-cases (becomes_target a (a.classes c).drain_target_idx slab live_after)) [
    | inr stays ↦ rw (busy, stays) (refl, refl, refl, refl)
    | inl becomes ↦
        let kept = clear_target-Keeps a (a.classes c).drain_target_idx slab c idx in
        elim (Bool-cases (idx == slab)) [
          | inl here ↦ rw (busy, becomes, here, ==-refl c) kept
          | inr there ↦ rw (busy, becomes, there, ==-refl c) kept
        ]
  ]
]

-- Every block of a class is above the base.
abbrev pub Above : RecordCacheSlabAllocator → ℕ → Type 0
Above a c = All (λ p. a.base_ptr ≤ p) (a.classes c).free_list

push_block-count :
    (a : RecordCacheSlabAllocator) (c p idx : ℕ) (sink : Bool)
    → count_on a.base_ptr idx ((push_block a c p sink).classes c).free_list
      ≡ count_on a.base_ptr idx (a.classes c).free_list + count_on a.base_ptr idx (p ∷ [])
unfolding push_block count_on
push_block-count a c p idx true =
    rw (==-refl c) (count_on-append a.base_ptr idx (a.classes c).free_list (p ∷ []))
push_block-count a c p idx false = rw (==-refl c) (ground arith)

push_block-Above :
    (a : RecordCacheSlabAllocator) (c p : ℕ) (sink : Bool)
    → a.base_ptr ≤ p
    → Above a c
    → Above (push_block a c p sink) c
unfolding push_block
push_block-Above a c p true lo above = rw (==-refl c) (snoc (a.classes c).free_list above)
  where
    snoc : (ps : List ℕ) → All (λ q. a.base_ptr ≤ q) ps → All (λ q. a.base_ptr ≤ q) (ps ++ (p ∷ []))
    snoc [] each = (lo, tt)
    snoc (q ∷ ps) each = (each.0, snoc ps each.1)
push_block-Above a c p false lo above = rw (==-refl c) (lo, above)

push_block-slabs :
    (a : RecordCacheSlabAllocator) (c p : ℕ) (sink : Bool)
    → ((push_block a c p sink).slab_metadata ≡ a.slab_metadata)
      × ((push_block a c p sink).base_ptr ≡ a.base_ptr)
unfolding push_block
push_block-slabs a c p true = (refl, refl)
push_block-slabs a c p false = (refl, refl)

-- A drained slab leaves its class with all its blocks; the other slabs keep theirs.
pub try_reclaim_slab-Balanced :
    (a : RecordCacheSlabAllocator) (slab c idx : ℕ)
    → Above a c
    → (a.slab_metadata slab).live_count ≡ 0
    → Balanced a c idx
    → Balanced (try_reclaim_slab a slab c) c idx
unfolding try_reclaim_slab
try_reclaim_slab-Balanced a slab c idx above drained bal = elim (Bool-cases (idx == slab)) [
  | inl here ↦
      let e = ==→eq idx slab here in
      let none_left = kept_off_self a.base_ptr slab (a.classes c).free_list above in
      rw (here, ==-refl c) (rw (e, drained, none_left) (omega arith))
  | inr there ↦
      let kept =
        kept_off_other a.base_ptr slab idx (a.classes c).free_list (not-==→ne idx slab there)
          above in
      rw (there, ==-refl c) (rw kept bal)
]

-- The state between the accounting and the reclaim.
pushed_state : RecordCacheSlabAllocator → ℕ → ℕ → ℕ → ℕ → RecordCacheSlabAllocator
pushed_state a c p slab live_after =
    let counted =
      record (update_slab a slab (λ m. record m { live_count = sub64 m.live_count 1 })) {
        bytes_in_use = sub64 a.bytes_in_use (a.classes c).block_size;
      } in
    let chosen = choose_target counted c slab live_after in push_block chosen.1 c p chosen.0

pushed_state-live :
    (a : RecordCacheSlabAllocator) (c p slab live_after idx : ℕ)
    → let b = pushed_state a c p slab live_after in
      let old = a.slab_metadata idx in
      ((b.slab_metadata idx).live_count
        ≡ (update_at a.slab_metadata slab
            (λ m. record m { live_count = sub64 m.live_count 1 })
            idx).live_count)
      × ((b.slab_metadata idx).total_blocks ≡ old.total_blocks)
      × (b.base_ptr ≡ a.base_ptr)
      × (count_on b.base_ptr idx (b.classes c).free_list
          ≡ count_on a.base_ptr idx (a.classes c).free_list + count_on a.base_ptr idx (p ∷ []))
      × (a.base_ptr ≤ p → Above a c → Above b c)
unfolding pushed_state
pushed_state-live a c p slab live_after idx =
    let counted : RecordCacheSlabAllocator =
      record (update_slab a slab (λ m. record m { live_count = sub64 m.live_count 1 })) {
        bytes_in_use = sub64 a.bytes_in_use (a.classes c).block_size;
      } in
    let chosen = choose_target counted c slab live_after in
    let kept = choose_target-Keeps counted c slab live_after idx in
    let slabs = push_block-slabs chosen.1 c p chosen.0 in
    let added = push_block-count chosen.1 c p idx chosen.0 in
    let stays = push_block-Above chosen.1 c p chosen.0 in
    let same_total : (counted.slab_metadata idx).total_blocks ≡ (a.slab_metadata idx).total_blocks =
      elim (Bool-cases (idx == slab)) [ inl here ↦ rw here refl | inr there ↦ rw there refl ] in
    (
      ap (λ f. (f idx).live_count) slabs.0 ∙ kept.2,
      ap (λ f. (f idx).total_blocks) slabs.0 ∙ kept.3 ∙ same_total,
      slabs.1 ∙ kept.0,
      ap (λ base. count_on base idx ((push_block chosen.1 c p chosen.0).classes c).free_list)
            slabs.1
          ∙ added
          ∙ rw (kept.0, kept.1) refl,
      λ lo above. stays (subst (λ base. base ≤ p) (sym kept.0) lo) (rw (kept.0, kept.1) above),
    )

count_one : (base idx p : ℕ) → count_on base idx (p ∷ []) ≡ (if slab_of base p == idx then 1 else 0)
unfolding count_on
count_one base idx p = elim (Bool-cases (slab_of base p == idx)) [
  | inl same ↦ rw same refl
  | inr differ ↦ rw differ refl
]

==-swap : (a b : ℕ) (t : Bool) → (a == b) ≡ t → (b == a) ≡ t
==-swap a b true h = ground arith
==-swap a b false h = ground arith

-- The balance after the push: the freed block went from live to free.
pushed_state-Balanced :
    (a : RecordCacheSlabAllocator) (c p live_after idx : ℕ)
    → let slab = slab_of a.base_ptr p in
      0 < (a.slab_metadata slab).live_count
      → (a.slab_metadata slab).live_count < u64_mod
      → Balanced a c idx
      → Balanced (pushed_state a c p slab live_after) c idx
pushed_state-Balanced a c p live_after idx live small bal =
    let slab = slab_of a.base_ptr p in
    let facts = pushed_state-live a c p slab live_after idx in
    rw (facts.0, facts.1, facts.3)
      (elim (Bool-cases (idx == slab)) [
        | inl here ↦
            let e = ==→eq idx slab here in
            let lo : 0 < (a.slab_metadata idx).live_count =
              subst (λ k. 0 < (a.slab_metadata k).live_count) (sym e) live in
            let hi : (a.slab_metadata idx).live_count < u64_mod =
              subst (λ k. (a.slab_metadata k).live_count < u64_mod) (sym e) small in
            rw (here, count_one a.base_ptr idx p, ==-swap idx slab true here) (omega (arith, bal))
        | inr there ↦
            rw (there, count_one a.base_ptr idx p, ==-swap idx slab false there)
              (omega (arith, bal))
      ])

-- `do_deallocate` of a non-null block of at most `MAX_BLOCK_SIZE` bytes above the base, whose slab has
-- between 1 and 2 ^ 64 - 1 live blocks, keeps the balance of every slab with the class of the block,
-- whether the slab is reclaimed or not: a slab's live count and its blocks in the class's free list
-- make up its total blocks. The blocks of the free list are taken to be above the base.
pub do_deallocate-Balanced :
    (a : RecordCacheSlabAllocator) (p bytes idx : ℕ)
    → let c = get_class_index bytes in
      let live = (a.slab_metadata (slab_of a.base_ptr p)).live_count in
      p ≢ 0
      → a.base_ptr ≤ p
      → bytes ≤ max_block_size
      → 0 < live
      → live < u64_mod
      → Above a c
      → Balanced a (get_class_index bytes) idx
      → Balanced (do_deallocate a p bytes) (get_class_index bytes) idx
unfolding do_deallocate pushed_state
do_deallocate-Balanced a p bytes idx ne lo le live small above bal =
    let c = get_class_index bytes in
    let slab = slab_of a.base_ptr p in
    let prev = (a.slab_metadata slab).live_count in
    let live_after : ℕ = if ltb 0 prev then prev - 1 else 0 in
    let pushed = pushed_state a c p slab live_after in
    let bal_pushed = pushed_state-Balanced a c p live_after idx live small bal in
    let facts = pushed_state-live a c p slab live_after slab in
    let guard : ((p == 0) || ltb max_block_size bytes) ≡ false = ground (arith, ne, le) in
    elim (Bool-cases (prev == 1)) [
      | inl last ↦
          let drained : (pushed.slab_metadata slab).live_count ≡ 0 =
            facts.0 ∙ rw (==-refl slab) (rw (==→eq prev 1 last) (omega arith)) in
          rw (guard, last)
            (try_reclaim_slab-Balanced pushed slab c idx (facts.4 lo above) drained bal_pushed)
      | inr more ↦ rw (guard, more) bal_pushed
    ]
