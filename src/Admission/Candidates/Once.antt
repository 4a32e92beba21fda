-- ===== src/Admission/Candidates/Once.antt =====
-- `CheckAndPromote` against the candidates: which slots it decides, and that it decides none twice.
use re_mlcxl.Base.{
  ℕ, ◌/◌, ◌%◌, ◌≤◌, ◌<◌, ◌≡◌, ◌≢◌, refl, sym, ap, ◌∙◌, ◌⊎◌, inl, inr, Bool, true, false, List, [],
  ◌∷◌, arith, leb, ◌==◌, if◌then◌else◌, Has,
}
use re_mlcxl.Admission.Sketch.{CountMinSketch, cms_query}
use re_mlcxl.Admission.Candidates.{
  Bitmap, HotPageCandidate, DramHotPageCandidates, max_slots_per_page, test_slot, is_slot_accessed,
  is_slot_promoted, is_slot_urgent, touch_candidate, on_record_access, mark_slot_as_accessed,
  increment_visit_count, get_effective_max_per_page_visits,
}
use re_mlcxl.Admission.Candidates.Check.{
  decide, check_and_promote, take_snapshot, effective_threshold, write_back,
}
use re_mlcxl.Admission.Candidates.Entries.{Entry, All-Has, All-modify, Distinct-modify, Has-modify}
use re_mlcxl.Admission.Candidates.Slots.{Decides, Fresh, analyse_all-Fresh}
use re_mlcxl.Admission.Candidates.Promote.{IsValid, write_back-IsValid}

pub small_slot :
    (bits : Bitmap) (t : ℕ) → t < max_slots_per_page → test_slot bits t ≡ bits (t / 64) (t % 64)
unfolding test_slot
small_slot bits t lt = let below : leb max_slots_per_page t ≡ false = ground arith in rw below refl

-- A slot that the page has, below 512, that is not promoted and is accessed or pending.
abbrev pub Waiting : HotPageCandidate → ℕ → Type 0
Waiting c t =
    (t < c.page_slot_num)
    × (t < max_slots_per_page)
    × (is_slot_promoted c t ≡ false)
    × ((is_slot_accessed c t ≡ true) ⊎ (is_slot_urgent c t ≡ true))

Fresh-Waiting :
    (s : DramHotPageCandidates) (p t : ℕ) (c : HotPageCandidate)
    → IsValid s
    → Has (p, c) s.map
    → Fresh (take_snapshot (p, c)) t
    → Waiting c t
unfolding take_snapshot is_slot_promoted is_slot_accessed is_slot_urgent
Fresh-Waiting s p t c valid h fresh =
    let fits = All-Has (λ e. e.1.page_slot_num ≤ max_slots_per_page) s.map (p, c) valid.fits h in
    let lt : t < max_slots_per_page = omega arith in
    (
      fresh.0,
      lt,
      small_slot c.already_promoted_slot_set t lt ∙ fresh.1,
      elim fresh.2 [
        | inl accessed ↦ inl (small_slot c.distinct_accessed_slot_set t lt ∙ accessed)
        | inr urgent ↦ inr (small_slot c.urgent_pending_slot_set t lt ∙ urgent)
      ],
    )

slots-touch_candidate :
    (slot bf : ℕ) (c : HotPageCandidate)
    → (touch_candidate slot bf c).page_slot_num ≡ c.page_slot_num
unfolding touch_candidate mark_slot_as_accessed increment_visit_count
slots-touch_candidate slot bf c = either (bf == 0)
  where
    either :
        (b : Bool) → (if b then c else record c { cxl_bf = bf }).page_slot_num ≡ c.page_slot_num
    either true = refl
    either false = refl

promoted-touch_candidate :
    (slot bf : ℕ) (c : HotPageCandidate) (t : ℕ)
    → is_slot_promoted (touch_candidate slot bf c) t ≡ is_slot_promoted c t
unfolding touch_candidate mark_slot_as_accessed increment_visit_count is_slot_promoted
promoted-touch_candidate slot bf c t = either (bf == 0)
  where
    either :
        (b : Bool)
        → test_slot (if b then c else record c { cxl_bf = bf }).already_promoted_slot_set t
          ≡ test_slot c.already_promoted_slot_set t
    either true = refl
    either false = refl

module _ (record_hash : ℕ × ℕ → ℕ) (uniform_of skew_of dynamic_of : ℕ → ℕ) where
  -- For well-formed candidates, each slot that `CheckAndPromote` decides for a page is a slot of a
  -- candidate of that page, below its number of slots and below 512, that is not promoted and that is
  -- accessed or waits as urgent.
  pub decide-Waiting :
      (cms : CountMinSketch) (threshold : ℕ) (scan : Bool) (s : DramHotPageCandidates) (p t : ℕ)
      → IsValid s
      → Decides
          (check_and_promote record_hash uniform_of skew_of dynamic_of cms threshold scan s).0
          p
          t
      → (c : HotPageCandidate) × Has (p, c) s.map × Waiting c t
  unfolding check_and_promote decide
  decide-Waiting cms threshold scan s p t valid h =
      let found =
        analyse_all-Fresh uniform_of skew_of (effective_threshold dynamic_of threshold)
          (get_effective_max_per_page_visits s) scan
          (λ page_id slot_id. cms_query record_hash cms (page_id, slot_id)) s.map p t h in
      (found.0, found.1, Fresh-Waiting s p t found.0 valid found.1 found.2)

  -- What workers do between two checks: accesses (page, slot, frame).
  unfoldable pub on_record_accesses :
      CountMinSketch
      → DramHotPageCandidates
      → List (ℕ × ℕ × ℕ)
      → CountMinSketch × DramHotPageCandidates
  unfolding on_record_access
  on_record_accesses cms s [] = (cms, s)
  on_record_accesses cms s ((p, slot, bf) ∷ rest) =
      let next = on_record_access record_hash cms s p slot bf in
      on_record_accesses next.0 next.1 rest

  pub on_record_access-Has :
      (cms : CountMinSketch) (s : DramHotPageCandidates) (p slot bf : ℕ)
      → IsValid s
      → IsValid (on_record_access record_hash cms s p slot bf).1
        × ((e : Entry)
            → Has e (on_record_access record_hash cms s p slot bf).1.map
            → (c : HotPageCandidate) × Has (e.0, c) s.map
              × ((t : ℕ) → is_slot_promoted e.1 t ≡ is_slot_promoted c t))
  unfolding on_record_access
  on_record_access-Has cms s p slot bf valid = (
    record {
      distinct = Distinct-modify s.map p (touch_candidate slot bf) valid.distinct;
      fits =
          All-modify (λ x. x.1.page_slot_num ≤ max_slots_per_page) (touch_candidate slot bf)
            (λ _ c le. rw (slots-touch_candidate slot bf c) le) s.map p valid.fits;
    },
    λ e h.
        let from = Has-modify s.map p (touch_candidate slot bf) e valid.distinct h in
        (
          from.0,
          from.1,
          λ t. elim from.2 [
            | inl here ↦
                ap (λ c. is_slot_promoted c t) here.1 ∙ promoted-touch_candidate slot bf from.0 t
            | inr other ↦ ap (λ c. is_slot_promoted c t) other.1
          ],
        ),
  )

  on_record_accesses-Has :
      (cms : CountMinSketch) (s : DramHotPageCandidates) (accesses : List (ℕ × ℕ × ℕ))
      → IsValid s
      → IsValid (on_record_accesses cms s accesses).1
        × ((e : Entry)
            → Has e (on_record_accesses cms s accesses).1.map
            → (c : HotPageCandidate) × Has (e.0, c) s.map
              × ((t : ℕ) → is_slot_promoted e.1 t ≡ is_slot_promoted c t))
  unfolding on_record_accesses
  on_record_accesses-Has cms s [] valid = (valid, λ e h. (e.1, h, λ _. refl))
  on_record_accesses-Has cms s ((p, slot, bf) ∷ rest) valid =
      let next = on_record_access record_hash cms s p slot bf in
      let last =
        on_record_accesses-Has next.0 next.1 rest (on_record_access-Has cms s p slot bf valid).0 in
      (
        last.0,
        λ e h.
            let b = last.1 e h in
            let a = (on_record_access-Has cms s p slot bf valid).1 (e.0, b.0) b.1 in
            (a.0, a.1, λ t. b.2 t ∙ a.2 t),
      )

  -- For well-formed candidates, a slot that one `CheckAndPromote` decides for a page is decided by no
  -- later one, whatever the sketch, the threshold and the workload then, if in between there are only
  -- record accesses.
  pub check_and_promote_once :
      (cms cms_later : CountMinSketch) (threshold threshold_later : ℕ) (scan scan_later : Bool)
      → (s : DramHotPageCandidates) (accesses : List (ℕ × ℕ × ℕ)) (p t : ℕ) → IsValid s
      → let first =
          check_and_promote record_hash uniform_of skew_of dynamic_of cms threshold scan s in
        let between = on_record_accesses cms first.1 accesses in
        Decides first.0 p t
        → ¬ Decides
            (check_and_promote record_hash uniform_of skew_of dynamic_of cms_later threshold_later
              scan_later between.1).0
            p
            t
  unfolding check_and_promote
  check_and_promote_once cms cms_later threshold threshold_later scan scan_later s accesses p t
        valid named again =
      let found = decide record_hash uniform_of skew_of dynamic_of cms threshold scan s in
      let after = write_back found.0 found.1 s in
      let written = write_back-IsValid found.0 found.1 s valid in
      let worked = on_record_accesses-Has cms after accesses written.0 in
      let next =
        decide-Waiting cms_later threshold_later scan_later
          (on_record_accesses cms after accesses).1 p t worked.0 again in
      let before = worked.1 (p, next.0) next.1 in
      let source = written.1 (p, before.0) before.1 in
      let settled = source.2 t next.2.1 (inr named) in
      true-ne (sym settled.0 ∙ sym (before.2 t) ∙ next.2.2)
    where
      true-ne : true ≢ false
      true-ne e = ground arith
