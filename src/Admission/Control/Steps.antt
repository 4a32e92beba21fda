-- ===== src/Admission/Control/Steps.antt =====
-- The admission control as a state machine: the calls of its workers, the record cache and the
-- background thread in any order.
use re_mlcxl.Base.{
  Sure, ℕ, ◌≤◌, ◌≡◌, inl, inr, Bool, true, false, ◌||◌, List, some, if◌then◌else◌, Option-cases,
  subst,
}
use re_mlcxl.Admission.Histogram.{background_thread_try_update}
use re_mlcxl.Admission.Candidates.{max_slots_per_page, contains}
use re_mlcxl.Admission.Candidates.Check.{PromotionDecision}
use re_mlcxl.Admission.Candidates
use re_mlcxl.Admission.Recency
use re_mlcxl.Admission.Recency.{promote_batch}
use re_mlcxl.Admission.Control.{
  AdmissionMode, lru, page_only, two_level, TwoLevelAdmissionControl, count_page,
  pass_page_threshold, admit, access_two_level, on_record_access, on_page_access_for_scan,
  on_record_invalidated, background_routine,
}
use re_mlcxl.Admission.Control.Valid.{
  IsValid, Counts, lru-IsValid, page_only-IsValid, count-IsValid, admit-IsValid, track-IsValid,
  check-IsValid, try_update-Counts,
}

module _ (Double : Type 0) (page_hash target_of : ℕ → ℕ) (record_hash : ℕ × ℕ → ℕ)
    (uniform_of skew_of : ℕ → ℕ) (dynamic_of : Double → ℕ → ℕ) where
  if_IsValid :
      (b : Bool) (x y : TwoLevelAdmissionControl Double)
      → IsValid x
      → IsValid y
      → IsValid (if b then x else y)
  if_IsValid true x y vx vy = vx
  if_IsValid false x y vx vy = vy

  two_level-IsValid :
      (try_lock : Bool) (s : TwoLevelAdmissionControl Double) (page_id slot slots bf : ℕ)
      → slots ≤ max_slots_per_page
      → IsValid s
      → IsValid (
          access_two_level Double page_hash target_of record_hash uniform_of skew_of dynamic_of
            try_lock s page_id slot slots bf)
  unfolding access_two_level
  two_level-IsValid try_lock s page_id slot slots bf le v =
      let counted =
        count_page Double page_hash target_of record_hash uniform_of skew_of dynamic_of try_lock s
          page_id in
      let admitted =
        admit Double page_hash target_of record_hash uniform_of skew_of dynamic_of counted page_id
          slots bf in
      let passed =
        pass_page_threshold Double page_hash target_of record_hash uniform_of skew_of dynamic_of
          counted page_id in
      let valid =
        admit-IsValid Double page_hash target_of record_hash uniform_of skew_of dynamic_of counted
          page_id slots bf le
          (count-IsValid Double page_hash target_of record_hash uniform_of skew_of dynamic_of
            try_lock s page_id v) in
      if_IsValid (passed || contains admitted.dram_hot_page_candidates page_id) _ _
        (track-IsValid Double page_hash target_of record_hash uniform_of skew_of dynamic_of admitted
          page_id slot bf valid)
        valid

  access-IsValid :
      (mode : AdmissionMode) (try_lock in_dram : Bool) (s : TwoLevelAdmissionControl Double)
      → (page_id slot slots bf : ℕ) → slots ≤ max_slots_per_page
      → IsValid s
      → IsValid (
          on_record_access Double page_hash target_of record_hash uniform_of skew_of dynamic_of mode
            try_lock s page_id slot in_dram slots bf)
  unfolding on_record_access
  access-IsValid mode try_lock true s page_id slot slots bf le v = v
  access-IsValid lru try_lock false s page_id slot slots bf le v =
      lru-IsValid Double page_hash target_of record_hash uniform_of skew_of dynamic_of s page_id bf
        v
  access-IsValid page_only try_lock false s page_id slot slots bf le v =
      page_only-IsValid Double page_hash target_of record_hash uniform_of skew_of dynamic_of
        try_lock s page_id bf v
  access-IsValid two_level try_lock false s page_id slot slots bf le v =
      two_level-IsValid try_lock s page_id slot slots bf le v

  scan-IsValid :
      (mode : AdmissionMode) (try_lock in_dram : Bool) (s : TwoLevelAdmissionControl Double)
      → (page_id slots bf : ℕ) → slots ≤ max_slots_per_page
      → IsValid s
      → IsValid (
          on_page_access_for_scan Double page_hash target_of record_hash uniform_of skew_of
            dynamic_of mode try_lock s page_id in_dram slots bf)
  unfolding on_page_access_for_scan
  scan-IsValid mode try_lock true s page_id slots bf le v = v
  scan-IsValid lru try_lock false s page_id slots bf le v =
      lru-IsValid Double page_hash target_of record_hash uniform_of skew_of dynamic_of s page_id bf
        v
  scan-IsValid page_only try_lock false s page_id slots bf le v =
      page_only-IsValid Double page_hash target_of record_hash uniform_of skew_of dynamic_of
        try_lock s page_id bf v
  scan-IsValid two_level try_lock false s page_id slots bf le v =
      admit-IsValid Double page_hash target_of record_hash uniform_of skew_of dynamic_of _ page_id
        slots bf le
        (count-IsValid Double page_hash target_of record_hash uniform_of skew_of dynamic_of try_lock
          s page_id v)

  invalidated-IsValid :
      (s : TwoLevelAdmissionControl Double) (page_id slot : ℕ)
      → IsValid s
      → IsValid (
          on_record_invalidated Double page_hash target_of record_hash uniform_of skew_of dynamic_of
            s page_id slot)
  unfolding on_record_invalidated
  invalidated-IsValid s page_id slot v = record {
    counts = v.counts;
    records = v.records;
    candidates =
        Candidates.Keeps.clear-IsValid s.dram_hot_page_candidates page_id slot v.candidates;
    recent = v.recent;
    full_pages = v.full_pages;
  }

  background-IsValid :
      (mode : AdmissionMode) (scan : Bool) (batch : ℕ) (ratio : Double)
      → (s : TwoLevelAdmissionControl Double) → IsValid s
      → Sure
          (λ r. IsValid r.1)
          (background_routine Double page_hash target_of record_hash uniform_of skew_of dynamic_of
            mode scan batch ratio s)
  unfolding background_routine
  background-IsValid lru scan batch ratio s v = record {
    counts = v.counts;
    records = v.records;
    candidates = v.candidates;
    recent = (Recency.Drain.promote_batch-promoted batch s.lru_candidates v.recent).0;
    full_pages = v.full_pages;
  }
  background-IsValid page_only scan batch ratio s v =
      elim (Option-cases
        (background_thread_try_update page_hash target_of s.page_visit_histogram)) [
          | inl failed ↦ rw (background_routine, failed) tt
          | inr (u, updated) ↦
              rw (background_routine, updated)
                (record {
                  counts =
                      subst (Sure (λ r. Counts r.0)) updated
                        (try_update-Counts page_hash target_of s.page_visit_histogram v.counts);
                  records = v.records;
                  candidates = v.candidates;
                  recent = v.recent;
                  full_pages =
                      (Recency.Drain.promote_batch-promoted batch s.page_only_candidates
                        v.full_pages).0;
                })
        ]
  background-IsValid two_level scan batch ratio s v =
      elim (Option-cases
        (background_thread_try_update page_hash target_of s.page_visit_histogram)) [
          | inl failed ↦ rw (background_routine, failed) tt
          | inr (u, updated) ↦
              rw (background_routine, updated)
                (check-IsValid Double page_hash target_of record_hash uniform_of skew_of dynamic_of
                  scan u.1 _
                  (record {
                    counts =
                        subst (Sure (λ r. Counts r.0)) updated
                          (try_update-Counts page_hash target_of s.page_visit_histogram v.counts);
                    records = v.records;
                    candidates = v.candidates;
                    recent = v.recent;
                    full_pages = v.full_pages;
                  }))
        ]

  -- The slots of a page fit a bitmap; an update of the histogram does not fault.
  pub data Call (mode : AdmissionMode) (scan_mode : Bool) (batch : ℕ)
      (s : TwoLevelAdmissionControl Double) : TwoLevelAdmissionControl Double → Type 0 where
    record_access :
        (try_lock is_in_dram : Bool) (page_id slot_id page_slot_num cxl_bf : ℕ)
        → page_slot_num ≤ max_slots_per_page
        → Call mode scan_mode batch s (
            on_record_access Double page_hash target_of record_hash uniform_of skew_of dynamic_of
              mode try_lock s page_id slot_id is_in_dram page_slot_num cxl_bf)
    page_scan :
        (try_lock is_in_dram : Bool) (page_id page_slot_num cxl_bf : ℕ)
        → page_slot_num ≤ max_slots_per_page
        → Call mode scan_mode batch s (
            on_page_access_for_scan Double page_hash target_of record_hash uniform_of skew_of
              dynamic_of mode try_lock s page_id is_in_dram page_slot_num cxl_bf)
    invalidated :
        (page_id slot_id : ℕ)
        → Call mode scan_mode batch s (
            on_record_invalidated Double page_hash target_of record_hash uniform_of skew_of
              dynamic_of s page_id slot_id)
    background :
        (ratio : Double) (decisions : List PromotionDecision) {t : TwoLevelAdmissionControl Double}
        → background_routine Double page_hash target_of record_hash uniform_of skew_of dynamic_of
            mode scan_mode batch ratio s
          ≡ some (decisions, t)
        → Call mode scan_mode batch s t

  pub data Calls (mode : AdmissionMode) (scan_mode : Bool) (batch : ℕ)
      (s : TwoLevelAdmissionControl Double) : TwoLevelAdmissionControl Double → Type 0 where
    here : Calls mode scan_mode batch s s
    next :
        {t u : TwoLevelAdmissionControl Double}
        → Calls mode scan_mode batch s t
        → Call mode scan_mode batch t u
        → Calls mode scan_mode batch s u

  Call-IsValid :
      (mode : AdmissionMode) (scan_mode : Bool) (batch : ℕ) {s t : TwoLevelAdmissionControl Double}
      → Call mode scan_mode batch s t
      → IsValid s
      → IsValid t
  Call-IsValid mode scan_mode batch (record_access try_lock in_dram page slot slots bf le) v =
      access-IsValid mode try_lock in_dram _ page slot slots bf le v
  Call-IsValid mode scan_mode batch (page_scan try_lock in_dram page slots bf le) v =
      scan-IsValid mode try_lock in_dram _ page slots bf le v
  Call-IsValid mode scan_mode batch (invalidated page slot) v = invalidated-IsValid _ page slot v
  Call-IsValid mode scan_mode batch (background ratio decisions e) v =
      subst (Sure (λ r. IsValid r.1)) e (background-IsValid mode scan_mode batch ratio _ v)

  -- In each mode, whatever calls come in whatever order, with pages of at most 512 slots, a well-formed
  -- admission control stays so: its sketches keep their size, the samples are distinct and bounded, the
  -- candidates are of distinct pages, and both recency lists agree with their indexes.
  pub Calls-IsValid :
      (mode : AdmissionMode) (scan_mode : Bool) (batch : ℕ) {s t : TwoLevelAdmissionControl Double}
      → IsValid s
      → Calls mode scan_mode batch s t
      → IsValid t
  Calls-IsValid mode scan_mode batch v here = v
  Calls-IsValid mode scan_mode batch v (next r step) =
      Call-IsValid mode scan_mode batch step (Calls-IsValid mode scan_mode batch v r)
