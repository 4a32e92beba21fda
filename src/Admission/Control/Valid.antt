-- ===== src/Admission/Control/Valid.antt =====
-- The well-formedness of the admission control, and that every operation keeps it.
use re_mlcxl.Base.{
  Sure, ℕ, ◌≤◌, inl, inr, Bool, true, false, if◌then◌else◌, Bool-cases, Option-cases, subst,
}
use re_mlcxl.Admission.Sketch
use re_mlcxl.Admission.SampleSet
use re_mlcxl.Admission.Sketch.{cms_query, cms_aging, cms_update}
use re_mlcxl.Admission.Buckets.{aging_visit_frequency_buckets}
use re_mlcxl.Admission.Histogram.{
  SampledVisitHistogram, worker_thread_on_page_access, background_thread_try_update,
  update_sampled_visit_histogram, build_histogram, calculate_admission_threshold_fine,
}
use re_mlcxl.Admission.Candidates.{max_slots_per_page, contains}
use re_mlcxl.Admission.Candidates
use re_mlcxl.Admission.Recency
use re_mlcxl.Admission.Recency.{RecencyList, touch}
use re_mlcxl.Admission.Control.{
  TwoLevelAdmissionControl, access_lru, access_page_only, count_page, pass_page_threshold, admit,
  track, epoch_boundary, check_candidates,
}

-- The sketch and the samples of the pages.
abbrev pub Counts : SampledVisitHistogram → Type 0
Counts h = Sketch.Counts.IsValid h.page_cms × SampleSet.Laws.IsValid h.sampling_set

-- Well-formed sketches, samples, candidates and recency lists.
pub record IsValid {Double : Type 0} (s : TwoLevelAdmissionControl Double) : Type 0 where
  pub counts : Counts s.page_visit_histogram
  pub records : Sketch.Counts.IsValid s.record_cms
  pub candidates : Candidates.Promote.IsValid s.dram_hot_page_candidates
  pub recent : Recency.Nodes.IsValid s.lru_candidates
  pub full_pages : Recency.Nodes.IsValid s.page_only_candidates

module _ (page_hash target_of : ℕ → ℕ) where
  worker-Counts :
      (try_lock : Bool) (h : SampledVisitHistogram) (page_id : ℕ)
      → Counts h
      → Counts (worker_thread_on_page_access page_hash target_of try_lock h page_id)
  unfolding worker_thread_on_page_access
  worker-Counts try_lock h page_id c = (
    Sketch.Counts.update-IsValid page_hash h.page_cms page_id c.0,
    (SampleSet.Laws.on_page_access_lem try_lock h.sampling_set page_id page_id c.1).0,
  )

  update-Counts :
      (h : SampledVisitHistogram)
      → Counts h
      → Sure Counts (update_sampled_visit_histogram page_hash target_of h)
  unfolding update_sampled_visit_histogram
  update-Counts h c =
      let filled =
        SampleSet.fill_sampled_page_visit_counts (cms_query page_hash h.page_cms) h.sampling_set in
      let snapshot = SampleSet.get_sampled_visit_count_snapshot filled in
      elim (Option-cases
        (build_histogram (aging_visit_frequency_buckets h.bucket_array) snapshot)) [
          | inl failed ↦ rw (update_sampled_visit_histogram, failed) tt
          | inr (buckets, built) ↦
              elim (Option-cases (calculate_admission_threshold_fine target_of buckets snapshot)) [
                | inl failed ↦ rw (update_sampled_visit_histogram, built, failed) tt
                | inr (fine, done) ↦
                    rw (update_sampled_visit_histogram, built, done)
                      (
                        Sketch.Counts.aging-IsValid page_hash h.page_cms c.0,
                        SampleSet.Laws.reset-IsValid filled,
                      )
              ]
        ]

  pub try_update-Counts :
      (h : SampledVisitHistogram)
      → Counts h
      → Sure (λ r. Counts r.0) (background_thread_try_update page_hash target_of h)
  unfolding background_thread_try_update
  try_update-Counts h c = elim (Bool-cases (SampleSet.should_trigger h.sampling_set)) [
    | inr quiet ↦ rw (background_thread_try_update, quiet) c
    | inl due ↦ elim (Option-cases (update_sampled_visit_histogram page_hash target_of h)) [
      | inl failed ↦ rw (background_thread_try_update, due, failed) tt
      | inr (u, updated) ↦
          rw (background_thread_try_update, due, updated)
            (subst (Sure Counts) updated (update-Counts h c))
    ]
  ]

touch_if :
    (b : Bool) (l : RecencyList) (page_id cxl_bf : ℕ)
    → Recency.Nodes.IsValid l
    → Recency.Nodes.IsValid (if b then touch l page_id cxl_bf else l)
touch_if true l page_id cxl_bf valid = (Recency.Refine.touch-recent l page_id cxl_bf valid).0
touch_if false l page_id cxl_bf valid = valid

module _ (Double : Type 0) (page_hash target_of : ℕ → ℕ) (record_hash : ℕ × ℕ → ℕ)
    (uniform_of skew_of : ℕ → ℕ) (dynamic_of : Double → ℕ → ℕ) where
  abbrev Control : Type 0
  Control = TwoLevelAdmissionControl Double

  pub lru-IsValid :
      (s : Control) (page_id bf : ℕ)
      → IsValid s
      → IsValid (
          access_lru Double page_hash target_of record_hash uniform_of skew_of dynamic_of s page_id
            bf)
  unfolding access_lru
  lru-IsValid s page_id bf v = record {
    counts = v.counts;
    records = v.records;
    candidates = v.candidates;
    recent = (Recency.Refine.touch-recent s.lru_candidates page_id bf v.recent).0;
    full_pages = v.full_pages;
  }

  pub page_only-IsValid :
      (try_lock : Bool) (s : Control) (page_id bf : ℕ)
      → IsValid s
      → IsValid (
          access_page_only Double page_hash target_of record_hash uniform_of skew_of dynamic_of
            try_lock s page_id bf)
  unfolding access_page_only
  page_only-IsValid try_lock s page_id bf v = record {
    counts = worker-Counts page_hash target_of try_lock s.page_visit_histogram page_id v.counts;
    records = v.records;
    candidates = v.candidates;
    recent = v.recent;
    full_pages = touch_if _ s.page_only_candidates page_id bf v.full_pages;
  }

  pub count-IsValid :
      (try_lock : Bool) (s : Control) (page_id : ℕ)
      → IsValid s
      → IsValid (
          count_page Double page_hash target_of record_hash uniform_of skew_of dynamic_of try_lock s
            page_id)
  unfolding count_page
  count-IsValid try_lock s page_id v = record {
    counts = worker-Counts page_hash target_of try_lock s.page_visit_histogram page_id v.counts;
    records = v.records;
    candidates = Candidates.Keeps.count-IsValid s.dram_hot_page_candidates v.candidates;
    recent = v.recent;
    full_pages = v.full_pages;
  }

  pub admit-IsValid :
      (s : Control) (page_id slots bf : ℕ)
      → slots ≤ max_slots_per_page
      → IsValid s
      → IsValid (
          admit Double page_hash target_of record_hash uniform_of skew_of dynamic_of s page_id slots
            bf)
  unfolding admit
  admit-IsValid s page_id slots bf le v =
      elim (Bool-cases (
        pass_page_threshold Double page_hash target_of record_hash uniform_of skew_of dynamic_of s
          page_id)) [
            | inr cold ↦ rw (admit, cold) v
            | inl hot ↦
                rw (admit, hot)
                  (record {
                    counts = v.counts;
                    records = v.records;
                    candidates =
                        Candidates.Keeps.add-IsValid s.dram_hot_page_candidates page_id _ slots bf
                          le v.candidates;
                    recent = v.recent;
                    full_pages = v.full_pages;
                  })
          ]

  pub track-IsValid :
      (s : Control) (page_id slot bf : ℕ)
      → IsValid s
      → IsValid (
          track Double page_hash target_of record_hash uniform_of skew_of dynamic_of s page_id slot
            bf)
  unfolding track Candidates.on_record_access
  track-IsValid s page_id slot bf v = record {
    counts = v.counts;
    records = Sketch.Counts.update-IsValid record_hash s.record_cms (page_id, slot) v.records;
    candidates =
        (Candidates.Once.on_record_access-Has record_hash uniform_of skew_of (λ n. n) s.record_cms
          s.dram_hot_page_candidates page_id slot bf v.candidates).0;
    recent = v.recent;
    full_pages = v.full_pages;
  }

  pub check-IsValid :
      (scan tick : Bool) (s : Control)
      → IsValid s
      → IsValid
          (check_candidates Double page_hash target_of record_hash uniform_of skew_of dynamic_of
            scan tick s).1
  unfolding check_candidates epoch_boundary
  check-IsValid scan false s v = record {
    counts = v.counts;
    records = v.records;
    candidates =
        Candidates.Keeps.check-IsValid record_hash uniform_of skew_of
          (dynamic_of s.cached_fill_ratio) s.record_cms
          s.page_visit_histogram.current_admission_threshold_fine scan s.dram_hot_page_candidates
          v.candidates;
    recent = v.recent;
    full_pages = v.full_pages;
  }
  check-IsValid scan true s v = record {
    counts = v.counts;
    records = Sketch.Counts.aging-IsValid record_hash s.record_cms v.records;
    candidates = Candidates.Keeps.clear_all-IsValid _;
    recent = v.recent;
    full_pages = v.full_pages;
  }
