-- ===== src/Admission/Histogram.antt =====
-- SampledVisitHistogram.hpp: the histogram of sampled page visits, and the admission thresholds
-- taken from it. `std::hash` is an argument, and so is the product of the page total with the DRAM
-- ratio, a `double` computed from the configuration and cut to a `u64` (`target_of`).
pub mod Coarse
pub mod Sorting
pub mod Fine
pub mod Update
use re_mlcxl.Base.{
  ℕ, zero, suc, ◌+◌, Bool, true, false, List, [], ◌∷◌, ◌&&◌, Option, none, some, add64, sub64,
  length, get_elem?, ltb, leb, ◌==◌, if◌then◌else◌,
}
use re_mlcxl.Admission.Buckets.{
  VisitFrequencyBucket, VisitFrequencyBucketArray, get_bucket_count, lower_bound_at, upper_bound_at,
  cumulative_loop, update_visit_frequency_bucket, aging_visit_frequency_buckets,
}
use re_mlcxl.Admission.Sketch.{CountMinSketch, cms_update, cms_query, cms_aging}
use re_mlcxl.Admission.SampleSet
use re_mlcxl.Admission.SampleSet.{DepulicateSet}

-- `SampledVisitHistogram` with the components that it refers to.
pub record SampledVisitHistogram : Type 0 where
  pub page_cms : CountMinSketch
  pub sampling_set : DepulicateSet
  pub bucket_array : VisitFrequencyBucketArray
  pub current_admission_threshold_coarse : ℕ
  pub current_admission_threshold_fine : ℕ

-- The constructor.
abbrev pub new_histogram :
    CountMinSketch → DepulicateSet → VisitFrequencyBucketArray → SampledVisitHistogram
new_histogram page_cms sampling_set bucket_array = record {
  page_cms = page_cms;
  sampling_set = sampling_set;
  bucket_array = bucket_array;
  current_admission_threshold_coarse = 1;
  current_admission_threshold_fine = 1;
}

-- `GetTotalSampledPages`, the same loop over the counts as `GetCumulativePageCount` from 0.
unfoldable pub get_total_sampled_pages : VisitFrequencyBucketArray → ℕ
get_total_sampled_pages a = cumulative_loop a.buckets a.total_bucket_num 0 0

-- The loop of `CalculateAdmissionThreshold_coarse` over i = rounds - 1 down to 0.
pub coarse_loop : List VisitFrequencyBucket → ℕ → ℕ → ℕ → ℕ
coarse_loop bs target_page_count zero cumulative_count = lower_bound_at bs 0
coarse_loop bs target_page_count (suc i) cumulative_count =
    let cumulative = add64 cumulative_count (get_bucket_count bs i) in
    let rest = coarse_loop bs target_page_count i cumulative in
    if leb target_page_count cumulative then lower_bound_at bs i else rest

-- `CalculateAdmissionThreshold_coarse`.
unfoldable pub calculate_admission_threshold_coarse : (ℕ → ℕ) → VisitFrequencyBucketArray → ℕ
unfolding coarse_loop
calculate_admission_threshold_coarse target_of a =
    let total_sampled_pages = get_total_sampled_pages a in
    if total_sampled_pages == 0
    then 1
    else coarse_loop a.buckets (target_of total_sampled_pages) a.total_bucket_num 0

-- The search for the critical bucket: its index and the pages in the buckets above it. `none` is
-- the index -1.
pub critical_loop : List VisitFrequencyBucket → ℕ → ℕ → ℕ → Option (ℕ × ℕ)
critical_loop bs target_page_count zero cumulative_before_critical = none
critical_loop bs target_page_count (suc i) cumulative_before_critical =
    let cumulative = add64 cumulative_before_critical (get_bucket_count bs i) in
    let rest = critical_loop bs target_page_count i cumulative in
    if leb target_page_count cumulative then some (i, cumulative_before_critical) else rest

-- The visit counts of the snapshot within the bounds.
unfoldable pub visit_count_in_ranges : ℕ → ℕ → List (ℕ × ℕ) → List ℕ
visit_count_in_ranges critical_lower critical_upper [] = []
visit_count_in_ranges critical_lower critical_upper ((page_id, count) ∷ rest) =
    let others = visit_count_in_ranges critical_lower critical_upper rest in
    if leb critical_lower count && leb count critical_upper then count ∷ others else others

-- `std::sort` with `std::greater`: any sort gives this list.
pub insert_descending : ℕ → List ℕ → List ℕ
insert_descending x [] = x ∷ []
insert_descending x (y ∷ ys) = if leb y x then x ∷ y ∷ ys else y ∷ insert_descending x ys

pub sort_descending : List ℕ → List ℕ
sort_descending [] = []
sort_descending (x ∷ xs) = insert_descending x (sort_descending xs)

-- The part of `CalculateAdmissionThreshold_fine` behind the search; `none` is a read outside the
-- sorted vector.
unfoldable pub refine_threshold : ℕ → ℕ → ℕ → List (ℕ × ℕ) → Option ℕ
refine_threshold critical_lower critical_upper remaining_needed_pages sampled_snapshot =
    let in_ranges = visit_count_in_ranges critical_lower critical_upper sampled_snapshot in
    if length in_ranges == 0
    then some critical_lower
    else if leb (length in_ranges) remaining_needed_pages
    then some critical_lower
    else get_elem? (sort_descending in_ranges) (sub64 remaining_needed_pages 1)

-- `CalculateAdmissionThreshold_fine`.
unfoldable pub calculate_admission_threshold_fine :
    (ℕ → ℕ) → VisitFrequencyBucketArray → List (ℕ × ℕ) → Option ℕ
calculate_admission_threshold_fine target_of a sampled_snapshot =
    let total_sampled_pages = get_total_sampled_pages a in
    let target_page_count = target_of total_sampled_pages in
    if total_sampled_pages == 0
    then some 1
    else elim (critical_loop a.buckets target_page_count a.total_bucket_num 0) [
      | none ↦ some (lower_bound_at a.buckets 0)
      | some (i, before) ↦
          refine_threshold (lower_bound_at a.buckets i) (upper_bound_at a.buckets i)
            (sub64 target_page_count before) sampled_snapshot
    ]

-- The loop that builds the histogram; `none` is a failed assertion of the bucket array.
pub build_histogram : VisitFrequencyBucketArray → List (ℕ × ℕ) → Option VisitFrequencyBucketArray
build_histogram a [] = some a
build_histogram a ((page_id, count) ∷ rest) =
    if ltb 0 count
    then (elim (update_visit_frequency_bucket a count) [
      | none ↦ none
      | some b ↦ build_histogram b rest
    ])
    else build_histogram a rest

module _ (hasher : ℕ → ℕ) (target_of : ℕ → ℕ) where
  -- `UpdateSampledVisitHistogram`; `none` is a fault of one of its calls.
  unfoldable pub update_sampled_visit_histogram :
      SampledVisitHistogram → Option SampledVisitHistogram
  update_sampled_visit_histogram h =
      let filled =
        SampleSet.fill_sampled_page_visit_counts (cms_query hasher h.page_cms) h.sampling_set in
      let snapshot = SampleSet.get_sampled_visit_count_snapshot filled in
      elim (build_histogram (aging_visit_frequency_buckets h.bucket_array) snapshot) [
        | none ↦ none
        | some buckets ↦ elim (calculate_admission_threshold_fine target_of buckets snapshot) [
          | none ↦ none
          | some fine ↦ some (record {
            page_cms = cms_aging h.page_cms;
            sampling_set = SampleSet.reset filled;
            bucket_array = buckets;
            current_admission_threshold_coarse =
                calculate_admission_threshold_coarse target_of buckets;
            current_admission_threshold_fine = fine;
          })
        ]
      ]

  -- `WorkerThreadOnPageAccess`, given whether the sampling set's lock is free.
  unfoldable pub worker_thread_on_page_access :
      Bool → SampledVisitHistogram → ℕ → SampledVisitHistogram
  worker_thread_on_page_access try_lock h page_id = record h {
    page_cms = cms_update hasher h.page_cms page_id;
    sampling_set = SampleSet.on_page_access try_lock h.sampling_set page_id;
  }

  -- `BackgroundThreadTryUpdate`.
  unfoldable pub background_thread_try_update :
      SampledVisitHistogram → Option (SampledVisitHistogram × Bool)
  background_thread_try_update h =
      if SampleSet.should_trigger h.sampling_set
      then (elim (update_sampled_visit_histogram h) [
        | none ↦ none
        | some updated ↦ some (updated, true)
      ])
      else some (h, false)

  -- `OnPageAccess`, the single-threaded version.
  unfoldable pub on_page_access : Bool → SampledVisitHistogram → ℕ → Option SampledVisitHistogram
  on_page_access try_lock h page_id =
      let counted = record h { page_cms = cms_update hasher h.page_cms page_id } in
      let sampled = record counted {
        sampling_set = SampleSet.on_page_access try_lock h.sampling_set page_id;
      } in
      if SampleSet.should_trigger sampled.sampling_set
      then update_sampled_visit_histogram sampled
      else some sampled

  -- `ShouldAdmitToDRAM`, given the tiering flag.
  unfoldable pub should_admit_to_dram : Bool → SampledVisitHistogram → ℕ → Bool
  should_admit_to_dram cxl_tiering_enabled h page_id =
      if cxl_tiering_enabled
      then leb h.current_admission_threshold_coarse (cms_query hasher h.page_cms page_id)
      else true
