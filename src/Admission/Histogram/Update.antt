-- ===== src/Admission/Histogram/Update.antt =====
-- The histogram's operations: the periodic update, the access paths and the admission test.
use re_mlcxl.Base.{
  ℕ, suc, ◌+◌, ◌/◌, ◌≤◌, ◌<◌, ◌≡◌, refl, ap, inl, inr, Bool, true, List, [], ◌∷◌, some, arith,
  u64_mod, length, All, ltb, ◌==◌, Bool-cases, if◌then◌else◌, ltb→lt,
}
use mathlib.Core.Option
use re_mlcxl.Admission.Buckets
use re_mlcxl.Admission.Buckets.{VisitFrequencyBucketArray, get_bucket_count}
use re_mlcxl.Admission.Buckets.Valid
use re_mlcxl.Admission.Buckets.Aging.{pages, pages-aging, update-pages}
use re_mlcxl.Admission.Sketch
use re_mlcxl.Admission.Sketch.{cms_query, cms_update}
use re_mlcxl.Admission.Sketch.Counts
use re_mlcxl.Admission.Sketch.Counts.{HasRoom, query-lt, query-update, query-aging}
use re_mlcxl.Admission.SampleSet
use re_mlcxl.Admission.SampleSet.Laws
use re_mlcxl.Admission.Histogram.{
  SampledVisitHistogram, calculate_admission_threshold_coarse, calculate_admission_threshold_fine,
  build_histogram, update_sampled_visit_histogram, worker_thread_on_page_access,
  background_thread_try_update, on_page_access, should_admit_to_dram,
}
use re_mlcxl.Admission.Histogram.Coarse.{get_total_sampled_pages_lem}
use re_mlcxl.Admission.Histogram.Fine.{fine_lem}

pub record IsValid (h : SampledVisitHistogram) : Type 0 where
  pub sketch : Sketch.Counts.IsValid h.page_cms
  pub samples : SampleSet.Laws.IsValid h.sampling_set
  pub array : Buckets.Valid.IsValid h.bucket_array

-- How many snapshot entries have a count above 0.
abbrev pub visited : List (ℕ × ℕ) → ℕ
visited [] = 0
visited ((page_id, count) ∷ rest) = (if ltb 0 count then 1 else 0) + visited rest

abbrev IsWord : ℕ × ℕ → Type 0
IsWord (page_id, count) = count < u64_mod

-- Building the histogram never fails, keeps the array valid and counts each visited page once.
build_histogram_lem :
    (a : VisitFrequencyBucketArray) (snapshot : List (ℕ × ℕ))
    → Buckets.Valid.IsValid a
    → All IsWord snapshot
    → pages a.buckets + length snapshot < u64_mod
    → (b : VisitFrequencyBucketArray) × (build_histogram a snapshot ≡ some b)
      × Buckets.Valid.IsValid b
      × (pages b.buckets ≡ pages a.buckets + visited snapshot)
unfolding build_histogram
build_histogram_lem a [] v words room = (a, refl, v, omega arith)
build_histogram_lem a ((page_id, count) ∷ rest) v words room = elim (Bool-cases (ltb 0 count)) [
  | inl seen ↦
      let (b, e, vb, pb) = update-pages count v (ltb→lt 0 count seen) words.0 (omega arith) in
      let (c, e', vc, pc) = build_histogram_lem b rest vb words.1 (omega arith) in
      (c, rw (seen, e) e', vc, rw seen (omega arith))
  | inr unseen ↦
      let (c, e', vc, pc) = build_histogram_lem a rest v words.1 (omega arith) in
      (c, rw unseen e', vc, rw unseen (omega arith))
]

visited-le : (snapshot : List (ℕ × ℕ)) → visited snapshot ≤ length snapshot
visited-le [] = omega arith
visited-le ((page_id, count) ∷ rest) = ground (arith, visited-le rest)

fill-IsWord :
    (query : ℕ → ℕ) (set : List (ℕ × ℕ))
    → ((k : ℕ) → query k < u64_mod)
    → All IsWord (SampleSet.fill query set)
unfolding SampleSet.fill
fill-IsWord query [] small = tt
fill-IsWord query ((k, _) ∷ rest) small = (small k, fill-IsWord query rest small)

length-fill : (query : ℕ → ℕ) (set : List (ℕ × ℕ)) → length (SampleSet.fill query set) ≡ length set
unfolding SampleSet.fill
length-fill query [] = refl
length-fill query ((k, _) ∷ rest) = ap suc (length-fill query rest)

-- Both thresholds of a valid array exist, and the fine one is at least the coarse one.
thresholds_lem :
    (target_of : ℕ → ℕ) (b : VisitFrequencyBucketArray) (snapshot : List (ℕ × ℕ))
    → Buckets.Valid.IsValid b
    → pages b.buckets < u64_mod
    → (0 < pages b.buckets
        → (0 < target_of (pages b.buckets)) × (target_of (pages b.buckets) ≤ pages b.buckets))
    → (t : ℕ) × (calculate_admission_threshold_fine target_of b snapshot ≡ some t)
      × (calculate_admission_threshold_coarse target_of b ≤ t)
unfolding calculate_admission_threshold_fine calculate_admission_threshold_coarse
thresholds_lem target_of b snapshot v small scaled = elim (Bool-cases (pages b.buckets == 0)) [
  | inl empty ↦
      let total = get_total_sampled_pages_lem v small in
      (1, rw (total, empty) refl, rw (total, empty) (omega arith))
  | inr full ↦
      let (wanted, reach) = scaled (ground arith) in
      let (i, t, coarse, fine, refines) =
        fine_lem target_of snapshot v (ground arith) small wanted reach in
      (t, fine, omega (arith, refines.0))
]

module _ (hasher : ℕ → ℕ) (target_of : ℕ → ℕ) where
  -- The update, from what its calls give.
  update_at :
      (h : SampledVisitHistogram) {b : VisitFrequencyBucketArray} {t : ℕ}
      → build_histogram
          (Buckets.aging_visit_frequency_buckets h.bucket_array)
          (SampleSet.fill (cms_query hasher h.page_cms) h.sampling_set.depulicate_sets)
        ≡ some b
      → calculate_admission_threshold_fine target_of b
          (SampleSet.fill (cms_query hasher h.page_cms) h.sampling_set.depulicate_sets)
        ≡ some t
      → update_sampled_visit_histogram hasher target_of h
        ≡ some (record {
          page_cms = Sketch.cms_aging h.page_cms;
          sampling_set = SampleSet.reset h.sampling_set;
          bucket_array = b;
          current_admission_threshold_coarse = calculate_admission_threshold_coarse target_of b;
          current_admission_threshold_fine = t;
        })
  unfolding update_sampled_visit_histogram SampleSet.fill_sampled_page_visit_counts SampleSet.reset
  update_at h built fine =
      rw (built, update_sampled_visit_histogram, fine, update_sampled_visit_histogram) refl

  -- `UpdateSampledVisitHistogram`, from a valid histogram of `u64` cells whose page count has room for
  -- the samples, and with a target between 1 and the total for the total that the update counts, if it
  -- is above 0: it does not fault and gives a valid histogram whose fine threshold is at least the
  -- coarse one; the sampling set is empty and its counter 0; the sketch's query of every page is halved;
  -- and the buckets count the old pages less those of bucket 0, and one page more for each sampled page
  -- with a visit.
  pub update_lem :
      (h : SampledVisitHistogram)
      → IsValid h
      → HasRoom 0 h.page_cms
      → pages h.bucket_array.buckets + length h.sampling_set.depulicate_sets < u64_mod
      → ((n : ℕ)
          → n + get_bucket_count h.bucket_array.buckets 0
            ≡ pages h.bucket_array.buckets
              + visited
                  (SampleSet.fill (cms_query hasher h.page_cms) h.sampling_set.depulicate_sets)
          → 0 < n
          → (0 < target_of n) × (target_of n ≤ n))
      → (u : SampledVisitHistogram) × (update_sampled_visit_histogram hasher target_of h ≡ some u)
        × IsValid u
        × (u.current_admission_threshold_coarse ≤ u.current_admission_threshold_fine)
        × (u.sampling_set.depulicate_sets ≡ [])
        × (u.sampling_set.current_request_count ≡ 0)
        × ((page_id : ℕ)
            → cms_query hasher u.page_cms page_id ≡ cms_query hasher h.page_cms page_id / 2)
        × (pages u.bucket_array.buckets + get_bucket_count h.bucket_array.buckets 0
            ≡ pages h.bucket_array.buckets
              + visited
                  (SampleSet.fill (cms_query hasher h.page_cms) h.sampling_set.depulicate_sets))
  unfolding SampleSet.reset
  update_lem h v room small scaled =
      let query = cms_query hasher h.page_cms in
      let snapshot = SampleSet.fill query h.sampling_set.depulicate_sets in
      let len = length-fill query h.sampling_set.depulicate_sets in
      let aged = Buckets.aging_visit_frequency_buckets h.bucket_array in
      let kept = pages-aging v.array in
      let (b, built, vb, pb) =
        build_histogram_lem aged snapshot (Buckets.Valid.aging-IsValid v.array)
          (fill-IsWord query h.sampling_set.depulicate_sets (query-lt hasher h.page_cms))
          (omega arith) in
      let (t, fine, le) =
        thresholds_lem target_of b snapshot vb (omega (arith, visited-le snapshot))
          (scaled (pages b.buckets) (omega (arith, pb, kept))) in
      (
        record {
          page_cms = Sketch.cms_aging h.page_cms;
          sampling_set = SampleSet.reset h.sampling_set;
          bucket_array = b;
          current_admission_threshold_coarse = calculate_admission_threshold_coarse target_of b;
          current_admission_threshold_fine = t;
        },
        update_at h built fine,
        record {
          sketch = Sketch.Counts.aging-IsValid hasher h.page_cms v.sketch;
          samples = SampleSet.Laws.reset-IsValid h.sampling_set;
          array = vb;
        },
        le,
        refl,
        refl,
        λ page_id. (query-aging hasher h.page_cms page_id v.sketch room).0,
        omega arith,
      )

  -- A worker's access keeps the histogram valid, and never revokes an admission: a page that
  -- `ShouldAdmitToDRAM` admits is still admitted after any worker's access to any page, as long as no
  -- cell of the sketch wraps. The access leaves both thresholds.
  pub admit-worker :
      (tiering try_lock : Bool) (h : SampledVisitHistogram) (page_id accessed : ℕ)
      → IsValid h
      → HasRoom 1 h.page_cms
      → let w = worker_thread_on_page_access hasher target_of try_lock h accessed in
        IsValid w
        × (w.current_admission_threshold_coarse ≡ h.current_admission_threshold_coarse)
        × (w.current_admission_threshold_fine ≡ h.current_admission_threshold_fine)
        × (should_admit_to_dram hasher target_of tiering h page_id ≡ true
            → should_admit_to_dram hasher target_of tiering w page_id ≡ true)
  unfolding worker_thread_on_page_access should_admit_to_dram
  admit-worker tiering try_lock h page_id accessed v room =
      let (own, low, high) = query-update hasher h.page_cms accessed page_id v.sketch room in
      (
        record {
          sketch = Sketch.Counts.update-IsValid hasher h.page_cms accessed v.sketch;
          samples =
              (SampleSet.Laws.on_page_access_lem try_lock h.sampling_set accessed accessed
                v.samples).0;
          array = v.array;
        },
        refl,
        refl,
        λ admitted. ground arith,
      )

  -- The single-threaded `OnPageAccess` does what `WorkerThreadOnPageAccess` followed by
  -- `BackgroundThreadTryUpdate` does, faults included.
  pub on_page_access-worker :
      (try_lock : Bool) (h : SampledVisitHistogram) (page_id : ℕ)
      → on_page_access hasher target_of try_lock h page_id
        ≡ Option.map
            (λ (r : SampledVisitHistogram × Bool). r.0)
            (background_thread_try_update hasher target_of
              (worker_thread_on_page_access hasher target_of try_lock h page_id))
  unfolding on_page_access background_thread_try_update worker_thread_on_page_access
  on_page_access-worker try_lock h page_id = ground arith
