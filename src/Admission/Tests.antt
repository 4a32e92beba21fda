-- ===== src/Admission/Tests.antt =====
-- The theorems on two-level-admission-control at concrete inputs.
use native.Mathlib.Decide.{ℕ_discrete}
use re_mlcxl.Base.{
  ◌⊎◌, ◌≢◌, ◌^◌, ◌/◌, ◌-◌, ◌||◌, ◌==◌, add64, ltb, if◌then◌else◌, ℕ, ◌+◌, ◌<◌, ◌≤◌, ◌≡◌, refl, Bool,
  true, false, List, [], ◌∷◌, none, some, arith, length,
}
use mathlib.Core.Option
use re_mlcxl.Admission.Buckets.{
  VisitFrequencyBucketArray, get_bucket_count, aging_visit_frequency_buckets,
  update_visit_frequency_bucket, lower_bound_at, upper_bound_at, calculate_bucket_index,
}
use re_mlcxl.Admission.Buckets.Aging.{pages}
use re_mlcxl.Admission.Buckets.Valid
use re_mlcxl.Admission.Buckets.Index.{calculate_bucket_index_lem}
use re_mlcxl.Admission.Buckets.Aging.{count-aging, count-update}
use re_mlcxl.Admission.Sketch.{
  CountMinSketch, cms_query, cms_update, cms_aging, cms_reset, new_sketch,
}
use re_mlcxl.Admission.Sketch.Counts.{
  HasRoom, new_sketch-IsValid, cell-new_sketch, query-update, query-aging,
}
use re_mlcxl.Admission.Sketch.Trace.{update_all, occurrences, query-le-trace}
use re_mlcxl.Admission.SampleSet
use re_mlcxl.Admission.SampleSet.Laws
use re_mlcxl.Admission.Histogram
use re_mlcxl.Admission.SampleSet.{contains, DepulicateSet, new_sample_set, on_page_access}
use re_mlcxl.Admission.SampleSet.Laws.{new_sample_set-IsValid, on_page_access_lem}
use re_mlcxl.Admission.Histogram.{
  visit_count_in_ranges, should_admit_to_dram, background_thread_try_update,
  calculate_admission_threshold_coarse, calculate_admission_threshold_fine,
  update_sampled_visit_histogram, worker_thread_on_page_access, SampledVisitHistogram,
  new_histogram,
}
use re_mlcxl.Admission.Histogram.Coarse.{pages_from, coarse_lem}
use re_mlcxl.Admission.Histogram.Fine.{Refines, fine_lem, fine_fault}
use re_mlcxl.Admission.Histogram.Update.{visited, update_lem, admit-worker, on_page_access-worker}
use re_mlcxl.Admission.Histogram.Update

-- Two buckets, with two pages visited once and one page visited two or three times.
abbrev array : VisitFrequencyBucketArray
array = record {
  total_bucket_num = 2;
  buckets =
      record {
        bucket_index = 0;
        bucket_range_lower_bound = 1;
        bucket_range_upper_bound = 1;
        page_in_range_count = 2;
      }
      ∷ record {
        bucket_index = 1;
        bucket_range_lower_bound = 2;
        bucket_range_upper_bound = 3;
        page_in_range_count = 1;
      }
      ∷ [];
}

array-IsValid : Valid.IsValid array
array-IsValid = record {
  some_buckets = omega arith;
  few = omega arith;
  sized = refl;
  ranges = ((refl, refl, refl), ((refl, refl, refl), tt));
}

abbrev sketch : CountMinSketch
sketch = new_sketch 2 8 (11 ∷ 12 ∷ [])

sketch-HasRoom : HasRoom 1 sketch
sketch-HasRoom = λ i j hi hj. omega (arith, cell-new_sketch 2 8 (11 ∷ 12 ∷ []) i j)

sketch-HasRoom_none : HasRoom 0 sketch
sketch-HasRoom_none = λ i j hi hj. omega (arith, cell-new_sketch 2 8 (11 ∷ 12 ∷ []) i j)

abbrev histogram : SampledVisitHistogram
histogram = new_histogram sketch (new_sample_set 4 100) array

histogram-IsValid : Update.IsValid histogram
histogram-IsValid = record {
  sketch = new_sketch-IsValid 2 8 (11 ∷ 12 ∷ []) (omega arith) (omega arith);
  samples = new_sample_set-IsValid 4 100;
  array = array-IsValid;
}

abbrev one_page : ℕ → ℕ
one_page n = 1

abbrev two_pages : ℕ → ℕ
two_pages n = 2

abbrev no_pages : ℕ → ℕ
no_pages n = 0

abbrev snapshot : List (ℕ × ℕ)
snapshot = (7, 1) ∷ (8, 3) ∷ (9, 2) ∷ []

abbrev last_snapshot : List (ℕ × ℕ)
last_snapshot = (7, 2) ∷ []

abbrev trace : List ℕ
trace = 7 ∷ 9 ∷ 7 ∷ []

fine_lem_example :
    (i : ℕ) × (t : ℕ) × (calculate_admission_threshold_coarse one_page array ≡ 2 ^ i)
    × (calculate_admission_threshold_fine one_page array snapshot ≡ some t)
    × Refines
        (2 ^ i)
        (2 ^ (i + 1) - 1)
        (one_page (pages array.buckets) - pages_from array (i + 1))
        (visit_count_in_ranges (2 ^ i) (2 ^ (i + 1) - 1) snapshot)
        t
fine_lem_example =
    fine_lem {a = array} one_page snapshot array-IsValid (omega arith) (omega arith) (omega arith)
      (omega arith)

coarse_lem_example :
    (i : ℕ) × (calculate_admission_threshold_coarse two_pages array ≡ 2 ^ i)
    × (i < array.total_bucket_num)
    × (two_pages (pages array.buckets) ≤ pages_from array i)
    × ((j : ℕ)
        → i < j
        → j < array.total_bucket_num
        → pages_from array j < two_pages (pages array.buckets))
coarse_lem_example =
    coarse_lem {a = array} two_pages array-IsValid (omega arith) (omega arith) (omega arith)

fine_fault_example : calculate_admission_threshold_fine no_pages array last_snapshot ≡ none
unfolding visit_count_in_ranges
fine_fault_example =
    fine_fault {a = array} no_pages last_snapshot array-IsValid (omega arith) (omega arith) refl
      (omega arith) (omega arith)

-- A target of half of the pages, as with a DRAM tier as large as the CXL tier.
abbrev half : ℕ → ℕ
half n = n / 2

-- The same histogram with eight pages in the second bucket, and a page that was sampled.
abbrev busy_array : VisitFrequencyBucketArray
busy_array = record {
  total_bucket_num = 2;
  buckets =
      record {
        bucket_index = 0;
        bucket_range_lower_bound = 1;
        bucket_range_upper_bound = 1;
        page_in_range_count = 2;
      }
      ∷ record {
        bucket_index = 1;
        bucket_range_lower_bound = 2;
        bucket_range_upper_bound = 3;
        page_in_range_count = 8;
      }
      ∷ [];
}

abbrev samples : DepulicateSet
samples = on_page_access true (new_sample_set 4 100) 7

abbrev busy : SampledVisitHistogram
busy = new_histogram sketch samples busy_array

busy-IsValid : Update.IsValid busy
busy-IsValid = record {
  sketch = new_sketch-IsValid 2 8 (11 ∷ 12 ∷ []) (omega arith) (omega arith);
  samples = (on_page_access_lem true (new_sample_set 4 100) 7 7 (new_sample_set-IsValid 4 100)).0;
  array = record {
    some_buckets = omega arith;
    few = omega arith;
    sized = refl;
    ranges = ((refl, refl, refl), ((refl, refl, refl), tt));
  };
}

-- The update counts eight pages or nine.
busy-scaled :
    (n : ℕ)
    → n + get_bucket_count busy.bucket_array.buckets 0
      ≡ pages busy.bucket_array.buckets
        + visited (
            SampleSet.fill
              (cms_query (λ (x : ℕ). x) busy.page_cms)
              busy.sampling_set.depulicate_sets)
    → 0 < n
    → (0 < half n) × (half n ≤ n)
busy-scaled n total pos = (omega (arith, total), omega arith)

update_lem_example :
    (u : SampledVisitHistogram) × (update_sampled_visit_histogram (λ (x : ℕ). x) half busy ≡ some u)
    × Update.IsValid u
    × (u.current_admission_threshold_coarse ≤ u.current_admission_threshold_fine)
    × (u.sampling_set.depulicate_sets ≡ [])
    × (u.sampling_set.current_request_count ≡ 0)
    × ((page_id : ℕ)
        → cms_query (λ (x : ℕ). x) u.page_cms page_id
          ≡ cms_query (λ (x : ℕ). x) busy.page_cms page_id / 2)
    × (pages u.bucket_array.buckets + get_bucket_count busy.bucket_array.buckets 0
        ≡ pages busy.bucket_array.buckets
          + visited (
              SampleSet.fill
                (cms_query (λ (x : ℕ). x) busy.page_cms)
                busy.sampling_set.depulicate_sets))
unfolding on_page_access new_sample_set
update_lem_example =
    update_lem (λ x. x) half busy busy-IsValid sketch-HasRoom_none (omega arith) busy-scaled

admit-worker_example :
    let w = worker_thread_on_page_access (λ (x : ℕ). x) one_page true histogram 9 in
    Update.IsValid w
    × (w.current_admission_threshold_coarse ≡ histogram.current_admission_threshold_coarse)
    × (w.current_admission_threshold_fine ≡ histogram.current_admission_threshold_fine)
    × (should_admit_to_dram (λ (x : ℕ). x) one_page true histogram 7 ≡ true
        → should_admit_to_dram (λ (x : ℕ). x) one_page true w 7 ≡ true)
admit-worker_example =
    admit-worker (λ x. x) one_page true true histogram 7 9 histogram-IsValid sketch-HasRoom

on_page_access-worker_example :
    Histogram.on_page_access (λ (x : ℕ). x) one_page true histogram 7
    ≡ Option.map
        (λ (r : SampledVisitHistogram × Bool). r.0)
        (background_thread_try_update
          (λ (x : ℕ). x)
          one_page
          (worker_thread_on_page_access (λ (x : ℕ). x) one_page true histogram 7))
on_page_access-worker_example = on_page_access-worker (λ x. x) one_page true histogram 7

query-update_example :
    (cms_query (λ (x : ℕ). x) (cms_update (λ (x : ℕ). x) sketch 7) 7
      ≡ cms_query (λ (x : ℕ). x) sketch 7 + 1)
    × (cms_query (λ (x : ℕ). x) sketch 9
        ≤ cms_query (λ (x : ℕ). x) (cms_update (λ (x : ℕ). x) sketch 7) 9)
    × (cms_query (λ (x : ℕ). x) (cms_update (λ (x : ℕ). x) sketch 7) 9
        ≤ cms_query (λ (x : ℕ). x) sketch 9 + 1)
query-update_example =
    query-update (λ x. x) sketch 7 9
      (new_sketch-IsValid 2 8 (11 ∷ 12 ∷ []) (omega arith) (omega arith)) sketch-HasRoom

query-aging_example :
    (cms_query (λ (x : ℕ). x) (cms_aging sketch) 9 ≡ cms_query (λ (x : ℕ). x) sketch 9 / 2)
    × (cms_query (λ (x : ℕ). x) (cms_reset sketch) 9 ≡ 0)
query-aging_example =
    query-aging (λ x. x) sketch 9
      (new_sketch-IsValid 2 8 (11 ∷ 12 ∷ []) (omega arith) (omega arith)) sketch-HasRoom_none

query-le-trace_example :
    let s = update_all (λ (x : ℕ). x) (new_sketch 2 8 (11 ∷ 12 ∷ [])) trace in
    (occurrences ℕ_discrete 7 trace ≤ cms_query (λ (x : ℕ). x) s 7)
    × (cms_query (λ (x : ℕ). x) s 7 ≤ length trace)
query-le-trace_example =
    query-le-trace (λ x. x) ℕ_discrete 2 8 (11 ∷ 12 ∷ []) trace 7 (omega arith) (omega arith)
      (omega arith)

on_page_access_lem_example :
    let t = on_page_access true (new_sample_set 4 100) 7 in
    Laws.IsValid t
    × (t.current_request_count ≡ add64 (new_sample_set 4 100).current_request_count 1)
    × ((9 == 7) ≡ false
        → contains 9 t.depulicate_sets ≡ contains 9 (new_sample_set 4 100).depulicate_sets)
    × (contains 7 t.depulicate_sets ≡ (
        contains 7 (new_sample_set 4 100).depulicate_sets
        || (if true
            then ltb
                (length (new_sample_set 4 100).depulicate_sets)
                (new_sample_set 4 100).max_sampled_page_ids
            else false)))
on_page_access_lem_example =
    on_page_access_lem true (new_sample_set 4 100) 7 9 (new_sample_set-IsValid 4 100)

count-update_example :
    (i : ℕ) × (b : VisitFrequencyBucketArray) × (update_visit_frequency_bucket array 3 ≡ some b)
    × (lower_bound_at b.buckets i ≤ 3)
    × ((3 ≤ upper_bound_at b.buckets i) ⊎ (i + 1 ≡ b.total_bucket_num))
    × (get_bucket_count b.buckets i ≡ add64 (get_bucket_count array.buckets i) 1)
    × ((j : ℕ) → i ≢ j → get_bucket_count b.buckets j ≡ get_bucket_count array.buckets j)
count-update_example = count-update {a = array} 3 array-IsValid (omega arith) (omega arith)

count-aging_example :
    get_bucket_count (aging_visit_frequency_buckets array).buckets 0
    ≡ get_bucket_count array.buckets (0 + 1)
count-aging_example = count-aging {a = array} 0 array-IsValid

calculate_bucket_index_lem_example :
    (i : ℕ) × (calculate_bucket_index array 3 ≡ some i)
    × (i < array.total_bucket_num)
    × (2 ^ i ≤ 3)
    × ((3 < 2 ^ (i + 1)) ⊎ (i + 1 ≡ array.total_bucket_num))
calculate_bucket_index_lem_example =
    calculate_bucket_index_lem array 3 (omega arith) (omega arith) (omega arith) (omega arith)
