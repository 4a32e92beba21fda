-- ===== src/Admission/Buckets.antt =====
-- VisitCountBucket.hpp: buckets of page visit counts, bucket n for the counts 2 ^ n to
-- 2 ^ (n + 1) - 1. The mutex and the relaxed atomics are one thread's accesses here.
pub mod Index
pub mod Aging
pub mod Valid
use re_mlcxl.Base.{
  ℕ, zero, suc, ◌+◌, ◌-◌, ◌%◌, ◌^◌, Bool, List, [], ◌∷◌, ◌++◌, Option, none, some, add64, sub64,
  u64_mod, ltb, leb, ◌==◌, if◌then◌else◌, get_elem?, modify,
}

-- `VisitFrequencyBucket`.
pub record VisitFrequencyBucket : Type 0 where
  pub bucket_index : ℕ
  pub bucket_range_lower_bound : ℕ
  pub bucket_range_upper_bound : ℕ
  pub page_in_range_count : ℕ

-- `1ULL << k`, which C++ defines below k = 64.
abbrev pub shl_one : ℕ → ℕ
shl_one k = 2 ^ k % u64_mod

-- The constructor.
abbrev pub new_bucket : ℕ → VisitFrequencyBucket
new_bucket index = record {
  bucket_index = index;
  bucket_range_lower_bound = shl_one index;
  bucket_range_upper_bound = sub64 (shl_one (index + 1)) 1;
  page_in_range_count = 0;
}

abbrev pub accumulate_the_bucket : VisitFrequencyBucket → VisitFrequencyBucket
accumulate_the_bucket b = record b { page_in_range_count = add64 b.page_in_range_count 1 }

abbrev pub set_bucket_count : ℕ → VisitFrequencyBucket → VisitFrequencyBucket
set_bucket_count count b = record b { page_in_range_count = count }

abbrev pub reset : VisitFrequencyBucket → VisitFrequencyBucket
reset b = record b { page_in_range_count = 0 }

-- `VisitFrequencyBucketArray`.
pub record VisitFrequencyBucketArray : Type 0 where
  pub total_bucket_num : ℕ
  pub buckets : List VisitFrequencyBucket

-- The constructor's loop of `emplace_back`.
pub emplace_buckets : ℕ → ℕ → List VisitFrequencyBucket → List VisitFrequencyBucket
emplace_buckets zero i acc = acc
emplace_buckets (suc rounds) i acc = emplace_buckets rounds (i + 1) (acc ++ (new_bucket i ∷ []))

unfoldable pub new_bucket_array : ℕ → VisitFrequencyBucketArray
unfolding emplace_buckets
new_bucket_array bucket_nums = record {
  total_bucket_num = bucket_nums;
  buckets = emplace_buckets bucket_nums 0 [];
}

-- `buckets[i].GetBucketCount()`. The invariant keeps every index that the code reads in range.
abbrev pub get_bucket_count : List VisitFrequencyBucket → ℕ → ℕ
get_bucket_count [] i = 0
get_bucket_count (b ∷ bs) zero = b.page_in_range_count
get_bucket_count (b ∷ bs) (suc i) = get_bucket_count bs i

-- `buckets[i].bucket_range_lower_bound`, `buckets[i].bucket_range_upper_bound`.
abbrev pub lower_bound_at : List VisitFrequencyBucket → ℕ → ℕ
lower_bound_at [] i = 0
lower_bound_at (b ∷ bs) zero = b.bucket_range_lower_bound
lower_bound_at (b ∷ bs) (suc i) = lower_bound_at bs i

abbrev pub upper_bound_at : List VisitFrequencyBucket → ℕ → ℕ
upper_bound_at [] i = 0
upper_bound_at (b ∷ bs) zero = b.bucket_range_upper_bound
upper_bound_at (b ∷ bs) (suc i) = upper_bound_at bs i

-- The leading zeros of a word of that many bits; `__builtin_clzll` is the one of 64.
pub leading_zeros : ℕ → ℕ → ℕ
leading_zeros zero x = 0
leading_zeros (suc k) x = let rest = suc (leading_zeros k x) in if ltb x (2 ^ k) then rest else 0

-- `CalculateBucketIndex`; `none` is the failed assertion.
unfoldable pub calculate_bucket_index : VisitFrequencyBucketArray → ℕ → Option ℕ
calculate_bucket_index a one_page_visit_count =
    let bucket_index = 63 - leading_zeros 64 one_page_visit_count in
    if one_page_visit_count == 0
    then none
    else if one_page_visit_count == 1
    then some 0
    else if leb a.total_bucket_num bucket_index
    then some (sub64 a.total_bucket_num 1)
    else some bucket_index

-- `UpdateVisitFrequencyBucket`.
unfoldable pub update_visit_frequency_bucket :
    VisitFrequencyBucketArray → ℕ → Option VisitFrequencyBucketArray
update_visit_frequency_bucket a one_page_visit_count =
    elim (calculate_bucket_index a one_page_visit_count) [
      | none ↦ none
      | some i ↦ some (record a { buckets = modify a.buckets i accumulate_the_bucket })
    ]

-- The loop of `GetCumulativePageCount`.
unfoldable pub cumulative_loop : List VisitFrequencyBucket → ℕ → ℕ → ℕ → ℕ
cumulative_loop bs zero i cumulative_page_count = cumulative_page_count
cumulative_loop bs (suc rounds) i cumulative_page_count =
    cumulative_loop bs rounds (i + 1) (add64 cumulative_page_count (get_bucket_count bs i))

unfoldable pub get_cumulative_page_count : VisitFrequencyBucketArray → ℕ → ℕ
unfolding cumulative_loop
get_cumulative_page_count a begin_bucket_index =
    cumulative_loop a.buckets (a.total_bucket_num - begin_bucket_index) begin_bucket_index 0

-- The loop of `AgingVisitFrequencyBuckets`.
pub aging_loop : ℕ → ℕ → List VisitFrequencyBucket → List VisitFrequencyBucket
aging_loop zero i bs = bs
aging_loop (suc rounds) i bs =
    aging_loop rounds (i + 1) (modify bs i (set_bucket_count (get_bucket_count bs (i + 1))))

unfoldable pub aging_visit_frequency_buckets : VisitFrequencyBucketArray → VisitFrequencyBucketArray
unfolding aging_loop
aging_visit_frequency_buckets a =
    let last = sub64 a.total_bucket_num 1 in
    record a { buckets = modify (aging_loop last 0 a.buckets) last reset }

reset_buckets : List VisitFrequencyBucket → List VisitFrequencyBucket
reset_buckets [] = []
reset_buckets (b ∷ bs) = reset b ∷ reset_buckets bs

-- `ResetAll`.
unfoldable pub reset_all : VisitFrequencyBucketArray → VisitFrequencyBucketArray
unfolding reset_buckets
reset_all a = record a { buckets = reset_buckets a.buckets }
