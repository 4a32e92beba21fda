-- ===== src/Admission/Histogram/Fine.antt =====
-- The fine threshold refines the coarse one, and faults when no page is wanted.
use native.Mathlib.Nat.{pow-suc, one-le-pow}
use re_mlcxl.Base.{
  ℕ, suc, ◌+◌, ◌-◌, ◌^◌, ◌≤◌, ◌<◌, ◌≡◌, refl, ap, sym, subst, ◌∙◌, ◌⊎◌, inl, inr, false, ◌&&◌, List,
  [], ◌∷◌, none, some, arith, u64_mod, length, drop, get_or, get_elem?_in, get_elem?_out, All,
  sub64, leb, leb→le, not-leb→lt, ◌==◌, Bool-cases, not-==→ne, drop_all, ==→eq,
}
use re_mlcxl.Admission.Buckets.{
  VisitFrequencyBucket, VisitFrequencyBucketArray, lower_bound_at, upper_bound_at,
}
use re_mlcxl.Admission.Buckets.Valid.{IsValid, bounds_at}
use re_mlcxl.Admission.Buckets.Aging.{pages}
use re_mlcxl.Admission.Histogram.{
  get_total_sampled_pages, coarse_loop, critical_loop, calculate_admission_threshold_coarse,
  calculate_admission_threshold_fine, refine_threshold, visit_count_in_ranges, sort_descending,
}
use re_mlcxl.Admission.Histogram.Coarse.{
  Critical, critical, threshold_bucket, get_total_sampled_pages_lem, pages_from,
}
use re_mlcxl.Admission.Histogram.Sorting.{
  at_least, above, sort_descending-All, length-sort_descending, All-get_or, rank-sort_descending,
}

pub in_ranges-All :
    (lo hi : ℕ) (snapshot : List (ℕ × ℕ))
    → All (λ c. (lo ≤ c) × (c ≤ hi)) (visit_count_in_ranges lo hi snapshot)
unfolding visit_count_in_ranges
in_ranges-All lo hi [] = tt
in_ranges-All lo hi ((page_id, count) ∷ rest) = elim (Bool-cases (leb lo count && leb count hi)) [
  | inl within ↦ rw within ((ground arith, ground arith), in_ranges-All lo hi rest)
  | inr outside ↦ rw outside (in_ranges-All lo hi rest)
]

-- What the refinement of a bucket's bounds gives.
abbrev pub Refines : ℕ → ℕ → ℕ → List ℕ → ℕ → Type 0
Refines lo hi needed counts t =
    (lo ≤ t)
    × (t ≤ hi)
    × (((length counts ≤ needed) × (t ≡ lo))
        ⊎ ((needed ≤ at_least t counts) × (above t counts < needed)))

-- With at least one page needed, the refinement reads inside the sorted vector.
refine_threshold_lem :
    (lo hi needed : ℕ) (snapshot : List (ℕ × ℕ))
    → lo ≤ hi
    → 0 < needed
    → needed < u64_mod
    → (t : ℕ) × (refine_threshold lo hi needed snapshot ≡ some t)
      × Refines lo hi needed (visit_count_in_ranges lo hi snapshot) t
unfolding refine_threshold
refine_threshold_lem lo hi needed snapshot le pos small = elim (Bool-cases (length counts == 0)) [
  | inl empty ↦ (
    lo,
    rw empty refl,
    (omega arith, le, inl (omega (arith, ==→eq (length counts) 0 empty), refl)),
  )
  | inr full ↦ elim (Bool-cases (leb (length counts) needed)) [
    | inl few ↦
        (lo, rw (full, few) refl, (omega arith, le, inl (leb→le (length counts) needed few, refl)))
    | inr many ↦
        let at : sub64 needed 1 ≡ needed - 1 = omega arith in
        let lt : needed - 1 < length counts =
          omega (arith, not-leb→lt (length counts) needed many) in
        let sorted_lt : needed - 1 < length (sort_descending counts) =
          omega (arith, length-sort_descending counts) in
        let t = get_or (sort_descending counts) (needed - 1) 0 in
        let range =
          All-get_or (λ c. (lo ≤ c) × (c ≤ hi)) (sort_descending counts) (needed - 1)
            (sort_descending-All (λ c. (lo ≤ c) × (c ≤ hi)) counts (in_ranges-All lo hi snapshot))
            sorted_lt in
        let rank = rank-sort_descending counts (needed - 1) lt in
        (
          t,
          rw (full, many, at) (get_elem?_in (sort_descending counts) (needed - 1) 0 sorted_lt),
          (range.0, range.1, inr (omega arith, omega arith)),
        )
  ]
]
  where
    counts : List ℕ
    counts = visit_count_in_ranges lo hi snapshot

-- The pages above the critical bucket are fewer than a target above 0.
before-lt-target :
    {a : VisitFrequencyBucketArray} (target : ℕ) {i before : ℕ}
    → IsValid a
    → 0 < target
    → Critical a.buckets target a.total_bucket_num i before
    → before < target
before-lt-target {a} target {i} v pos (critical lt e r high) =
    elim (Bool-cases (i + 1 == a.total_bucket_num)) [
      | inl top ↦ omega (
        arith,
        ap pages (
            drop_all (i + 1) a.buckets
              (omega (arith, v.sized, ==→eq (i + 1) a.total_bucket_num top))),
      )
      | inr below ↦ omega (
        arith,
        high (i + 1) (omega arith) (omega (arith, not-==→ne (i + 1) a.total_bucket_num below)),
      )
    ]

place_of :
    {bs : List VisitFrequencyBucket} {target k i before : ℕ}
    → Critical bs target k i before
    → (i < k) × (before ≡ pages (drop (i + 1) bs))
place_of (critical lt e r high) = (lt, e)

-- With a target of 0 the critical bucket is the last one.
last_of : {bs : List VisitFrequencyBucket} {k i before : ℕ} → Critical bs 0 k i before → i + 1 ≡ k
last_of {k = k} {i = i} (critical lt e r high) = elim (Bool-cases (i + 1 == k)) [
  | inl top ↦ ==→eq (i + 1) k top
  | inr below ↦
      absurd (omega (arith, high (i + 1) (omega arith) (omega (arith, not-==→ne (i + 1) k below))))
]

two_pow_room : (i : ℕ) → 2 ^ i ≤ 2 ^ (i + 1) - 1
two_pow_room i =
    let e : i + 1 ≡ suc i = omega arith in
    rw (e, pow-suc) (omega (arith, one-le-pow i 2 (omega arith)))

length-in_ranges :
    (lo hi : ℕ) (snapshot : List (ℕ × ℕ))
    → length (visit_count_in_ranges lo hi snapshot) ≤ length snapshot
unfolding visit_count_in_ranges
length-in_ranges lo hi [] = omega arith
length-in_ranges lo hi ((page_id, count) ∷ rest) = ground (arith, length-in_ranges lo hi rest)

-- With no page needed, the refinement reads outside the sorted vector.
refine_threshold_fault :
    (lo hi : ℕ) (snapshot : List (ℕ × ℕ))
    → length snapshot < u64_mod
    → 0 < length (visit_count_in_ranges lo hi snapshot)
    → refine_threshold lo hi 0 snapshot ≡ none
unfolding refine_threshold
refine_threshold_fault lo hi snapshot short hit =
    let counts = visit_count_in_ranges lo hi snapshot in
    let full : (length counts == 0) ≡ false = ground arith in
    let many : leb (length counts) 0 ≡ false = ground arith in
    rw (full, many)
      (get_elem?_out (sort_descending counts) (sub64 0 1)
        (omega (arith, length-sort_descending counts, length-in_ranges lo hi snapshot)))

-- The two calculations, from what their parts give.
coarse_at :
    (a : VisitFrequencyBucketArray) (target_of : ℕ → ℕ) {tot : ℕ}
    → get_total_sampled_pages a ≡ tot
    → (tot == 0) ≡ false
    → calculate_admission_threshold_coarse target_of a
      ≡ coarse_loop a.buckets (target_of tot) a.total_bucket_num 0
unfolding calculate_admission_threshold_coarse
coarse_at a target_of total nonzero = rw (total, nonzero) refl

fine_at :
    (a : VisitFrequencyBucketArray) (target_of : ℕ → ℕ) (snapshot : List (ℕ × ℕ))
    {tot i above lo hi need : ℕ}
    → get_total_sampled_pages a ≡ tot
    → (tot == 0) ≡ false
    → critical_loop a.buckets (target_of tot) a.total_bucket_num 0 ≡ some (i, above)
    → lower_bound_at a.buckets i ≡ lo
    → upper_bound_at a.buckets i ≡ hi
    → sub64 (target_of tot) above ≡ need
    → calculate_admission_threshold_fine target_of a snapshot ≡ refine_threshold lo hi need snapshot
unfolding calculate_admission_threshold_fine
fine_at a target_of snapshot total nonzero found lo hi need =
    rw (total, nonzero, found, total, lo, hi, need) refl

-- On a valid array that counts between 1 and 2 ^ 64 - 1 pages, with a target between 1 and all pages,
-- `CalculateAdmissionThreshold_fine` reads nothing out of bounds. With 2 ^ i the coarse threshold, its
-- result t lies in bucket i (2 ^ i ≤ t < 2 ^ (i + 1)), and of the snapshot's counts in that bucket
-- either at most the needed ones (the target less the pages above the bucket) exist and t is 2 ^ i,
-- or at least the needed number are at least t and fewer than that are above t.
pub fine_lem :
    {a : VisitFrequencyBucketArray} (target_of : ℕ → ℕ) (snapshot : List (ℕ × ℕ))
    → IsValid a
    → 0 < pages a.buckets
    → pages a.buckets < u64_mod
    → 0 < target_of (pages a.buckets)
    → target_of (pages a.buckets) ≤ pages a.buckets
    → (i : ℕ) × (t : ℕ) × (calculate_admission_threshold_coarse target_of a ≡ 2 ^ i)
      × (calculate_admission_threshold_fine target_of a snapshot ≡ some t)
      × Refines
          (2 ^ i)
          (2 ^ (i + 1) - 1)
          (target_of (pages a.buckets) - pages_from a (i + 1))
          (visit_count_in_ranges (2 ^ i) (2 ^ (i + 1) - 1) snapshot)
          t
fine_lem {a} target_of snapshot v pos small wanted reach =
    let target = target_of (pages a.buckets) in
    let total = get_total_sampled_pages_lem v small in
    let nonzero : (pages a.buckets == 0) ≡ false = ground arith in
    let (i, above_it, eq, coarse, crit) = threshold_bucket target v small reach in
    let (place, e) = place_of crit in
    let low = before-lt-target target v wanted crit in
    let (lo, hi) = bounds_at i v place in
    let hi' : upper_bound_at a.buckets i ≡ 2 ^ (i + 1) - 1 = omega arith in
    let need : sub64 target above_it ≡ target - pages_from a (i + 1) = omega arith in
    let (t, found, refines) =
      refine_threshold_lem (2 ^ i) (2 ^ (i + 1) - 1) (target - pages_from a (i + 1)) snapshot
        (two_pow_room i) (omega arith) (omega arith) in
    (
      i,
      t,
      coarse_at a target_of total nonzero ∙ coarse,
      fine_at a target_of snapshot total nonzero eq lo hi' need ∙ found,
      refines,
    )

-- The bug: on a valid array that counts pages, a target of 0 makes `CalculateAdmissionThreshold_fine`
-- read outside its vector whenever the snapshot has a count in the range of the last bucket: the index
-- `remaining_needed_pages - 1` wraps to 2 ^ 64 - 1.
pub fine_fault :
    {a : VisitFrequencyBucketArray} (target_of : ℕ → ℕ) (snapshot : List (ℕ × ℕ))
    → IsValid a
    → 0 < pages a.buckets
    → pages a.buckets < u64_mod
    → target_of (pages a.buckets) ≡ 0
    → length snapshot < u64_mod
    → 0
      < length (
          visit_count_in_ranges
            (2 ^ (a.total_bucket_num - 1))
            (2 ^ (a.total_bucket_num - 1 + 1) - 1)
            snapshot)
    → calculate_admission_threshold_fine target_of a snapshot ≡ none
fine_fault {a} target_of snapshot v pos small nothing short hit =
    let total = get_total_sampled_pages_lem v small in
    let nonzero : (pages a.buckets == 0) ≡ false = ground arith in
    let (i, above_it, eq, coarse, crit) = threshold_bucket {a = a} 0 v small (omega arith) in
    let (place, e) = place_of crit in
    let last : i ≡ a.total_bucket_num - 1 = omega (arith, last_of crit) in
    let none_above : above_it ≡ 0 =
      e ∙ ap pages (drop_all (i + 1) a.buckets (omega (arith, v.sized))) in
    let (lo, hi) = bounds_at i v place in
    let hi' : upper_bound_at a.buckets i ≡ 2 ^ (i + 1) - 1 = omega arith in
    let fault =
      subst (λ k. refine_threshold (2 ^ k) (2 ^ (k + 1) - 1) 0 snapshot ≡ none) (sym last)
        (refine_threshold_fault (2 ^ (a.total_bucket_num - 1))
          (2 ^ (a.total_bucket_num - 1 + 1) - 1) snapshot short hit) in
    let searched : critical_loop a.buckets (target_of (pages a.buckets)) a.total_bucket_num 0
        ≡ some (i, above_it) =
      subst (λ (t : ℕ). critical_loop a.buckets t a.total_bucket_num 0 ≡ some (i, above_it))
        (sym nothing) eq in
    fine_at a target_of snapshot total nonzero searched lo hi' (omega arith) ∙ fault
