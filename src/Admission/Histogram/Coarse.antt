-- ===== src/Admission/Histogram/Coarse.antt =====
-- The coarse threshold is the lower bound of the highest bucket from which on the pages reach the
-- target.
use re_mlcxl.Base.{
  ℕ, zero, suc, ◌+◌, ◌^◌, ◌≤◌, ◌<◌, ◌≡◌, refl, ap, sym, subst, ◌∙◌, ◌⊎◌, inl, inr, List, [], ◌∷◌,
  none, some, arith, u64_mod, length, drop, add64, leb, ◌==◌, Bool-cases, leb→le, not-leb→lt, ==→eq,
  false, drop_all,
}
use re_mlcxl.Admission.Buckets.{
  VisitFrequencyBucket, VisitFrequencyBucketArray, get_bucket_count, lower_bound_at,
}
use re_mlcxl.Admission.Buckets.Valid.{IsValid, bounds_at}
use re_mlcxl.Admission.Buckets.Aging.{pages, pages-drop, cumulative_loop_lem}
use re_mlcxl.Admission.Histogram.{
  get_total_sampled_pages, coarse_loop, critical_loop, calculate_admission_threshold_coarse,
}

-- The pages in the buckets from a place on.
abbrev pub pages_from : VisitFrequencyBucketArray → ℕ → ℕ
pages_from a i = pages (drop i a.buckets)

-- The loop finds the highest place, below the start of its search, from which on the pages reach the
-- target, with the pages above that place.
pub data Critical (bs : List VisitFrequencyBucket) (target k i before : ℕ) : Type 0 where
  critical :
      i < k
      → before ≡ pages (drop (i + 1) bs)
      → target ≤ pages (drop i bs)
      → ((j : ℕ) → i < j → j < k → pages (drop j bs) < target)
      → Critical bs target k i before

pages-drop-le : (bs : List VisitFrequencyBucket) (i : ℕ) → pages (drop i bs) ≤ pages bs
pages-drop-le bs zero = omega arith
pages-drop-le [] (suc i) = omega arith
pages-drop-le (b ∷ bs) (suc i) = omega (arith, pages-drop-le bs i)

pages-drop_step :
    (bs : List VisitFrequencyBucket) (i : ℕ)
    → i < length bs
    → pages bs < u64_mod
    → add64 (pages (drop (i + 1) bs)) (get_bucket_count bs i) ≡ pages (drop i bs)
pages-drop_step bs i lt small = let split = pages-drop bs i lt in omega (arith, pages-drop-le bs i)

critical_loop_lem :
    (bs : List VisitFrequencyBucket) (target k before : ℕ)
    → k ≤ length bs
    → before ≡ pages (drop k bs)
    → pages bs < u64_mod
    → target ≤ pages bs
    → (0 < k) ⊎ (before < target)
    → (i : ℕ) × (above : ℕ) × (critical_loop bs target k before ≡ some (i, above))
      × Critical bs target k i above
unfolding critical_loop
critical_loop_lem bs target zero before le e small reach open_search = absurd (omega arith)
critical_loop_lem bs target (suc k) before le e small reach open_search =
    elim (Bool-cases (leb target cumulative)) [
      | inl found ↦ (
        k,
        before,
        rw found refl,
        critical (omega arith) (rw up e) (omega (arith, here, leb→le target cumulative found))
            (λ j lo hi. absurd (omega arith)),
      )
      | inr more ↦
          let (i, above, eq, crit) =
            critical_loop_lem bs target k cumulative (omega arith) here small reach
              (inr (not-leb→lt target cumulative more)) in
          (i, above, rw more eq, widen crit (not-leb→lt target cumulative more))
    ]
  where
    cumulative : ℕ
    cumulative = add64 before (get_bucket_count bs k)

    up : k + 1 ≡ suc k
    up = omega arith

    here : cumulative ≡ pages (drop k bs)
    here =
        ap (λ t. add64 t (get_bucket_count bs k)) (e ∙ ap (λ t. pages (drop t bs)) (sym up))
        ∙ pages-drop_step bs k (omega arith) small

    widen :
        {i above : ℕ}
        → Critical bs target k i above
        → cumulative < target
        → Critical bs target (suc k) i above
    widen (critical lt b r above) low = critical (omega arith) b r λ j lo hi.
        elim (Bool-cases (j == k)) [
          | inl top ↦
              subst (λ t. pages (drop t bs) < target) (sym (==→eq j k top))
                (omega (arith, here, low))
          | inr below ↦ above j lo (ground arith)
        ]

-- Both threshold calculations search the same bucket.
coarse_loop-critical :
    (bs : List VisitFrequencyBucket) (target k before : ℕ)
    → coarse_loop bs target k before ≡ (elim (critical_loop bs target k before) [
      | none ↦ lower_bound_at bs 0
      | some (i, _) ↦ lower_bound_at bs i
    ])
unfolding coarse_loop critical_loop
coarse_loop-critical bs target zero before = refl
coarse_loop-critical bs target (suc k) before =
    ground (arith, coarse_loop-critical bs target k (add64 before (get_bucket_count bs k)))

pub get_total_sampled_pages_lem :
    {a : VisitFrequencyBucketArray}
    → IsValid a
    → pages a.buckets < u64_mod
    → get_total_sampled_pages a ≡ pages a.buckets
unfolding get_total_sampled_pages
get_total_sampled_pages_lem {a} v small =
    let s = v.sized in
    cumulative_loop_lem a.buckets a.total_bucket_num 0 0 (omega arith) (omega arith) ∙ omega arith

-- The search over a valid array.
pub threshold_bucket :
    {a : VisitFrequencyBucketArray} (target : ℕ)
    → IsValid a
    → pages a.buckets < u64_mod
    → target ≤ pages a.buckets
    → (i : ℕ) × (above : ℕ) × (critical_loop a.buckets target a.total_bucket_num 0
        ≡ some (i, above))
      × (coarse_loop a.buckets target a.total_bucket_num 0 ≡ 2 ^ i)
      × Critical a.buckets target a.total_bucket_num i above
threshold_bucket {a} target v small reach =
    let s = v.sized in
    let none_above = drop_all a.total_bucket_num a.buckets (omega arith) in
    let (i, above, eq, crit) =
      critical_loop_lem a.buckets target a.total_bucket_num 0 (omega arith) (rw none_above refl)
        small reach (inl v.some_buckets) in
    let place : i < a.total_bucket_num = elim crit [ critical lt _ _ _ ↦ lt ] in
    (
      i,
      above,
      eq,
      coarse_loop-critical a.buckets target a.total_bucket_num 0 ∙ rw eq (bounds_at i v place).0,
      crit,
    )

-- `CalculateAdmissionThreshold_coarse` on a valid array that counts between 1 and 2 ^ 64 - 1 pages,
-- with a target of at most all pages, is 2 ^ i for the highest bucket i from which on at least the
-- target number of pages is counted: for each bucket above i the pages from it on are fewer than the
-- target.
pub coarse_lem :
    {a : VisitFrequencyBucketArray} (target_of : ℕ → ℕ)
    → IsValid a
    → 0 < pages a.buckets
    → pages a.buckets < u64_mod
    → target_of (pages a.buckets) ≤ pages a.buckets
    → (i : ℕ) × (calculate_admission_threshold_coarse target_of a ≡ 2 ^ i)
      × (i < a.total_bucket_num)
      × (target_of (pages a.buckets) ≤ pages_from a i)
      × ((j : ℕ) → i < j → j < a.total_bucket_num → pages_from a j < target_of (pages a.buckets))
unfolding calculate_admission_threshold_coarse
coarse_lem {a} target_of v pos small reach =
    let total = get_total_sampled_pages_lem v small in
    let (i, above, eq, coarse, crit) =
      threshold_bucket (target_of (pages a.buckets)) v small reach in
    let nonzero : (pages a.buckets == 0) ≡ false = ground arith in
    elim crit [ critical lt b r high ↦ (i, rw (total, nonzero) coarse, lt, r, high) ]
