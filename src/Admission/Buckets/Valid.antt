-- ===== src/Admission/Buckets/Valid.antt =====
-- The invariant of the bucket array, which every operation keeps: bucket i stands at place i and
-- covers the counts from 2 ^ i to 2 ^ (i + 1) - 1.
use native.Mathlib.Nat.{one-le-pow}
use re_mlcxl.Base.{
  ℕ, zero, suc, ◌+◌, ◌^◌, ◌≤◌, ◌<◌, ◌≡◌, refl, ap, List, [], ◌∷◌, ◌++◌, some, arith, sub64, length,
  length-append, length-modify, modify, Option-cases, inl, inr, subst, ◌∙◌,
}
use re_mlcxl.Admission.Buckets.{
  VisitFrequencyBucket, VisitFrequencyBucketArray, new_bucket, emplace_buckets, new_bucket_array,
  accumulate_the_bucket, reset, lower_bound_at, upper_bound_at, update_visit_frequency_bucket,
  calculate_bucket_index, aging_loop, aging_visit_frequency_buckets, reset_buckets, reset_all,
}
use re_mlcxl.Admission.Buckets.Index.{two_pow_mono}

-- The range of the bucket at place `i`.
abbrev pub HasRange : ℕ → VisitFrequencyBucket → Type 0
HasRange i b =
    (b.bucket_index ≡ i)
    × (b.bucket_range_lower_bound ≡ 2 ^ i)
    × (b.bucket_range_upper_bound + 1 ≡ 2 ^ (i + 1))

abbrev pub HasRanges : ℕ → List VisitFrequencyBucket → Type 0
HasRanges i [] = Unit {0}
HasRanges i (b ∷ bs) = HasRange i b × HasRanges (i + 1) bs

pub record IsValid (a : VisitFrequencyBucketArray) : Type 0 where
  pub some_buckets : 0 < a.total_bucket_num
  pub few : a.total_bucket_num ≤ 63
  pub sized : length a.buckets ≡ a.total_bucket_num
  pub ranges : HasRanges 0 a.buckets

new_bucket-HasRange : (i : ℕ) → i < 63 → HasRange i (new_bucket i)
new_bucket-HasRange i h =
    let fits : 2 ^ i ≤ 2 ^ 63 = two_pow_mono i 63 (omega arith) in
    let fits' : 2 ^ (i + 1) ≤ 2 ^ 63 = two_pow_mono (i + 1) 63 (omega arith) in
    (refl, omega arith, omega (arith, one-le-pow (i + 1) 2 (omega arith)))

HasRanges-append :
    (i j : ℕ) (xs ys : List VisitFrequencyBucket)
    → i + length xs ≡ j
    → HasRanges i xs
    → HasRanges j ys
    → HasRanges i (xs ++ ys)
HasRanges-append i j [] ys e hx hy = subst (λ t. HasRanges t ys) (omega arith) hy
HasRanges-append i j (x ∷ xs) ys e hx hy =
    (hx.0, HasRanges-append (i + 1) j xs ys (omega arith) hx.1 hy)

emplace_buckets-HasRanges :
    (rounds i : ℕ) (acc : List VisitFrequencyBucket)
    → length acc ≡ i
    → i + rounds ≤ 63
    → HasRanges 0 acc
    → (length (emplace_buckets rounds i acc) ≡ i + rounds)
      × HasRanges 0 (emplace_buckets rounds i acc)
unfolding emplace_buckets
emplace_buckets-HasRanges zero i acc l few h = (omega arith, h)
emplace_buckets-HasRanges (suc rounds) i acc l few h =
    let (len, ranges) =
      emplace_buckets-HasRanges rounds (i + 1) (acc ++ (new_bucket i ∷ []))
        (omega (arith, length-append {0} acc (new_bucket i ∷ []))) (omega arith)
        (HasRanges-append 0 i acc (new_bucket i ∷ []) (omega arith) h
          (new_bucket-HasRange i (omega arith), tt)) in
    (omega arith, ranges)

-- The constructor gives a valid array for 1 to 63 buckets.
pub new_bucket_array-IsValid : (n : ℕ) → 0 < n → n ≤ 63 → IsValid (new_bucket_array n)
unfolding new_bucket_array
new_bucket_array-IsValid n pos few =
    let (len, ranges) = emplace_buckets-HasRanges n 0 [] refl (omega arith) tt in
    record { some_buckets = pos; few = few; sized = omega arith; ranges = ranges }

modify-HasRanges :
    (i : ℕ) (bs : List VisitFrequencyBucket) (j : ℕ)
    (f : VisitFrequencyBucket → VisitFrequencyBucket)
    → ((k : ℕ) (b : VisitFrequencyBucket) → HasRange k b → HasRange k (f b))
    → HasRanges i bs
    → HasRanges i (modify bs j f)
modify-HasRanges i [] j f keep h = tt
modify-HasRanges i (b ∷ bs) zero f keep h = (keep i b h.0, h.1)
modify-HasRanges i (b ∷ bs) (suc j) f keep h = (h.0, modify-HasRanges (i + 1) bs j f keep h.1)

aging_loop-HasRanges :
    (rounds i : ℕ) (bs : List VisitFrequencyBucket)
    → HasRanges 0 bs
    → HasRanges 0 (aging_loop rounds i bs)
unfolding aging_loop
aging_loop-HasRanges zero i bs h = h
aging_loop-HasRanges (suc rounds) i bs h =
    aging_loop-HasRanges rounds (i + 1) _ (modify-HasRanges 0 bs i _ (λ k b r. r) h)

pub length-aging_loop :
    (rounds i : ℕ) (bs : List VisitFrequencyBucket) → length (aging_loop rounds i bs) ≡ length bs
unfolding aging_loop
length-aging_loop zero i bs = refl
length-aging_loop (suc rounds) i bs = length-aging_loop rounds (i + 1) _ ∙ length-modify bs i _

reset_buckets-HasRanges :
    (i : ℕ) (bs : List VisitFrequencyBucket)
    → HasRanges i bs
    → (length (reset_buckets bs) ≡ length bs) × HasRanges i (reset_buckets bs)
unfolding reset_buckets
reset_buckets-HasRanges i [] h = (refl, tt)
reset_buckets-HasRanges i (b ∷ bs) h =
    let (len, ranges) = reset_buckets-HasRanges (i + 1) bs h.1 in (ap suc len, (h.0, ranges))

pub update-IsValid :
    {a b : VisitFrequencyBucketArray} (v : ℕ)
    → IsValid a
    → update_visit_frequency_bucket a v ≡ some b
    → IsValid b
unfolding update_visit_frequency_bucket
update-IsValid {a} {b} v h e = elim (Option-cases (calculate_bucket_index a v)) [
  | inl miss ↦ absurd (cc (rw (miss, update_visit_frequency_bucket) at e))
  | inr (i, hit) ↦
      let e' : record a { buckets = modify a.buckets i accumulate_the_bucket } ≡ b = ground arith in
      subst IsValid e' (record {
        some_buckets = h.some_buckets;
        few = h.few;
        sized = length-modify a.buckets i accumulate_the_bucket ∙ h.sized;
        ranges = modify-HasRanges 0 a.buckets i _ (λ k b r. r) h.ranges;
      })
]

pub aging-IsValid :
    {a : VisitFrequencyBucketArray} → IsValid a → IsValid (aging_visit_frequency_buckets a)
unfolding aging_visit_frequency_buckets
aging-IsValid {a} h = record {
  some_buckets = h.some_buckets;
  few = h.few;
  sized =
      length-modify _ _ reset
      ∙ (length-aging_loop (sub64 a.total_bucket_num 1) 0 a.buckets ∙ h.sized);
  ranges =
      modify-HasRanges 0 _ _ reset (λ k b r. r)
        (aging_loop-HasRanges (sub64 a.total_bucket_num 1) 0 a.buckets h.ranges);
}

pub reset_all-IsValid : {a : VisitFrequencyBucketArray} → IsValid a → IsValid (reset_all a)
unfolding reset_all
reset_all-IsValid {a} h =
    let (len, ranges) = reset_buckets-HasRanges 0 a.buckets h.ranges in
    record { some_buckets = h.some_buckets; few = h.few; sized = len ∙ h.sized; ranges = ranges }

HasRanges-at :
    (i : ℕ) (bs : List VisitFrequencyBucket) (j : ℕ)
    → j < length bs
    → HasRanges i bs
    → (lower_bound_at bs j ≡ 2 ^ (i + j)) × (upper_bound_at bs j + 1 ≡ 2 ^ (i + j + 1))
HasRanges-at i [] j lt h = elim lt [ ]
HasRanges-at i (b ∷ bs) zero lt h = let p : i + 0 ≡ i = omega arith in rw p (h.0.1, h.0.2)
HasRanges-at i (b ∷ bs) (suc j) lt h =
    let p : i + 1 + j ≡ i + suc j = omega arith in
    let (lo, hi) = HasRanges-at (i + 1) bs j (omega arith) h.1 in
    (
      subst (λ t. lower_bound_at bs j ≡ 2 ^ t) p lo,
      subst (λ t. upper_bound_at bs j + 1 ≡ 2 ^ (t + 1)) p hi,
    )

-- The bounds that a valid array reads at a place.
pub bounds_at :
    {a : VisitFrequencyBucketArray} (j : ℕ)
    → IsValid a
    → j < a.total_bucket_num
    → (lower_bound_at a.buckets j ≡ 2 ^ j) × (upper_bound_at a.buckets j + 1 ≡ 2 ^ (j + 1))
bounds_at {a} j h lt =
    let e : 0 + j ≡ j = omega arith in
    let s = h.sized in rw e at (HasRanges-at 0 a.buckets j (omega arith) h.ranges)
