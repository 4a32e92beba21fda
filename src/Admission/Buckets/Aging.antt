-- ===== src/Admission/Buckets/Aging.antt =====
-- What the operations of the bucket array do to its counts.
use re_mlcxl.Base.{
  ℕ, zero, suc, ◌+◌, ◌-◌, ◌%◌, ◌≤◌, ◌<◌, ◌≡◌, ◌≢◌, refl, ap, ◌⊎◌, inl, inr, List, [], ◌∷◌, some,
  arith, u64_mod, add64, sub64, length, drop, modify, drop_all, ◌==◌, ◌∙◌, subst, Bool-cases, ==→eq,
  not-==→ne, sym, ltb, length-modify,
}
use re_mlcxl.Admission.Buckets.{
  VisitFrequencyBucket, VisitFrequencyBucketArray, get_bucket_count, set_bucket_count,
  accumulate_the_bucket, reset, aging_loop, aging_visit_frequency_buckets, reset_buckets,
  cumulative_loop, get_cumulative_page_count, update_visit_frequency_bucket, upper_bound_at,
  lower_bound_at,
}
use re_mlcxl.Admission.Buckets.Index.{calculate_bucket_index_lem}
use re_mlcxl.Admission.Buckets.Valid.{IsValid, length-aging_loop, bounds_at, update-IsValid}

count-modify_self :
    (bs : List VisitFrequencyBucket) (i : ℕ) (f : VisitFrequencyBucket → VisitFrequencyBucket)
    (g : ℕ → ℕ)
    → ((b : VisitFrequencyBucket) → (f b).page_in_range_count ≡ g b.page_in_range_count)
    → i < length bs
    → get_bucket_count (modify bs i f) i ≡ g (get_bucket_count bs i)
count-modify_self [] i f g e h = elim h [ ]
count-modify_self (b ∷ bs) zero f g e h = e b
count-modify_self (b ∷ bs) (suc i) f g e h = count-modify_self bs i f g e (omega arith)

count-modify_ne :
    (bs : List VisitFrequencyBucket) (i j : ℕ) (f : VisitFrequencyBucket → VisitFrequencyBucket)
    → i ≢ j
    → get_bucket_count (modify bs i f) j ≡ get_bucket_count bs j
count-modify_ne [] i j f h = refl
count-modify_ne (b ∷ bs) zero zero f h = absurd (h refl)
count-modify_ne (b ∷ bs) zero (suc j) f h = refl
count-modify_ne (b ∷ bs) (suc i) zero f h = refl
count-modify_ne (b ∷ bs) (suc i) (suc j) f h = count-modify_ne bs i j f (λ e. h (ap suc e))

count_out : (bs : List VisitFrequencyBucket) (i : ℕ) → length bs ≤ i → get_bucket_count bs i ≡ 0
count_out [] i h = refl
count_out (b ∷ bs) zero h = absurd (omega arith)
count_out (b ∷ bs) (suc i) h = count_out bs i (omega arith)

-- The loop leaves the places below `i` alone.
aging_loop_below :
    (rounds i : ℕ) (bs : List VisitFrequencyBucket) (j : ℕ)
    → j < i
    → get_bucket_count (aging_loop rounds i bs) j ≡ get_bucket_count bs j
unfolding aging_loop
aging_loop_below zero i bs j h = refl
aging_loop_below (suc rounds) i bs j h =
    aging_loop_below rounds (i + 1) _ j (omega arith) ∙ count-modify_ne bs i j _ (omega arith)

aging_loop_above :
    (rounds i : ℕ) (bs : List VisitFrequencyBucket) (j : ℕ)
    → i + rounds ≤ j
    → get_bucket_count (aging_loop rounds i bs) j ≡ get_bucket_count bs j
unfolding aging_loop
aging_loop_above zero i bs j h = refl
aging_loop_above (suc rounds) i bs j h =
    aging_loop_above rounds (i + 1) _ j (omega arith) ∙ count-modify_ne bs i j _ (omega arith)

-- In each place from `i` on that the loop writes it puts the count of the next place.
aging_loop_within :
    (rounds i : ℕ) (bs : List VisitFrequencyBucket) (j : ℕ)
    → i ≤ j
    → j < i + rounds
    → i + rounds < length bs
    → get_bucket_count (aging_loop rounds i bs) j ≡ get_bucket_count bs (j + 1)
unfolding aging_loop
aging_loop_within zero i bs j lo hi fits = absurd (omega arith)
aging_loop_within (suc rounds) i bs j lo hi fits = elim (Bool-cases (i == j)) [
  | inl here ↦
      aging_loop_below rounds (i + 1) next j (ground arith)
      ∙ subst (λ t. get_bucket_count next t ≡ get_bucket_count bs (t + 1)) (==→eq i j here)
          (count-modify_self bs i (set_bucket_count (get_bucket_count bs (i + 1)))
            (λ _. get_bucket_count bs (i + 1)) (λ b. refl) (omega arith))
  | inr later ↦
      aging_loop_within rounds (i + 1) next j (ground arith) (omega arith)
        (omega (arith, length-modify bs i (set_bucket_count (get_bucket_count bs (i + 1)))))
      ∙ count-modify_ne bs i (j + 1) (set_bucket_count (get_bucket_count bs (i + 1))) (omega arith)
]
  where
    next : List VisitFrequencyBucket
    next = modify bs i (set_bucket_count (get_bucket_count bs (i + 1)))

-- `AgingVisitFrequencyBuckets` moves every count of a valid array one place down: afterwards each
-- place holds the count that stood one place above, and the last place holds 0 (past the end the
-- count reads 0).
pub count-aging :
    {a : VisitFrequencyBucketArray} (j : ℕ)
    → IsValid a
    → get_bucket_count (aging_visit_frequency_buckets a).buckets j
      ≡ get_bucket_count a.buckets (j + 1)
unfolding aging_visit_frequency_buckets
count-aging {a} j h = elim (Bool-cases (j == sub64 a.total_bucket_num 1)) [
  | inl top ↦
      let at_top : j ≡ last = ==→eq j last top in
      subst (λ t. get_bucket_count (modify aged last reset) t ≡ get_bucket_count a.buckets (t + 1))
        (sym at_top)
        (count-modify_self aged last reset (λ _. 0) (λ b. refl)
            (omega (arith, len, h.sized, h.some_buckets, h.few))
          ∙ sym (count_out a.buckets (last + 1) (omega (arith, h.sized, h.some_buckets, h.few))))
  | inr other ↦
      count-modify_ne aged last j reset (λ e. not-==→ne j last other (sym e))
      ∙ elim (Bool-cases (ltb j last)) [
        | inl below ↦
            aging_loop_within last 0 a.buckets j (omega arith) (ground arith)
              (omega (arith, h.sized, h.some_buckets, h.few))
        | inr above ↦
            count_out aged j (ground (arith, len, h.sized, h.some_buckets, h.few))
            ∙ sym
                (count_out a.buckets (j + 1) (ground (arith, len, h.sized, h.some_buckets, h.few)))
      ]
]
  where
    last : ℕ
    last = sub64 a.total_bucket_num 1

    aged : List VisitFrequencyBucket
    aged = aging_loop last 0 a.buckets

    len : length aged ≡ length a.buckets
    len = length-aging_loop last 0 a.buckets

count-reset_buckets :
    (bs : List VisitFrequencyBucket) (j : ℕ) → get_bucket_count (reset_buckets bs) j ≡ 0
unfolding reset_buckets
count-reset_buckets [] j = refl
count-reset_buckets (b ∷ bs) zero = refl
count-reset_buckets (b ∷ bs) (suc j) = count-reset_buckets bs j

-- The number of pages that the buckets count, with no wrap-around.
abbrev pub pages : List VisitFrequencyBucket → ℕ
pages [] = 0
pages (b ∷ bs) = b.page_in_range_count + pages bs

pub pages-drop :
    (bs : List VisitFrequencyBucket) (i : ℕ)
    → i < length bs
    → pages (drop i bs) ≡ get_bucket_count bs i + pages (drop (i + 1) bs)
pages-drop [] i h = elim h [ ]
pages-drop (b ∷ bs) zero h = refl
pages-drop (b ∷ bs) (suc i) h =
    let e : suc (i + 1) ≡ suc i + 1 = omega arith in
    subst (λ t. pages (drop i bs) ≡ get_bucket_count bs i + pages (drop t (b ∷ bs))) e
      (pages-drop bs i (omega arith))

pub cumulative_loop_lem :
    (bs : List VisitFrequencyBucket) (rounds i acc : ℕ)
    → i + rounds ≡ length bs
    → acc < u64_mod
    → cumulative_loop bs rounds i acc ≡ (acc + pages (drop i bs)) % u64_mod
unfolding cumulative_loop
cumulative_loop_lem bs zero i acc e small =
    let none_left = ap pages (drop_all i bs (omega arith)) in omega arith
cumulative_loop_lem bs (suc rounds) i acc e small =
    cumulative_loop_lem bs rounds (i + 1) (add64 acc (get_bucket_count bs i)) (omega arith)
      (omega arith)
    ∙ (let split = pages-drop bs i (omega arith) in omega arith)

-- `GetCumulativePageCount` is the number of pages in the buckets from its argument on, modulo 2 ^ 64.
pub get_cumulative_page_count_lem :
    {a : VisitFrequencyBucketArray} (i : ℕ)
    → IsValid a
    → i ≤ a.total_bucket_num
    → get_cumulative_page_count a i ≡ pages (drop i a.buckets) % u64_mod
unfolding get_cumulative_page_count
get_cumulative_page_count_lem {a} i h le =
    let s = h.sized in
    cumulative_loop_lem a.buckets (a.total_bucket_num - i) i 0 (omega arith) (omega arith)
    ∙ omega arith

-- `UpdateVisitFrequencyBucket` with a count v, 0 < v < 2 ^ 64, on a valid array adds one page to a
-- single bucket and leaves the other counts; the bucket's range holds v, or the bucket is the last
-- one and v lies above its range.
pub count-update :
    {a : VisitFrequencyBucketArray} (v : ℕ)
    → IsValid a
    → 0 < v
    → v < u64_mod
    → (i : ℕ) × (b : VisitFrequencyBucketArray) × (update_visit_frequency_bucket a v ≡ some b)
      × (lower_bound_at b.buckets i ≤ v)
      × ((v ≤ upper_bound_at b.buckets i) ⊎ (i + 1 ≡ b.total_bucket_num))
      × (get_bucket_count b.buckets i ≡ add64 (get_bucket_count a.buckets i) 1)
      × ((j : ℕ) → i ≢ j → get_bucket_count b.buckets j ≡ get_bucket_count a.buckets j)
unfolding update_visit_frequency_bucket
count-update {a} v h pos small =
    let (i, e, lt, lo, hi) = calculate_bucket_index_lem a v h.some_buckets h.few pos small in
    let b : VisitFrequencyBucketArray = record a {
      buckets = modify a.buckets i accumulate_the_bucket;
    } in
    let updated : update_visit_frequency_bucket a v ≡ some b =
      rw (e, update_visit_frequency_bucket) refl in
    let (low, high) = bounds_at i (update-IsValid v h updated) lt in
    (
      i,
      b,
      updated,
      omega arith,
      elim hi [ inl within ↦ inl (omega arith) | inr top ↦ inr top ],
      count-modify_self a.buckets i accumulate_the_bucket (λ c. add64 c 1) (λ _. refl)
          (omega (arith, h.sized)),
      λ j ne. count-modify_ne a.buckets i j accumulate_the_bucket ne,
    )

pages_zero : (ys : List VisitFrequencyBucket) → ((j : ℕ) → get_bucket_count ys j ≡ 0) → pages ys ≡ 0
pages_zero [] each = refl
pages_zero (y ∷ ys) each = omega (arith, each 0, pages_zero ys (λ j. each (suc j)))

-- Equal counts at every place make equal page numbers.
pages_ext :
    (xs ys : List VisitFrequencyBucket)
    → ((j : ℕ) → get_bucket_count xs j ≡ get_bucket_count ys j)
    → pages xs ≡ pages ys
pages_ext [] ys each = sym (pages_zero ys (λ j. sym (each j)))
pages_ext (x ∷ xs) [] each = pages_zero (x ∷ xs) each
pages_ext (x ∷ xs) (y ∷ ys) each = omega (arith, each 0, pages_ext xs ys (λ j. each (suc j)))

drop_one :
    (bs : List VisitFrequencyBucket) (j : ℕ)
    → get_bucket_count bs (j + 1) ≡ get_bucket_count (drop 1 bs) j
drop_one [] j = refl
drop_one (b ∷ bs) j = let e : j + 1 ≡ suc j = omega arith in rw e refl

-- Aging forgets the pages of bucket 0 and no other.
pub pages-aging :
    {a : VisitFrequencyBucketArray}
    → IsValid a
    → pages (aging_visit_frequency_buckets a).buckets + get_bucket_count a.buckets 0
      ≡ pages a.buckets
pages-aging {a} v =
    let same =
      pages_ext (aging_visit_frequency_buckets a).buckets (drop 1 a.buckets)
        (λ j. count-aging j v ∙ drop_one a.buckets j) in
    omega (arith, pages-drop a.buckets 0 (omega (arith, v.sized, v.some_buckets)))

pages-modify :
    (bs : List VisitFrequencyBucket) (i : ℕ)
    → i < length bs
    → get_bucket_count bs i + 1 < u64_mod
    → pages (modify bs i accumulate_the_bucket) ≡ pages bs + 1
pages-modify [] i lt small = elim lt [ ]
pages-modify (b ∷ bs) zero lt small = omega arith
pages-modify (b ∷ bs) (suc i) lt small = omega (arith, pages-modify bs i (omega arith) small)

count-le-pages : (bs : List VisitFrequencyBucket) (i : ℕ) → get_bucket_count bs i ≤ pages bs
count-le-pages [] i = omega arith
count-le-pages (b ∷ bs) zero = omega arith
count-le-pages (b ∷ bs) (suc i) = omega (arith, count-le-pages bs i)

-- An update of a valid array succeeds, keeps it valid and counts one page more.
pub update-pages :
    {a : VisitFrequencyBucketArray} (v : ℕ)
    → IsValid a
    → 0 < v
    → v < u64_mod
    → pages a.buckets + 1 < u64_mod
    → (b : VisitFrequencyBucketArray) × (update_visit_frequency_bucket a v ≡ some b)
      × IsValid b
      × (pages b.buckets ≡ pages a.buckets + 1)
unfolding update_visit_frequency_bucket
update-pages {a} v h pos small room =
    let (i, e, lt, lo, hi) = calculate_bucket_index_lem a v h.some_buckets h.few pos small in
    let b : VisitFrequencyBucketArray = record a {
      buckets = modify a.buckets i accumulate_the_bucket;
    } in
    let updated : update_visit_frequency_bucket a v ≡ some b =
      rw (e, update_visit_frequency_bucket) refl in
    (
      b,
      updated,
      update-IsValid v h updated,
      pages-modify a.buckets i (omega (arith, h.sized)) (omega (arith, count-le-pages a.buckets i)),
    )
