-- ===== src/Admission/Buckets/Index.antt =====
-- `CalculateBucketIndex` finds the bucket whose range holds a visit count.
use native.Mathlib.Nat.{pow-le-pow_right}
use re_mlcxl.Base.{
  ℕ, zero, suc, ◌+◌, ◌-◌, ◌^◌, ◌≤◌, ◌<◌, ◌≡◌, refl, subst, ◌⊎◌, inl, inr, some, arith, ltb, ltb→lt,
  not-ltb→le, Bool-cases, u64_mod, sub64, leb, if◌then◌else◌, ◌&&◌,
}
use re_mlcxl.Admission.Buckets.{VisitFrequencyBucketArray, leading_zeros, calculate_bucket_index}

-- The highest set bit, from the count of leading zeros.
leading_zeros_lem :
    (k x : ℕ)
    → 0 < x
    → x < 2 ^ k
    → (e : ℕ) × (leading_zeros k x + e + 1 ≡ k) × (2 ^ e ≤ x) × (x < 2 ^ (e + 1))
unfolding leading_zeros
leading_zeros_lem zero x pos small = absurd (omega arith)
leading_zeros_lem (suc k) x pos small = elim (Bool-cases (ltb x (2 ^ k))) [
  | inl low ↦
      let (e, z, lo, hi) = leading_zeros_lem k x pos (ltb→lt x (2 ^ k) low) in
      (e, rw low (omega arith), lo, hi)
  | inr high ↦
      let p : k + 1 ≡ suc k = omega arith in
      (k, rw high (omega arith), not-ltb→le x (2 ^ k) high, rw p small)
]

pub two_pow_mono : (i j : ℕ) → i ≤ j → 2 ^ i ≤ 2 ^ j
two_pow_mono i j h = pow-le-pow_right {n = 2} (omega arith) h

pub two_pow_unique : (i j x : ℕ) → 2 ^ i ≤ x → x < 2 ^ (i + 1) → 2 ^ j ≤ x → x < 2 ^ (j + 1) → i ≡ j
two_pow_unique i j x a b c d = elim (Bool-cases (ltb i j)) [
  | inl lt ↦ absurd (omega (arith, two_pow_mono (i + 1) j (ground (arith, ltb→lt i j lt))))
  | inr ge ↦ elim (Bool-cases (ltb j i)) [
    | inl gt ↦ absurd (omega (arith, two_pow_mono (j + 1) i (ground (arith, ltb→lt j i gt))))
    | inr le ↦ omega (arith, not-ltb→le i j ge, not-ltb→le j i le)
  ]
]

-- The index computed from the exponent of the count.
index_of_exponent :
    (a : VisitFrequencyBucketArray) (v e : ℕ)
    → 0 < v
    → leading_zeros 64 v + e + 1 ≡ 64
    → 2 ^ e ≤ v
    → v < 2 ^ (e + 1)
    → calculate_bucket_index a v
      ≡ (if leb 1 e && leb a.total_bucket_num e then some (sub64 a.total_bucket_num 1) else some e)
unfolding calculate_bucket_index
index_of_exponent a v e pos z lo hi = elim (Bool-cases (leb 1 e)) [
  | inl big ↦ ground (arith, two_pow_mono 1 e)
  | inr one ↦
      let none_set : e ≡ 0 = ground arith in
      let v_low : v < 2 = subst (λ t. v < 2 ^ (t + 1)) none_set hi in ground arith
]

-- For 1 to 63 buckets and a visit count v, 0 < v < 2 ^ 64, `CalculateBucketIndex` gives an index i of the
-- array with 2 ^ i ≤ v, and v < 2 ^ (i + 1) unless i is the last bucket.
pub calculate_bucket_index_lem :
    (a : VisitFrequencyBucketArray) (v : ℕ)
    → 0 < a.total_bucket_num
    → a.total_bucket_num ≤ 63
    → 0 < v
    → v < u64_mod
    → (i : ℕ) × (calculate_bucket_index a v ≡ some i)
      × (i < a.total_bucket_num)
      × (2 ^ i ≤ v)
      × ((v < 2 ^ (i + 1)) ⊎ (i + 1 ≡ a.total_bucket_num))
calculate_bucket_index_lem a v some_buckets few pos small =
    let (e, z, lo, hi) = leading_zeros_lem 64 v pos small in
    elim (Bool-cases (leb 1 e && leb a.total_bucket_num e)) [
      | inl cut ↦ (
        a.total_bucket_num - 1,
        rw (index_of_exponent a v e pos z lo hi, cut) (ground arith),
        omega arith,
        omega (arith, two_pow_mono (a.total_bucket_num - 1) e (ground arith)),
        inr (omega arith),
      )
      | inr fits ↦
          (e, rw (index_of_exponent a v e pos z lo hi, fits) refl, ground arith, lo, inl hi)
    ]
