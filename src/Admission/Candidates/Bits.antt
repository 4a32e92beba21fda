-- ===== src/Admission/Candidates/Bits.antt =====
-- The laws of the bitmaps, and the counts of a snapshot.
use re_mlcxl.Base.{
  ℕ, zero, suc, ◌*◌, ◌/◌, ◌%◌, ◌≤◌, ◌<◌, ◌≡◌, ◌≢◌, refl, ap, inl, inr, Bool, true, false, ◌&&◌,
  arith, leb, ltb, ◌==◌, if◌then◌else◌, Bool-cases, ==→eq, not-==→ne, ==-refl, subst,
}
use re_mlcxl.Admission.Candidates.{
  Bitmap, max_slots_per_page, write_bit, test_slot, write_slot, popcount, popcount_words,
  HotPageCandidate, get_distinct_accessed_slot_count,
}
use re_mlcxl.Admission.Candidates.Check.{snapshot_distinct_accessed, take_snapshot}

write_bit_ne :
    (bits : Bitmap) (s t : ℕ) (b : Bool)
    → t ≢ s
    → write_bit bits (s / 64) (s % 64) b (t / 64) (t % 64) ≡ bits (t / 64) (t % 64)
write_bit_ne bits s t b ne = elim (Bool-cases (t / 64 == s / 64)) [
  | inr differ ↦ rw differ refl
  | inl same ↦
      let e = ==→eq (t / 64) (s / 64) same in
      let other : (t % 64 == s % 64) ≡ false = ground (arith, e, ne) in rw (same, other) refl
]

-- A write of a slot's bit is seen by the tests of that slot, if the page can have it, and by no other.
pub test_slot-write_slot :
    (bits : Bitmap) (s t : ℕ) (b : Bool)
    → test_slot (write_slot bits s b) t
      ≡ (if (t == s) && ltb s max_slots_per_page then b else test_slot bits t)
unfolding test_slot write_slot
test_slot-write_slot bits s t b = elim (Bool-cases (ltb s max_slots_per_page)) [
  | inr large ↦
      let above : leb max_slots_per_page s ≡ true = ground arith in
      rw (large, above) (and_false (t == s))
  | inl small ↦
      let below : leb max_slots_per_page s ≡ false = ground arith in
      elim (Bool-cases (t == s)) [
        | inl same ↦
            let e = ==→eq t s same in
            rw (e, below, small, ==-refl s, ==-refl (s / 64), ==-refl (s % 64)) refl
        | inr differ ↦
            rw (below, small, differ)
              (ap (λ r. if leb max_slots_per_page t then false else r)
                (write_bit_ne bits s t b (not-==→ne t s differ)))
      ]
]
  where
    and_false : (u : Bool) → test_slot bits t ≡ (if u && false then b else test_slot bits t)
    and_false true = refl
    and_false false = refl

popcount-le : (n : ℕ) (bits : ℕ → Bool) → popcount n bits ≤ n
unfolding popcount
popcount-le zero bits = omega arith
popcount-le (suc n) bits = let ih = popcount-le n bits in ground arith

popcount_pos : (n k : ℕ) (bits : ℕ → Bool) → k < n → bits k ≡ true → 0 < popcount n bits
unfolding popcount
popcount_pos zero k bits lt h = absurd (omega arith)
popcount_pos (suc n) k bits lt h = elim (Bool-cases (k == n)) [
  | inl here ↦
      let e : bits n ≡ true = subst (λ m. bits m ≡ true) (==→eq k n here) h in rw e (omega arith)
  | inr before ↦ let ih = popcount_pos n k bits (ground arith) h in ground arith
]

popcount_words-le : (bits : Bitmap) (n : ℕ) → popcount_words n bits ≤ n * 64
unfolding popcount_words
popcount_words-le bits zero = omega arith
popcount_words-le bits (suc n) = omega (arith, popcount-le 64 (bits n), popcount_words-le bits n)

popcount_words_mono :
    (bits : Bitmap) (m n : ℕ) → m ≤ n → popcount_words m bits ≤ popcount_words n bits
unfolding popcount_words
popcount_words_mono bits m zero le = rw (eq_zero m le) (omega arith)
  where
    eq_zero : (m : ℕ) → m ≤ 0 → m ≡ 0
    eq_zero m le = omega arith
popcount_words_mono bits m (suc n) le = elim (Bool-cases (m == suc n)) [
  | inl same ↦ rw (==→eq m (suc n) same) (omega arith)
  | inr less ↦ let ih = popcount_words_mono bits m n (ground arith) in omega arith
]

popcount_words_strict :
    (bits : Bitmap) (m w k n : ℕ)
    → m ≤ w
    → w < n
    → k < 64
    → bits w k ≡ true
    → popcount_words m bits < popcount_words n bits
unfolding popcount_words
popcount_words_strict bits m w k n le lt small h =
    let first = popcount_words_mono bits m w le in
    let last = popcount_words_mono bits (suc w) n (omega arith) in
    let one = popcount_pos 64 k (bits w) small h in omega arith

-- The bug: for a candidate with an accessed slot at or above 192 (and below 512), the snapshot counts
-- fewer accessed slots than the candidate has, and never more than 192.
pub snapshot-lt-distinct :
    (page_id s : ℕ) (c : HotPageCandidate)
    → 192 ≤ s
    → test_slot c.distinct_accessed_slot_set s ≡ true
    → (snapshot_distinct_accessed (take_snapshot (page_id, c)) < get_distinct_accessed_slot_count c)
      × (snapshot_distinct_accessed (take_snapshot (page_id, c)) ≤ 192)
unfolding snapshot_distinct_accessed take_snapshot get_distinct_accessed_slot_count test_slot
snapshot-lt-distinct page_id s c le h =
    let small : s < 512 = ground (arith, h) in
    let bit : c.distinct_accessed_slot_set (s / 64) (s % 64) ≡ true = ground (arith, h, small) in
    (
      popcount_words_strict c.distinct_accessed_slot_set 3 (s / 64) (s % 64) 8 (omega arith)
          (omega arith) (omega arith) bit,
      popcount_words-le c.distinct_accessed_slot_set 3,
    )
