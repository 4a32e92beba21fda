-- ===== src/BTree/Keys/Order.antt =====
-- The order of keys: it is lexicographic, linear and strict.
use re_mlcxl.Base.{
  ℕ, suc, ◌<◌, ◌≡◌, ◌≢◌, refl, sym, ap, ◌∙◌, ◌⊎◌, inl, inr, List, [], ◌∷◌, ◌++◌, arith,
}
use Prim.Native.Nat.{compare, Ordering}
use re_mlcxl.BTree.Keys.{cmp_keys}

-- The three outcomes of a comparison of numbers.
pub compare-cases :
    (x y : ℕ)
    → ((x < y) × (compare x y ≡ Ordering.lt))
      ⊎ (((x ≡ y) × (compare x y ≡ Ordering.eq)) ⊎ ((y < x) × (compare x y ≡ Ordering.gt)))
compare-cases x y = ground arith

pub compare-lt : (x y : ℕ) → x < y → compare x y ≡ Ordering.lt
compare-lt x y h = ground arith

pub compare-gt : (x y : ℕ) → y < x → compare x y ≡ Ordering.gt
compare-gt x y h = ground arith

pub compare_refl : (x : ℕ) → compare x x ≡ Ordering.eq
compare_refl x = ground arith

pub compare-suc : (x y : ℕ) → compare (suc x) (suc y) ≡ compare x y
compare-suc x y = ground arith

pub lt-ne-gt : Ordering.lt ≢ Ordering.gt
lt-ne-gt e = ground arith

pub lt-ne-eq : Ordering.lt ≢ Ordering.eq
lt-ne-eq e = ground arith

pub gt-ne-eq : Ordering.gt ≢ Ordering.eq
gt-ne-eq e = ground arith

pub cmp_keys_refl : (a : List ℕ) → cmp_keys a a ≡ Ordering.eq
unfolding cmp_keys
cmp_keys_refl [] = refl
cmp_keys_refl (x ∷ a) = rw (cmp_keys, compare_refl x) (cmp_keys_refl a)

pub cmp_keys-eq : (a b : List ℕ) → cmp_keys a b ≡ Ordering.eq → a ≡ b
unfolding cmp_keys
cmp_keys-eq [] [] h = refl
cmp_keys-eq [] (y ∷ b) h = absurd (lt-ne-eq h)
cmp_keys-eq (x ∷ a) [] h = absurd (gt-ne-eq h)
cmp_keys-eq (x ∷ a) (y ∷ b) h = elim (compare-cases x y) [
  | inl less ↦ absurd (lt-ne-eq (rw (cmp_keys, less.1) at h))
  | inr (inr more) ↦ absurd (gt-ne-eq (rw (cmp_keys, more.1) at h))
  | inr (inl same) ↦
      let e = same.0 in
      ap (λ z. z ∷ a) e ∙ ap (λ c. y ∷ c) (cmp_keys-eq a b (rw (cmp_keys, same.1) at h))
]

pub cmp_keys_trans :
    (a b c : List ℕ)
    → cmp_keys a b ≡ Ordering.gt
    → cmp_keys b c ≡ Ordering.gt
    → cmp_keys a c ≡ Ordering.gt
unfolding cmp_keys
cmp_keys_trans [] [] c h g = g
cmp_keys_trans [] (y ∷ b) c h g = absurd (lt-ne-gt h)
cmp_keys_trans (x ∷ a) b [] h g = refl
cmp_keys_trans (x ∷ a) [] (z ∷ c) h g = absurd (lt-ne-gt g)
cmp_keys_trans (x ∷ a) (y ∷ b) (z ∷ c) h g = elim (compare-cases y z) [
  | inl less ↦ absurd (lt-ne-gt (rw (cmp_keys, less.1) at g))
  | inr (inr more) ↦ elim (compare-cases x y) [
    | inl below ↦ absurd (lt-ne-gt (rw (cmp_keys, below.1) at h))
    | inr (inr above) ↦
        let l = more.0 in let g = above.0 in rw (cmp_keys, compare-gt x z (omega arith)) refl
    | inr (inl level) ↦
        let l = more.0 in let e = level.0 in rw (cmp_keys, compare-gt x z (omega arith)) refl
  ]
  | inr (inl same) ↦ elim (compare-cases x y) [
    | inl below ↦ absurd (lt-ne-gt (rw (cmp_keys, below.1) at h))
    | inr (inr above) ↦
        let e = same.0 in let g = above.0 in rw (cmp_keys, compare-gt x z (omega arith)) refl
    | inr (inl level) ↦
        let rest =
          cmp_keys_trans a b c (rw (cmp_keys, level.1) at h) (rw (cmp_keys, same.1) at g) in
        rw (cmp_keys, ap (λ w. compare w z) level.0 ∙ same.1) rest
  ]
]

-- A common prefix decides nothing, and a prefix that differs decides.
pub cmp_keys-prefix : (p a s : List ℕ) → cmp_keys (p ++ a) (p ++ s) ≡ cmp_keys a s
unfolding cmp_keys
cmp_keys-prefix [] a s = refl
cmp_keys-prefix (x ∷ p) a s = rw (cmp_keys, compare_refl x) (cmp_keys-prefix p a s)

pub cmp_keys-flip : (a b : List ℕ) → cmp_keys a b ≡ Ordering.lt → cmp_keys b a ≡ Ordering.gt
unfolding cmp_keys
cmp_keys-flip [] [] h = absurd (lt-ne-eq (sym h))
cmp_keys-flip [] (y ∷ b) h = refl
cmp_keys-flip (x ∷ a) [] h = absurd (lt-ne-gt (sym h))
cmp_keys-flip (x ∷ a) (y ∷ b) h = elim (compare-cases x y) [
  | inl less ↦ rw (cmp_keys, compare-gt y x less.0) refl
  | inr (inr more) ↦ absurd (lt-ne-gt (sym (rw (cmp_keys, more.1) at h)))
  | inr (inl same) ↦
      let rest = cmp_keys-flip a b (rw (cmp_keys, same.1) at h) in
      let back : compare y x ≡ Ordering.eq = ap (λ z. compare z x) (sym same.0) ∙ compare_refl x in
      rw (cmp_keys, back) rest
]
