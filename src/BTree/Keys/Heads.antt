-- ===== src/BTree/Keys/Heads.antt =====
-- The heads of keys against the order of keys.
use re_mlcxl.Base.{
  ℕ, zero, suc, ◌+◌, ◌*◌, ◌^◌, ◌≤◌, ◌<◌, ◌≡◌, refl, sym, ap, ◌∙◌, inl, inr, List, [], ◌∷◌, length,
  arith,
}
use Prim.Native.Nat.{compare, Ordering}
use native.Mathlib.Nat.{mul-le-mul_right}
use re_mlcxl.BTree.Keys.{cmp_keys, head, IsBytes}
use re_mlcxl.BTree.Keys.Order.{compare-cases, compare-lt, compare-gt, compare-suc}

-- The leading n bytes as a number in base 256, the missing ones being zeros.
unfoldable pub leading : ℕ → List ℕ → ℕ
leading zero key = 0
leading (suc n) [] = 0
leading (suc n) (x ∷ key) = x * 256 ^ n + leading n key

leading-head : (key : List ℕ) → head key ≡ leading 4 key
unfolding head leading
leading-head [] = refl
leading-head (a ∷ []) = omega arith
leading-head (a ∷ b ∷ []) = omega arith
leading-head (a ∷ b ∷ c ∷ []) = omega arith
leading-head (a ∷ b ∷ c ∷ d ∷ rest) = omega arith

scaled : (x y p : ℕ) → x < y → x * p + p ≤ y * p
scaled x y p lt = let le = mul-le-mul_right p lt in omega arith

leading-lt : (n : ℕ) (key : List ℕ) → IsBytes key → leading n key < 256 ^ n
unfolding leading
leading-lt zero key h = omega arith
leading-lt (suc n) [] h = let ih = leading-lt n [] tt in omega arith
leading-lt (suc n) (x ∷ key) h =
    let ih = leading-lt n key h.1 in let room = scaled x 256 (256 ^ n) h.0 in omega arith

-- A smaller number of leading bytes is a smaller key.
leading-cmp_keys :
    (n : ℕ) (a b : List ℕ)
    → IsBytes a
    → IsBytes b
    → leading n a < leading n b
    → cmp_keys a b ≡ Ordering.lt
unfolding leading cmp_keys
leading-cmp_keys zero a b ha hb lt = absurd (omega arith)
leading-cmp_keys (suc n) [] [] ha hb lt = absurd (omega arith)
leading-cmp_keys (suc n) [] (y ∷ b) ha hb lt = refl
leading-cmp_keys (suc n) (x ∷ a) [] ha hb lt = absurd (omega arith)
leading-cmp_keys (suc n) (x ∷ a) (y ∷ b) ha hb lt = elim (compare-cases x y) [
  | inl less ↦ rw (cmp_keys, less.1) refl
  | inr (inr more) ↦
      let room = scaled y x (256 ^ n) more.0 in
      let last = leading-lt n b hb.1 in absurd (omega arith)
  | inr (inl same) ↦
      let e = same.0 in
      let scale : x * 256 ^ n ≡ y * 256 ^ n = ap (λ z. z * 256 ^ n) e in
      rw (cmp_keys, same.1) (leading-cmp_keys n a b ha.1 hb.1 (omega (arith, lt, scale)))
]

-- Keys with the same leading bytes are compared by their lengths, if one has no more bytes than those.
leading-length :
    (n : ℕ) (a b : List ℕ)
    → IsBytes a
    → IsBytes b
    → leading n a ≡ leading n b
    → length b ≤ n
    → cmp_keys a b ≡ compare (length a) (length b)
unfolding leading cmp_keys
leading-length n [] [] ha hb e le = refl
leading-length n (x ∷ a) [] ha hb e le = sym (compare-gt (suc (length a)) 0 (omega arith))
leading-length n [] (y ∷ b) ha hb e le = sym (compare-lt 0 (suc (length b)) (omega arith))
leading-length zero (x ∷ a) (y ∷ b) ha hb e le = absurd (omega arith)
leading-length (suc n) (x ∷ a) (y ∷ b) ha hb e le =
    let first = leading-lt n a ha.1 in
    let last = leading-lt n b hb.1 in
    elim (compare-cases x y) [
      | inl less ↦ let room = scaled x y (256 ^ n) less.0 in absurd (omega arith)
      | inr (inr more) ↦ let room = scaled y x (256 ^ n) more.0 in absurd (omega arith)
      | inr (inl same) ↦
          let eq = same.0 in
          let scale : x * 256 ^ n ≡ y * 256 ^ n = ap (λ z. z * 256 ^ n) eq in
          let ih = leading-length n a b ha.1 hb.1 (omega (arith, e, scale)) (omega arith) in
          rw (cmp_keys, same.1) (ih ∙ sym (compare-suc (length a) (length b)))
    ]

-- The heads decide as the keys do: a smaller head is a smaller key, and keys with the same head are
-- compared by their lengths, if the second has at most four bytes.
pub head-lt : (a b : List ℕ) → IsBytes a → IsBytes b → head a < head b → cmp_keys a b ≡ Ordering.lt
head-lt a b ha hb lt =
    leading-cmp_keys 4 a b ha hb (omega (arith, lt, leading-head a, leading-head b))

pub head-length :
    (a b : List ℕ)
    → IsBytes a
    → IsBytes b
    → head a ≡ head b
    → length b ≤ 4
    → cmp_keys a b ≡ compare (length a) (length b)
head-length a b ha hb e le =
    leading-length 4 a b ha hb (sym (leading-head a) ∙ e ∙ leading-head b) le
