-- ===== src/Admission/Histogram/Sorting.antt =====
-- Sorting in descending order, and the rank of the element at a position.
use re_mlcxl.Base.{
  ℕ, zero, suc, ◌+◌, ◌≤◌, ◌<◌, ◌≡◌, refl, true, List, [], ◌∷◌, arith, length, get_or, All, ltb, leb,
  if◌then◌else◌, Bool-cases, leb→le, inl, inr, false,
}
use re_mlcxl.Admission.Histogram.{insert_descending, sort_descending}

-- How many elements are at least, and how many are above, a number.
abbrev pub at_least : ℕ → List ℕ → ℕ
at_least t [] = 0
at_least t (x ∷ xs) = (if leb t x then 1 else 0) + at_least t xs

abbrev pub above : ℕ → List ℕ → ℕ
above t [] = 0
above t (x ∷ xs) = (if ltb t x then 1 else 0) + above t xs

abbrev Descending : List ℕ → Type 0
Descending [] = Unit {0}
Descending (x ∷ xs) = All (λ y. y ≤ x) xs × Descending xs

module _ (P : ℕ → Type 0) where
  insert_descending-All : (x : ℕ) (xs : List ℕ) → P x → All P xs → All P (insert_descending x xs)
  unfolding insert_descending
  insert_descending-All x [] h hs = (h, tt)
  insert_descending-All x (y ∷ ys) h hs =
      elim (leb y x) as (λ b. All P (if b then x ∷ y ∷ ys else y ∷ insert_descending x ys)) [
        | true ↦ (h, hs)
        | false ↦ (hs.0, insert_descending-All x ys h hs.1)
      ]

  pub sort_descending-All : (xs : List ℕ) → All P xs → All P (sort_descending xs)
  unfolding sort_descending
  sort_descending-All [] h = tt
  sort_descending-All (x ∷ xs) h = insert_descending-All x _ h.0 (sort_descending-All xs h.1)

length-insert_descending : (x : ℕ) (xs : List ℕ) → length (insert_descending x xs) ≡ suc (length xs)
unfolding insert_descending
length-insert_descending x [] = refl
length-insert_descending x (y ∷ ys) = ground (arith, length-insert_descending x ys)

pub length-sort_descending : (xs : List ℕ) → length (sort_descending xs) ≡ length xs
unfolding sort_descending
length-sort_descending [] = refl
length-sort_descending (x ∷ xs) =
    omega (arith, length-insert_descending x (sort_descending xs), length-sort_descending xs)

at_least-insert_descending :
    (t x : ℕ) (xs : List ℕ)
    → (at_least t (insert_descending x xs) ≡ at_least t (x ∷ xs))
      × (above t (insert_descending x xs) ≡ above t (x ∷ xs))
unfolding insert_descending
at_least-insert_descending t x [] = (refl, refl)
at_least-insert_descending t x (y ∷ ys) =
    let (low, high) = at_least-insert_descending t x ys in (ground arith, ground arith)

-- Sorting keeps both counts.
pub at_least-sort_descending :
    (t : ℕ) (xs : List ℕ)
    → (at_least t (sort_descending xs) ≡ at_least t xs)
      × (above t (sort_descending xs) ≡ above t xs)
unfolding sort_descending
at_least-sort_descending t [] = (refl, refl)
at_least-sort_descending t (x ∷ xs) =
    let (low, high) = at_least-insert_descending t x (sort_descending xs) in
    let (low', high') = at_least-sort_descending t xs in (omega arith, omega arith)

All-mono : (a b : ℕ) (xs : List ℕ) → a ≤ b → All (λ y. y ≤ a) xs → All (λ y. y ≤ b) xs
All-mono a b [] h hs = tt
All-mono a b (x ∷ xs) h hs = (omega arith, All-mono a b xs h hs.1)

insert_descending-Descending :
    (x : ℕ) (xs : List ℕ) → Descending xs → Descending (insert_descending x xs)
unfolding insert_descending
insert_descending-Descending x [] d = (tt, tt)
insert_descending-Descending x (y ∷ ys) d = elim (Bool-cases (leb y x)) [
  | inl le ↦ rw le ((leb→le y x le, All-mono y x ys (leb→le y x le) d.0), d)
  | inr gt ↦ rw gt (
    insert_descending-All (λ z. z ≤ y) x ys (ground arith) d.0,
    insert_descending-Descending x ys d.1,
  )
]

pub sort_descending-Descending : (xs : List ℕ) → Descending (sort_descending xs)
unfolding sort_descending
sort_descending-Descending [] = tt
sort_descending-Descending (x ∷ xs) =
    insert_descending-Descending x (sort_descending xs) (sort_descending-Descending xs)

pub All-get_or :
    (P : ℕ → Type 0) (xs : List ℕ) (k : ℕ) → All P xs → k < length xs → P (get_or xs k 0)
All-get_or P [] k hs lt = elim lt [ ]
All-get_or P (x ∷ xs) zero hs lt = hs.0
All-get_or P (x ∷ xs) (suc k) hs lt = All-get_or P xs k hs.1 (omega arith)

above-zero : (t : ℕ) (xs : List ℕ) → All (λ y. y ≤ t) xs → above t xs ≡ 0
above-zero t [] hs = refl
above-zero t (x ∷ xs) hs = let rest = above-zero t xs hs.1 in ground arith

-- At position k of a descending list, more than k elements are at least the element there, and at
-- most k are above it.
rank_sorted :
    (xs : List ℕ) (k : ℕ)
    → Descending xs
    → k < length xs
    → (k < at_least (get_or xs k 0) xs) × (above (get_or xs k 0) xs ≤ k)
rank_sorted [] k d lt = elim lt [ ]
rank_sorted (x ∷ xs) zero d lt =
    let none_above = above-zero x xs d.0 in (ground arith, ground arith)
rank_sorted (x ∷ xs) (suc k) d lt =
    let (low, high) = rank_sorted xs k d.1 (omega arith) in
    let top : get_or xs k 0 ≤ x = All-get_or (λ y. y ≤ x) xs k d.0 (omega arith) in
    (ground arith, ground arith)

-- The same for the element at position k after sorting, counted in the unsorted list.
pub rank-sort_descending :
    (xs : List ℕ) (k : ℕ)
    → k < length xs
    → let t = get_or (sort_descending xs) k 0 in (k < at_least t xs) × (above t xs ≤ k)
rank-sort_descending xs k lt =
    let t = get_or (sort_descending xs) k 0 in
    let (low, high) = at_least-sort_descending t xs in
    let rank =
      rank_sorted (sort_descending xs) k (sort_descending-Descending xs)
        (omega (arith, length-sort_descending xs)) in
    omega arith
