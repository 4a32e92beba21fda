-- ===== src/Cache/Slab/Carve.antt =====
-- The size classes and the cut of a slab.
use re_mlcxl.Base.{
  ℕ, zero, suc, ◌+◌, ◌*◌, ◌≤◌, ◌<◌, ◌≡◌, refl, List, [], ◌∷◌, length, All, arith, leb, Bool-cases,
  inl, inr,
}
use re_mlcxl.Cache.Slab.{
  block_step, min_block_size, max_block_size, num_classes, align_up, get_class_index, carve,
}

-- Every request of up to `max_block_size` bytes has a class of the array, whose blocks hold the request
-- and waste less than `block_step` bytes, except for requests below `min_block_size`.
pub get_class_index_lem :
    (bytes : ℕ)
    → bytes ≤ max_block_size
    → let block_size = min_block_size + get_class_index bytes * block_step in
      (get_class_index bytes < num_classes)
      × (align_up bytes ≡ block_size)
      × (bytes ≤ block_size)
      × (min_block_size ≤ bytes → block_size < bytes + block_step)
unfolding get_class_index align_up
get_class_index_lem bytes le = elim (Bool-cases (leb bytes 24)) [
  | inl small ↦ rw small (omega arith, omega arith, ground arith, λ lo. ground arith)
  | inr large ↦
      let lt : 24 < bytes = ground arith in
      rw large (omega arith, omega arith, omega arith, λ lo. omega arith)
]

length-carve : (start block_size n : ℕ) → length (carve start block_size n) ≡ n
unfolding carve
length-carve start block_size zero = refl
length-carve start block_size (suc n) =
    omega (arith, length-carve (start + block_size) block_size n)

-- From one block to the next there is at least the size of a block.
abbrev pub Spaced : ℕ → ℕ → List ℕ → Type 0
Spaced lo block_size [] = Unit {0}
Spaced lo block_size (p ∷ ps) = (lo ≤ p) × Spaced (p + block_size) block_size ps

Spaced-carve : (start block_size n : ℕ) → Spaced start block_size (carve start block_size n)
unfolding carve
Spaced-carve start block_size zero = tt
Spaced-carve start block_size (suc n) =
    (omega arith, Spaced-carve (start + block_size) block_size n)

within-carve :
    (start block_size n : ℕ)
    → All (λ p. (start ≤ p) × (p + block_size ≤ start + n * block_size)) (carve start block_size n)
unfolding carve
within-carve start block_size zero = tt
within-carve start block_size (suc n) = (
  (omega arith, ground arith),
  widen (carve (start + block_size) block_size n) (within-carve (start + block_size) block_size n),
)
  where
    widen :
        (ps : List ℕ)
        → All
            (λ p. (start + block_size ≤ p) × (p + block_size ≤ start + block_size + n * block_size))
            ps
        → All (λ p. (start ≤ p) × (p + block_size ≤ start + suc n * block_size)) ps
    widen [] each = tt
    widen (p ∷ ps) each = ((omega arith, ground arith), widen ps each.1)
