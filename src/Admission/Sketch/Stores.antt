-- ===== src/Admission/Sketch/Stores.antt =====
-- The loops of `CMSAging` and `CMSReset` change every cell once.
use re_mlcxl.Base.{
  ℕ, zero, suc, ◌+◌, ◌*◌, ◌≤◌, ◌<◌, ◌≡◌, ◌≢◌, refl, ap, subst, ◌∙◌, List, inl, inr, arith, length,
  get_or, modify, length-modify, get_or-modify_self, get_or-modify_ne, ◌==◌, Bool-cases, ==→eq,
  not-==→ne,
}
use re_mlcxl.Admission.Sketch.{at, store_columns, store_rows}
use re_mlcxl.Admission.Sketch.Cells.{at_row_ne, at_column_ne, at_in_range}

module _ (f : ℕ → ℕ) (cols : ℕ) where
  length-store_columns :
      (i rounds j : ℕ) (m : List ℕ) → length (store_columns f cols i rounds j m) ≡ length m
  unfolding store_columns
  length-store_columns i zero j m = refl
  length-store_columns i (suc rounds) j m =
      length-store_columns i rounds (j + 1) _ ∙ length-modify m (at cols i j) f

  pub length-store_rows :
      (rounds i : ℕ) (m : List ℕ) → length (store_rows f cols rounds i m) ≡ length m
  unfolding store_rows
  length-store_rows zero i m = refl
  length-store_rows (suc rounds) i m =
      length-store_rows rounds (i + 1) _ ∙ length-store_columns i cols 0 m

  store_columns_before :
      (i rounds j : ℕ) (m : List ℕ) (x : ℕ)
      → x < j
      → get_or (store_columns f cols i rounds j m) (at cols i x) 0 ≡ get_or m (at cols i x) 0
  unfolding store_columns
  store_columns_before i zero j m x h = refl
  store_columns_before i (suc rounds) j m x h =
      store_columns_before i rounds (j + 1) _ x (omega arith)
      ∙ get_or-modify_ne m (at cols i j) (at cols i x) f 0 (at_column_ne cols i j x (omega arith))

  store_columns_row :
      (i rounds j : ℕ) (m : List ℕ) (r x : ℕ)
      → i ≢ r
      → x < cols
      → j + rounds ≤ cols
      → get_or (store_columns f cols i rounds j m) (at cols r x) 0 ≡ get_or m (at cols r x) 0
  unfolding store_columns
  store_columns_row i zero j m r x ne hx le = refl
  store_columns_row i (suc rounds) j m r x ne hx le =
      store_columns_row i rounds (j + 1) _ r x ne hx (omega arith)
      ∙ get_or-modify_ne m (at cols i j) (at cols r x) f 0
          (at_row_ne cols i r j x (omega arith) hx ne)

  store_columns_cell :
      (i rounds j : ℕ) (m : List ℕ) (x : ℕ)
      → j ≤ x
      → x < j + rounds
      → j + rounds ≤ cols
      → (i + 1) * cols ≤ length m
      → get_or (store_columns f cols i rounds j m) (at cols i x) 0 ≡ f (get_or m (at cols i x) 0)
  unfolding store_columns
  store_columns_cell i zero j m x lo hi le fits = absurd (omega arith)
  store_columns_cell i (suc rounds) j m x lo hi le fits = elim (Bool-cases (j == x)) [
    | inl here ↦
        store_columns_before i rounds (j + 1) (modify m (at cols i j) f) x (ground arith)
        ∙ subst
            (λ t. get_or (modify m (at cols i j) f) (at cols i t) 0 ≡ f (get_or m (at cols i t) 0))
            (==→eq j x here)
            (get_or-modify_self m (at cols i j) f 0
              (omega (arith, at_in_range cols (i + 1) i j (omega arith) (omega arith))))
    | inr later ↦
        store_columns_cell i rounds (j + 1) (modify m (at cols i j) f) x (ground arith)
          (omega arith) (omega arith) (omega (arith, length-modify m (at cols i j) f))
        ∙ ap f (
            get_or-modify_ne m (at cols i j) (at cols i x) f 0
              (at_column_ne cols i j x (not-==→ne j x later)))
  ]

  store_rows_before :
      (rounds i : ℕ) (m : List ℕ) (r x : ℕ)
      → r < i
      → x < cols
      → get_or (store_rows f cols rounds i m) (at cols r x) 0 ≡ get_or m (at cols r x) 0
  unfolding store_rows
  store_rows_before zero i m r x h hx = refl
  store_rows_before (suc rounds) i m r x h hx =
      store_rows_before rounds (i + 1) _ r x (omega arith) hx
      ∙ store_columns_row i cols 0 m r x (omega arith) hx (omega arith)

  -- Every cell of the rows that the loop visits holds `f` of what it held.
  pub store_rows_cell :
      (rounds i : ℕ) (m : List ℕ) (r x : ℕ)
      → i ≤ r
      → r < i + rounds
      → x < cols
      → (i + rounds) * cols ≤ length m
      → get_or (store_rows f cols rounds i m) (at cols r x) 0 ≡ f (get_or m (at cols r x) 0)
  unfolding store_rows
  store_rows_cell zero i m r x lo hi hx fits = absurd (omega arith)
  store_rows_cell (suc rounds) i m r x lo hi hx fits = elim (Bool-cases (i == r)) [
    | inl here ↦
        store_rows_before rounds (i + 1) next r x (ground arith) hx
        ∙ subst (λ t. get_or next (at cols t x) 0 ≡ f (get_or m (at cols t x) 0)) (==→eq i r here)
            (store_columns_cell i cols 0 m x (omega arith) (omega arith) (omega arith) row_fits)
    | inr later ↦
        store_rows_cell rounds (i + 1) next r x (ground arith) (omega arith) hx
          (omega (arith, length-store_columns i cols 0 m, shift))
        ∙ ap f (store_columns_row i cols 0 m r x (not-==→ne i r later) hx (omega arith))
  ]
    where
      next : List ℕ
      next = store_columns f cols i cols 0 m

      shift : (i + 1 + rounds) * cols ≡ (i + suc rounds) * cols
      shift = ap (λ (t : ℕ). t * cols) (omega arith)

      row_fits : (i + 1) * cols ≤ length m
      row_fits = let room : (i + 1) * cols ≤ (i + suc rounds) * cols = grind arith in omega arith
