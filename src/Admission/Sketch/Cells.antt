-- ===== src/Admission/Sketch/Cells.antt =====
-- What the loops of the sketch do to a single cell of the matrix.
use re_mlcxl.Base.{
  ℕ, zero, suc, ◌+◌, ◌*◌, ◌≤◌, ◌<◌, ◌≡◌, ◌≢◌, refl, ap, sym, subst, ◌∙◌, List, inl, inr, arith,
  add64, length, get_or, modify, length-modify, get_or-modify_self, get_or-modify_ne, ◌==◌, ltb,
  if◌then◌else◌, Bool-cases, ==→eq, not-==→ne, ltb→lt, not-ltb→le, min,
}
use re_mlcxl.Admission.Sketch.{at, update_loop, query_loop}

at_row_lt : (cols i j x y : ℕ) → x < cols → i < j → at cols i x ≢ at cols j y
at_row_lt cols i j x y hx lt =
    let gap : (i + 1) * cols ≤ j * cols = grind arith in λ e. absurd (omega arith)

-- Two cells of different rows stand at different places.
pub at_row_ne : (cols i j x y : ℕ) → x < cols → y < cols → i ≢ j → at cols i x ≢ at cols j y
at_row_ne cols i j x y hx hy ne = elim (Bool-cases (ltb i j)) [
  | inl lt ↦ at_row_lt cols i j x y hx (ltb→lt i j lt)
  | inr ge ↦ λ e. at_row_lt cols j i y x hy (omega (arith, not-ltb→le i j ge)) (sym e)
]

pub at_column_ne : (cols i x y : ℕ) → x ≢ y → at cols i x ≢ at cols i y
at_column_ne cols i x y ne = λ e. ne (omega arith)

pub at_in_range : (cols rows i x : ℕ) → i < rows → x < cols → at cols i x < rows * cols
at_in_range cols rows i x hi hx =
    let room : (i + 1) * cols ≤ rows * cols = grind arith in omega arith

module _ (cols : ℕ) (column : ℕ → ℕ) (inside : (i : ℕ) → column i < cols) where
  pub length-update_loop :
      (rounds i : ℕ) (m : List ℕ) → length (update_loop cols column rounds i m) ≡ length m
  unfolding update_loop
  length-update_loop zero i m = refl
  length-update_loop (suc rounds) i m =
      length-update_loop rounds (i + 1) _ ∙ length-modify m (at cols i (column i)) _

  update_loop_before :
      (rounds i : ℕ) (m : List ℕ) (r x : ℕ)
      → r < i
      → x < cols
      → get_or (update_loop cols column rounds i m) (at cols r x) 0 ≡ get_or m (at cols r x) 0
  unfolding update_loop
  update_loop_before zero i m r x h hx = refl
  update_loop_before (suc rounds) i m r x h hx =
      update_loop_before rounds (i + 1) _ r x (omega arith) hx
      ∙ get_or-modify_ne m (at cols i (column i)) (at cols r x) _ 0
          (at_row_ne cols i r (column i) x (inside i) hx (omega arith))

  update_row :
      (i : ℕ) (m : List ℕ) (x : ℕ)
      → at cols i (column i) < length m
      → get_or (modify m (at cols i (column i)) (λ v. add64 v 1)) (at cols i x) 0
        ≡ (if column i == x then add64 (get_or m (at cols i x) 0) 1 else get_or m (at cols i x) 0)
  update_row i m x fits = elim (Bool-cases (column i == x)) [
    | inl here ↦
        let e : column i ≡ x = ==→eq (column i) x here in
        rw here (
          subst
            (λ t.
              get_or (modify m (at cols i (column i)) (λ v. add64 v 1)) (at cols i t) 0
              ≡ add64 (get_or m (at cols i t) 0) 1)
            e (get_or-modify_self m (at cols i (column i)) (λ v. add64 v 1) 0 fits))
    | inr other ↦ rw other (
        get_or-modify_ne m (at cols i (column i)) (at cols i x) _ 0
          (at_column_ne cols i (column i) x (not-==→ne (column i) x other)))
  ]

  -- An update adds 1 to the column's cell in each row that it visits, and to no other.
  pub update_loop_cell :
      (rounds i : ℕ) (m : List ℕ) (r x : ℕ)
      → i ≤ r
      → r < i + rounds
      → x < cols
      → (i + rounds) * cols ≤ length m
      → get_or (update_loop cols column rounds i m) (at cols r x) 0
        ≡ (if column r == x then add64 (get_or m (at cols r x) 0) 1 else get_or m (at cols r x) 0)
  unfolding update_loop
  update_loop_cell zero i m r x lo hi hx fits = absurd (omega arith)
  update_loop_cell (suc rounds) i m r x lo hi hx fits = elim (Bool-cases (i == r)) [
    | inl here ↦
        update_loop_before rounds (i + 1) next r x (ground arith) hx
        ∙ subst
            (λ t. get_or next (at cols t x) 0 ≡ (
              if column t == x
              then add64 (get_or m (at cols t x) 0) 1
              else get_or m (at cols t x) 0))
            (==→eq i r here) (update_row i m x here_fits)
    | inr later ↦
        update_loop_cell rounds (i + 1) next r x (ground arith) (omega arith) hx
          (omega (arith, length-modify m (at cols i (column i)) (λ v. add64 v 1), shift))
        ∙ ap (λ t. if column r == x then add64 t 1 else t)
            (get_or-modify_ne m (at cols i (column i)) (at cols r x) _ 0
              (at_row_ne cols i r (column i) x (inside i) hx (not-==→ne i r later)))
  ]
    where
      next : List ℕ
      next = modify m (at cols i (column i)) (λ v. add64 v 1)

      shift : (i + 1 + rounds) * cols ≡ (i + suc rounds) * cols
      shift = ap (λ (t : ℕ). t * cols) (omega arith)

      here_fits : at cols i (column i) < length m
      here_fits =
          omega (arith, at_in_range cols (i + suc rounds) i (column i) (omega arith) (inside i))

module _ (cols : ℕ) (column : ℕ → ℕ) (m : List ℕ) where
  -- The query is at most its start and each cell that it visits.
  pub query_loop-le :
      (rounds i start : ℕ)
      → (query_loop cols column rounds i m start ≤ start)
        × ((r : ℕ)
            → i ≤ r
            → r < i + rounds
            → query_loop cols column rounds i m start ≤ get_or m (at cols r (column r)) 0)
  unfolding query_loop
  query_loop-le zero i start = (omega arith, λ r lo hi. absurd (omega arith))
  query_loop-le (suc rounds) i start =
      let next = min start (get_or m (at cols i (column i)) 0) in
      let (below, each) = query_loop-le rounds (i + 1) next in
      (
        omega arith,
        λ r lo hi. elim (Bool-cases (i == r)) [
          | inl here ↦
              subst
                (λ t.
                  query_loop cols column rounds (i + 1) m next ≤ get_or m (at cols t (column t)) 0)
                (==→eq i r here) (omega arith)
          | inr later ↦ each r (ground arith) (omega arith)
        ],
      )

  -- It is the greatest such number.
  pub le-query_loop :
      (rounds i start n : ℕ)
      → n ≤ start
      → ((r : ℕ) → i ≤ r → r < i + rounds → n ≤ get_or m (at cols r (column r)) 0)
      → n ≤ query_loop cols column rounds i m start
  unfolding query_loop
  le-query_loop zero i start n h each = h
  le-query_loop (suc rounds) i start n h each =
      let here = each i (omega arith) (omega arith) in
      le-query_loop rounds (i + 1) _ n (omega arith) (λ r lo hi. each r (omega arith) (omega arith))
