-- ===== src/Admission/Sketch/Counts.antt =====
-- `CMSQuery` after each of the operations.
use native.Mathlib.Nat.{mod-lt}
use re_mlcxl.Base.{
  ℕ, suc, ◌+◌, ◌-◌, ◌*◌, ◌/◌, ◌%◌, ◌≤◌, ◌<◌, ◌≡◌, refl, ap, sym, subst, ◌∙◌, List, arith, u64_mod,
  length, get_or, length-replicate, get_or-replicate, ◌==◌, if◌then◌else◌,
}
use re_mlcxl.Admission.Sketch.{
  CountMinSketch, new_sketch, at, hash, column, cms_update, cms_query, cms_aging, cms_reset,
  store_rows,
}
use re_mlcxl.Admission.Sketch.Cells.{
  update_loop_cell, length-update_loop, query_loop-le, le-query_loop,
}
use re_mlcxl.Admission.Sketch.Stores.{store_rows_cell, length-store_rows}

-- The value of the cell in a row and a column.
abbrev pub cell : CountMinSketch → ℕ → ℕ → ℕ
cell s i j = get_or s.cms_matrix (at s.cms_col_num i j) 0

-- There are rows and columns, and the matrix has a cell for each.
pub record IsValid (s : CountMinSketch) : Type 0 where
  pub some_rows : 0 < s.cms_row_num
  pub some_cols : 0 < s.cms_col_num
  pub sized : length s.cms_matrix ≡ s.cms_row_num * s.cms_col_num

-- No cell wraps within `n` more increments.
abbrev pub HasRoom : ℕ → CountMinSketch → Type 0
HasRoom n s = (i j : ℕ) → i < s.cms_row_num → j < s.cms_col_num → cell s i j + n < u64_mod

pub new_sketch-IsValid :
    (rows cols : ℕ) (seeds : List ℕ) → 0 < rows → 0 < cols → IsValid (new_sketch rows cols seeds)
unfolding new_sketch
new_sketch-IsValid rows cols seeds hr hc = record {
  some_rows = hr;
  some_cols = hc;
  sized = length-replicate (rows * cols) 0;
}

pub cell-new_sketch :
    (rows cols : ℕ) (seeds : List ℕ) (i j : ℕ) → cell (new_sketch rows cols seeds) i j ≡ 0
unfolding new_sketch
cell-new_sketch rows cols seeds i j = get_or-replicate {A = ℕ} (rows * cols) (at cols i j) 0

abbrev half : ℕ → ℕ
half old_value = old_value / 2

abbrev zeroed : ℕ → ℕ
zeroed _ = 0

module _ (f : ℕ → ℕ) (s : CountMinSketch) (v : IsValid s) where
  abbrev stored : CountMinSketch
  stored = record s { cms_matrix = store_rows f s.cms_col_num s.cms_row_num 0 s.cms_matrix }

  cell-stored : (i j : ℕ) → i < s.cms_row_num → j < s.cms_col_num → cell stored i j ≡ f (cell s i j)
  cell-stored i j hi hj =
      store_rows_cell f s.cms_col_num s.cms_row_num 0 s.cms_matrix i j (omega arith) (omega arith)
        hj
        (let e : (0 + s.cms_row_num) * s.cms_col_num ≡ s.cms_row_num * s.cms_col_num =
            ap (λ (t : ℕ). t * s.cms_col_num) (omega arith) in
          omega (arith, v.sized))

  stored-IsValid : IsValid stored
  stored-IsValid = record {
    some_rows = v.some_rows;
    some_cols = v.some_cols;
    sized = length-store_rows f s.cms_col_num s.cms_row_num 0 s.cms_matrix ∙ v.sized;
  }

module _ {K : Type 0} (hasher : K → ℕ) where
  pub column-lt :
      (s : CountMinSketch) (key : K) (i : ℕ) → IsValid s → column hasher s key i < s.cms_col_num
  unfolding column
  column-lt s key i v = mod-lt _ v.some_cols

  -- A query is at most the key's cell in each row.
  pub query-le-cell :
      (s : CountMinSketch) (key : K) (i : ℕ)
      → i < s.cms_row_num
      → cms_query hasher s key ≤ cell s i (column hasher s key i)
  unfolding cms_query
  query-le-cell s key i h =
      (query_loop-le s.cms_col_num (column hasher s key) s.cms_matrix s.cms_row_num 0
          (u64_mod - 1)).1
        i (omega arith) (omega arith)

  pub query-lt : (s : CountMinSketch) (key : K) → cms_query hasher s key < u64_mod
  unfolding cms_query
  query-lt s key = omega (
    arith,
    (query_loop-le s.cms_col_num (column hasher s key) s.cms_matrix s.cms_row_num 0
        (u64_mod - 1)).0,
  )

  -- It is the greatest number below them.
  pub le-query :
      (s : CountMinSketch) (key : K) (n : ℕ)
      → n < u64_mod
      → ((i : ℕ) → i < s.cms_row_num → n ≤ cell s i (column hasher s key i))
      → n ≤ cms_query hasher s key
  unfolding cms_query
  le-query s key n small each =
      le-query_loop s.cms_col_num (column hasher s key) s.cms_matrix s.cms_row_num 0 (u64_mod - 1) n
        (omega arith) (λ r lo hi. each r (omega arith))

  column-update :
      (s : CountMinSketch) (k key : K) (i : ℕ)
      → column hasher (cms_update hasher s k) key i ≡ column hasher s key i
  unfolding cms_update column hash
  column-update s k key i = refl

  -- An update adds 1 to one cell of each row.
  pub cell-update :
      (s : CountMinSketch) (k : K) (i j : ℕ)
      → IsValid s
      → HasRoom 1 s
      → i < s.cms_row_num
      → j < s.cms_col_num
      → cell (cms_update hasher s k) i j
        ≡ (if column hasher s k i == j then cell s i j + 1 else cell s i j)
  unfolding cms_update
  cell-update s k i j v room hi hj =
      update_loop_cell s.cms_col_num (column hasher s k) (λ r. column-lt s k r v) s.cms_row_num 0
        s.cms_matrix i j (omega arith) (omega arith) hj
        (let e : (0 + s.cms_row_num) * s.cms_col_num ≡ s.cms_row_num * s.cms_col_num =
            ap (λ (t : ℕ). t * s.cms_col_num) (omega arith) in
          omega (arith, v.sized))
      ∙ (let small : (cell s i j + 1) % u64_mod ≡ cell s i j + 1 = omega (arith, room i j hi hj) in
          ap (λ (t : ℕ). if column hasher s k i == j then t else cell s i j) small)

  cell-update_self :
      (s : CountMinSketch) (k : K) (i : ℕ)
      → IsValid s
      → HasRoom 1 s
      → i < s.cms_row_num
      → cell (cms_update hasher s k) i (column hasher (cms_update hasher s k) k i)
        ≡ cell s i (column hasher s k i) + 1
  cell-update_self s k i v room hi =
      rw (column-update s k k i)
        (ground (arith, cell-update s k i (column hasher s k i) v room hi (column-lt s k i v)))

  cell-le-update :
      (s : CountMinSketch) (k : K) (i j : ℕ)
      → IsValid s
      → HasRoom 1 s
      → i < s.cms_row_num
      → j < s.cms_col_num
      → (cell s i j ≤ cell (cms_update hasher s k) i j)
        × (cell (cms_update hasher s k) i j ≤ cell s i j + 1)
  cell-le-update s k i j v room hi hj = ground (arith, cell-update s k i j v room hi hj)

  row_num-update :
      (s : CountMinSketch) (k : K) → (cms_update hasher s k).cms_row_num ≡ s.cms_row_num
  unfolding cms_update
  row_num-update s k = refl

  col_num-update :
      (s : CountMinSketch) (k : K) → (cms_update hasher s k).cms_col_num ≡ s.cms_col_num
  unfolding cms_update
  col_num-update s k = refl

  pub update-IsValid : (s : CountMinSketch) (k : K) → IsValid s → IsValid (cms_update hasher s k)
  unfolding cms_update
  update-IsValid s k v = record {
    some_rows = v.some_rows;
    some_cols = v.some_cols;
    sized =
        length-update_loop s.cms_col_num (column hasher s k) (λ r. column-lt s k r v) s.cms_row_num
          0 s.cms_matrix
        ∙ v.sized;
  }

  query-le-next :
      (s : CountMinSketch) (k key : K)
      → IsValid s
      → HasRoom 1 s
      → cms_query hasher s key ≤ cms_query hasher (cms_update hasher s k) key
  query-le-next s k key v room =
      let first = query-le-cell s key 0 v.some_rows in
      le-query (cms_update hasher s k) key (cms_query hasher s key)
        (omega (arith, room 0 _ v.some_rows (column-lt s key 0 v)))
        (λ i hi.
          let hi' : i < s.cms_row_num = subst (λ t. i < t) (row_num-update s k) hi in
          rw (column-update s k key i) (
            omega (
              arith,
              query-le-cell s key i hi',
              (cell-le-update s k i (column hasher s key i) v room hi' (column-lt s key i v)).0,
            )))

  next-le-query :
      (s : CountMinSketch) (k key : K)
      → IsValid s
      → HasRoom 1 s
      → cms_query hasher (cms_update hasher s k) key ≤ cms_query hasher s key + 1
  next-le-query s k key v room =
      let bound : (i : ℕ)
          → i < s.cms_row_num
          → cms_query hasher (cms_update hasher s k) key ≤ cell s i (column hasher s key i) + 1 =
        λ i hi.
          let each =
            query-le-cell (cms_update hasher s k) key i
              (subst (λ t. i < t) (sym (row_num-update s k)) hi) in
          let each' = rw (column-update s k key i) at each in
          omega (
            arith,
            (cell-le-update s k i (column hasher s key i) v room hi (column-lt s key i v)).1,
          ) in
      let below =
        le-query s key (cms_query hasher (cms_update hasher s k) key - 1)
          (omega (arith, bound 0 v.some_rows, room 0 _ v.some_rows (column-lt s key 0 v)))
          (λ i hi. omega (arith, bound i hi)) in
      omega arith

  own-le-next :
      (s : CountMinSketch) (k : K)
      → IsValid s
      → HasRoom 1 s
      → cms_query hasher s k + 1 ≤ cms_query hasher (cms_update hasher s k) k
  own-le-next s k v room =
      let first = query-le-cell s k 0 v.some_rows in
      le-query (cms_update hasher s k) k (cms_query hasher s k + 1)
        (omega (arith, room 0 _ v.some_rows (column-lt s k 0 v)))
        (λ i hi.
          let hi' : i < s.cms_row_num = subst (λ t. i < t) (row_num-update s k) hi in
          omega (arith, query-le-cell s k i hi', cell-update_self s k i v room hi'))

  -- On a valid sketch in which no cell wraps, `CMSUpdate(k)` makes the query of `k` larger by exactly
  -- 1, and the query of any key larger by 0 or 1.
  pub query-update :
      (s : CountMinSketch) (k key : K)
      → IsValid s
      → HasRoom 1 s
      → (cms_query hasher (cms_update hasher s k) k ≡ cms_query hasher s k + 1)
        × (cms_query hasher s key ≤ cms_query hasher (cms_update hasher s k) key)
        × (cms_query hasher (cms_update hasher s k) key ≤ cms_query hasher s key + 1)
  query-update s k key v room = (
    omega (arith, own-le-next s k v room, next-le-query s k k v room),
    query-le-next s k key v room,
    next-le-query s k key v room,
  )

  pub aging-IsValid : (s : CountMinSketch) → IsValid s → IsValid (cms_aging s)
  unfolding cms_aging
  aging-IsValid s v = stored-IsValid half s v

  -- On a valid sketch of `u64` cells, `CMSAging` halves the query of every key (rounding down), and
  -- `CMSReset` makes it 0.
  pub query-aging :
      (s : CountMinSketch) (key : K)
      → IsValid s
      → HasRoom 0 s
      → (cms_query hasher (cms_aging s) key ≡ cms_query hasher s key / 2)
        × (cms_query hasher (cms_reset s) key ≡ 0)
  unfolding cms_aging cms_reset column hash
  query-aging s key v room =
      let col = column hasher s key in
      let low =
        le-query (stored half s v) key (cms_query hasher s key / 2)
          (omega (
            arith,
            query-le-cell s key 0 v.some_rows,
            room 0 (col 0) v.some_rows (column-lt s key 0 v),
          ))
          (λ i hi. omega (
            arith,
            query-le-cell s key i hi,
            cell-stored half s v i (col i) hi (column-lt s key i v),
          )) in
      let aged : (i : ℕ)
          → i < s.cms_row_num
          → cms_query hasher (stored half s v) key ≤ cell s i (col i) / 2 =
        λ i hi. omega (
          arith,
          query-le-cell (stored half s v) key i hi,
          cell-stored half s v i (col i) hi (column-lt s key i v),
        ) in
      let high =
        le-query s key (2 * cms_query hasher (stored half s v) key)
          (omega (arith, aged 0 v.some_rows, room 0 (col 0) v.some_rows (column-lt s key 0 v)))
          (λ i hi. omega (arith, aged i hi)) in
      (
        omega arith,
        omega (
          arith,
          query-le-cell (stored zeroed s v) key 0 v.some_rows,
          cell-stored zeroed s v 0 (col 0) v.some_rows (column-lt s key 0 v),
        ),
      )

  pub update-HasRoom :
      (s : CountMinSketch) (k : K) (n : ℕ)
      → IsValid s
      → HasRoom (suc n) s
      → HasRoom n (cms_update hasher s k)
  update-HasRoom s k n v room = λ i j hi hj.
      let hi' : i < s.cms_row_num = subst (λ t. i < t) (row_num-update s k) hi in
      let hj' : j < s.cms_col_num = subst (λ t. j < t) (col_num-update s k) hj in
      let room' : HasRoom 1 s = λ i j hi hj. omega (arith, room i j hi hj) in
      omega (arith, (cell-le-update s k i j v room' hi' hj').1, room i j hi' hj')
