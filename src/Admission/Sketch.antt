-- ===== src/Admission/Sketch.antt =====
-- CountMinSketch.hpp. The matrix is the source's flat array, and a relaxed atomic is one thread's
-- access. `std::hash` is an argument, and so are the seeds that the standard generator yields.
pub mod Cells
pub mod Stores
pub mod Counts
pub mod Trace
use Prim.Native.Nat.{bit_xor}
use re_mlcxl.Base.{
  ℕ, zero, suc, ◌+◌, ◌-◌, ◌*◌, ◌/◌, ◌%◌, ◌^◌, List, [], ◌∷◌, add64, mul64, u64_mod, get_or, modify,
  replicate, min,
}

-- `CountMinSketch`.
pub record CountMinSketch : Type 0 where
  pub cms_row_num : ℕ
  pub cms_col_num : ℕ
  pub cms_matrix : List ℕ
  pub cms_hash_seeds : List ℕ

-- The constructor, with the seeds of its generator.
unfoldable pub new_sketch : ℕ → ℕ → List ℕ → CountMinSketch
new_sketch cms_row_num cms_col_num seeds = record {
  cms_row_num = cms_row_num;
  cms_col_num = cms_col_num;
  cms_matrix = replicate (cms_row_num * cms_col_num) 0;
  cms_hash_seeds = seeds;
}

-- The place of `at(i, j)` in the matrix.
abbrev pub at : ℕ → ℕ → ℕ → ℕ
at cms_col_num i j = i * cms_col_num + j

-- `x ^= x >> 33`.
abbrev xor_shift : ℕ → ℕ
xor_shift x = bit_xor x (x / 2 ^ 33)

-- `Hash`, from the value of `std::hash` on the key.
unfoldable pub hash : CountMinSketch → ℕ → ℕ → ℕ
hash s hasher_result hash_index =
    let seeded = add64 hasher_result (get_or s.cms_hash_seeds hash_index 0) in
    let first = mul64 (xor_shift seeded) 0xff51afd7e558ccd in
    let second = mul64 (xor_shift first) 0xc4ceb9fe1a85ec53 in xor_shift second

-- The loop of `CMSUpdate`, from row `i` on, over the column of each row.
pub update_loop : ℕ → (ℕ → ℕ) → ℕ → ℕ → List ℕ → List ℕ
update_loop cols column zero i m = m
update_loop cols column (suc rounds) i m =
    update_loop cols column rounds (i + 1) (modify m (at cols i (column i)) (λ v. add64 v 1))

-- The loop of `CMSQuery`.
pub query_loop : ℕ → (ℕ → ℕ) → ℕ → ℕ → List ℕ → ℕ → ℕ
query_loop cols column zero i m min_count = min_count
query_loop cols column (suc rounds) i m min_count =
    query_loop cols column rounds (i + 1) m (min min_count (get_or m (at cols i (column i)) 0))

-- `for (j …) at(i, j).store(f(at(i, j)))`, the inner loop of `CMSAging` and `CMSReset`.
pub store_columns : (ℕ → ℕ) → ℕ → ℕ → ℕ → ℕ → List ℕ → List ℕ
store_columns f cols i zero j m = m
store_columns f cols i (suc rounds) j m =
    store_columns f cols i rounds (j + 1) (modify m (at cols i j) f)

-- The outer loop of both.
pub store_rows : (ℕ → ℕ) → ℕ → ℕ → ℕ → List ℕ → List ℕ
store_rows f cols zero i m = m
store_rows f cols (suc rounds) i m =
    store_rows f cols rounds (i + 1) (store_columns f cols i cols 0 m)

-- `CMSAging`.
unfoldable pub cms_aging : CountMinSketch → CountMinSketch
cms_aging s = record s {
  cms_matrix = store_rows (λ old_value. old_value / 2) s.cms_col_num s.cms_row_num 0 s.cms_matrix;
}

-- `CMSReset`.
unfoldable pub cms_reset : CountMinSketch → CountMinSketch
cms_reset s = record s {
  cms_matrix = store_rows (λ _. 0) s.cms_col_num s.cms_row_num 0 s.cms_matrix;
}

module _ {K : Type 0} (hasher : K → ℕ) where
  -- `Hash(key, i) % cms_col_num`.
  pub column : CountMinSketch → K → ℕ → ℕ
  column s key i = hash s (hasher key) i % s.cms_col_num

  -- `CMSUpdate`.
  unfoldable pub cms_update : CountMinSketch → K → CountMinSketch
  cms_update s key = record s {
    cms_matrix = update_loop s.cms_col_num (column s key) s.cms_row_num 0 s.cms_matrix;
  }

  -- `CMSQuery`.
  unfoldable pub cms_query : CountMinSketch → K → ℕ
  cms_query s key =
      query_loop s.cms_col_num (column s key) s.cms_row_num 0 s.cms_matrix (u64_mod - 1)

-- `std::hash` of a page id and slot id, from the hashes of the two parts.
unfoldable pub record_hasher : (ℕ → ℕ) → (ℕ → ℕ) → ℕ × ℕ → ℕ
record_hasher hash_u64 hash_u16 (page_id, slot_id) =
    bit_xor (hash_u64 page_id) (mul64 (hash_u16 slot_id) 2654435761)
