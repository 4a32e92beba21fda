-- ===== src/Admission/Sketch/Trace.antt =====
-- The guarantee of a count-min sketch over a whole trace of updates.
use re_mlcxl.Base.{ℕ, suc, ◌+◌, ◌≤◌, ◌<◌, ◌≡◌, List, [], ◌∷◌, arith, u64_mod, length, subst, sym}
use re_mlcxl.Admission.Sketch.{CountMinSketch, new_sketch, cms_update, cms_query}
use re_mlcxl.Admission.Sketch.Counts.{
  IsValid, HasRoom, query-update, update-IsValid, update-HasRoom, new_sketch-IsValid,
  cell-new_sketch, query-le-cell,
}

-- How often a key stands in a trace.
abbrev pub occurrences : {K : Type 0} → Discrete K → K → List K → ℕ
occurrences dec key [] = 0
occurrences dec key (k ∷ ks) = elim (dec key k) [
  | yes _ ↦ suc (occurrences dec key ks)
  | no _ ↦ occurrences dec key ks
]

module _ {K : Type 0} (hasher : K → ℕ) where
  -- One `CMSUpdate` for each key of the trace, in order.
  pub update_all : CountMinSketch → List K → CountMinSketch
  update_all s [] = s
  update_all s (k ∷ ks) = update_all (cms_update hasher s k) ks

  -- From any valid sketch with room for the trace, the trace raises the query of a key by at least
  -- the key's occurrences and at most the trace's length.
  pub query-update_all :
      (dec : Discrete K) (s : CountMinSketch) (ks : List K) (key : K)
      → IsValid s
      → HasRoom (length ks) s
      → (cms_query hasher s key + occurrences dec key ks ≤ cms_query hasher (update_all s ks) key)
        × (cms_query hasher (update_all s ks) key ≤ cms_query hasher s key + length ks)
  unfolding update_all
  query-update_all dec s [] key v room = omega arith
  query-update_all dec s (k ∷ ks) key v room =
      let room' : HasRoom 1 s = λ i j hi hj. omega (arith, room i j hi hj) in
      let (own, low, high) = query-update hasher s k key v room' in
      let (rest, rest') =
        query-update_all dec (cms_update hasher s k) ks key (update-IsValid hasher s k v)
          (update-HasRoom hasher s k (length ks) v room) in
      elim (dec key k)
        as (λ d.
          (cms_query hasher s key
              + elim d [ yes _ ↦ suc (occurrences dec key ks) | no _ ↦ occurrences dec key ks ]
            ≤ cms_query hasher (update_all (cms_update hasher s k) ks) key)
          × (cms_query hasher (update_all (cms_update hasher s k) ks) key
              ≤ cms_query hasher s key + suc (length ks))) [
                | yes e ↦
                    (let own' : cms_query hasher (cms_update hasher s k) key
                          ≡ cms_query hasher s key + 1 =
                        subst
                          (λ t.
                            cms_query hasher (cms_update hasher s k) t ≡ cms_query hasher s t + 1)
                          (sym e) own in
                      omega arith)
                | no _ ↦ omega arith
              ]

  -- A fresh sketch with at least one row and column never underestimates: after a trace of fewer than
  -- 2 ^ 64 updates the query of a key is at least its occurrences in the trace, and at most the
  -- trace's length.
  pub query-le-trace :
      (dec : Discrete K) (rows cols : ℕ) (seeds : List ℕ) (ks : List K) (key : K)
      → 0 < rows
      → 0 < cols
      → length ks < u64_mod
      → let s = update_all (new_sketch rows cols seeds) ks in
        (occurrences dec key ks ≤ cms_query hasher s key) × (cms_query hasher s key ≤ length ks)
  query-le-trace dec rows cols seeds ks key hr hc small =
      let fresh = new_sketch rows cols seeds in
      let v = new_sketch-IsValid rows cols seeds hr hc in
      let room : HasRoom (length ks) fresh =
        λ i j hi hj. omega (arith, cell-new_sketch rows cols seeds i j) in
      let start : cms_query hasher fresh key ≡ 0 =
        omega (
          arith,
          query-le-cell hasher fresh key 0 v.some_rows,
          cell-new_sketch rows cols seeds 0,
        ) in
      omega (arith, query-update_all dec fresh ks key v room)
