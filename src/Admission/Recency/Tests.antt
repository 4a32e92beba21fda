-- ===== src/Admission/Recency/Tests.antt =====
-- The theorems on the recency list at a concrete list.
use re_mlcxl.Base.{◌≡◌, refl, [], ◌∷◌, arith, drop}
use re_mlcxl.Admission.Recency.{RecencyList, touch, promote_batch, lookup}
use re_mlcxl.Admission.Recency.Nodes.{IsValid, view, recent, promoted, node_of}
use re_mlcxl.Admission.Recency.Refine.{touch-recent}
use re_mlcxl.Admission.Recency.Drain.{promote_batch-promoted}

-- Page 5 is more recent than page 4.
abbrev two_pages : RecencyList
two_pages = record {
  candidates =
      (1, record { page_id = 5; cxl_bf = 50 }) ∷ (0, record { page_id = 4; cxl_bf = 40 }) ∷ [];
  index = (5, 1) ∷ (4, 0) ∷ [];
  next_node = 2;
}

two_pages-IsValid : IsValid two_pages
unfolding lookup node_of
two_pages-IsValid = record {
  distinct = (((λ e. omega (arith, e), λ e. omega (arith, e)), tt), (tt, tt));
  below = (omega arith, (omega arith, tt));
  indexed = λ _. refl;
}

touch-recent_example :
    IsValid (touch two_pages 4 41)
    × (view (touch two_pages 4 41).candidates ≡ recent (view two_pages.candidates) 4 41)
touch-recent_example = touch-recent two_pages 4 41 two_pages-IsValid

promote_batch-promoted_example :
    let r = promote_batch 1 two_pages in
    IsValid r.1
    × (r.0 ≡ promoted 1 (view two_pages.candidates))
    × (view r.1.candidates ≡ drop 1 (view two_pages.candidates))
promote_batch-promoted_example = promote_batch-promoted 1 two_pages two_pages-IsValid
