-- ===== src/Admission/Candidates/Check.antt =====
-- `CheckAndPromote` in its three phases. The products with ratios in doubles are the arguments
-- `uniform_of` (of the number of slots), `skew_of` (of the reference count) and `dynamic_of` (of the
-- page's threshold, for the fill ratio at hand). What workers do between the phases is a change of the
-- candidates that the write-back gets.
mod Snapshot
unfoldable pub use Snapshot.*
use re_mlcxl.Base.{
  ℕ, zero, suc, ◌+◌, ◌*◌, ◌/◌, ◌%◌, Bool, true, false, ◌&&◌, ◌||◌, not, List, [], ◌∷◌, ◌++◌, length,
  leb, ltb, ◌==◌, if◌then◌else◌, add64,
}
use re_mlcxl.Admission.Sketch.{CountMinSketch, cms_query}
use re_mlcxl.Admission.Candidates.{
  Bitmap, num_bitmap_words, popcount_words, HotPageCandidate, DramHotPageCandidates, modify, erase,
  clear_urgent_slot_bit, mark_slot_as_promoted, get_effective_max_per_page_visits,
}

-- What phase 2 finds for one snapshot: its decisions, and whether the page leaves the candidates.
pub record Verdict : Type 0 where
  pub decisions : List PromotionDecision
  pub remove : Bool

abbrev pub entire_page : CandidateSnapshot → Verdict
entire_page snap = record {
  decisions =
      record {
        page_id = snap.page_id;
        cxl_bf = snap.cxl_bf;
        promote_entire_page = true;
        hot_slot_ids = [];
        is_urgent = false;
      }
      ∷ [];
  remove = true;
}

abbrev pub hot_records : CandidateSnapshot → List ℕ → PromotionDecision
hot_records snap slots = record {
  page_id = snap.page_id;
  cxl_bf = snap.cxl_bf;
  promote_entire_page = false;
  hot_slot_ids = slots;
  is_urgent = false;
}

abbrev pub is_nil : List ℕ → Bool
is_nil [] = true
is_nil (_ ∷ _) = false

-- `slot_counts_buf` and the sums over it: every visited slot has the sketch's count.
unfoldable pub total_count : (ℕ → ℕ) → List ℕ → ℕ
total_count count [] = 0
total_count count (slot_id ∷ rest) = add64 (count slot_id) (total_count count rest)

-- The slots with a count of at least a bound that are not promoted.
unfoldable pub new_hot_slots : CandidateSnapshot → (ℕ → ℕ) → ℕ → List ℕ → List ℕ
new_hot_slots snap count bound [] = []
new_hot_slots snap count bound (slot_id ∷ rest) =
    let later = new_hot_slots snap count bound rest in
    if leb bound (count slot_id) && not (snapshot_promoted snap slot_id)
    then slot_id ∷ later
    else later

-- `has_ratio_skew_slot`.
unfoldable pub has_hot_slot : (ℕ → ℕ) → ℕ → List ℕ → Bool
has_hot_slot count bound [] = false
has_hot_slot count bound (slot_id ∷ rest) =
    let later = has_hot_slot count bound rest in if leb bound (count slot_id) then true else later

abbrev pub max : ℕ → ℕ → ℕ
max a b = if leb a b then b else a

-- `effective_l1_fine_threshold`.
unfoldable pub effective_threshold : (ℕ → ℕ) → ℕ → ℕ
effective_threshold dynamic_of threshold =
    if threshold == 0 then 0 else max 2 (dynamic_of threshold)

-- Conditions 1 to 4: whether the visits and the slots reach their thresholds, whether a slot is skewed,
-- and the skewed slots that are not promoted.
unfoldable pub choose : CandidateSnapshot → Bool → Bool → Bool → Bool → List ℕ → Verdict
unfolding snapshot_distinct_accessed snapshot_already_promoted
choose snap visits_reached slots_reached skewed is_scan_workload ratio_new_hot_slots =
    if visits_reached && (not skewed || is_scan_workload)
    then entire_page snap
    else if slots_reached && (not skewed || is_scan_workload)
    then entire_page snap
    else if skewed
    then record {
      decisions =
          if is_nil ratio_new_hot_slots then [] else hot_records snap ratio_new_hot_slots ∷ [];
      remove =
          snapshot_distinct_accessed snap
          == snapshot_already_promoted snap + length ratio_new_hot_slots;
    }
    else if is_scan_workload
    then entire_page snap
    else record { decisions = []; remove = false }

module _ (uniform_of skew_of : ℕ → ℕ) where
  -- Conditions 1 to 4, with the slots of the snapshot and their counts.
  unfoldable pub later_conditions : ℕ → Bool → CandidateSnapshot → List ℕ → (ℕ → ℕ) → Verdict
  unfolding new_hot_slots has_hot_slot snapshot_distinct_accessed
  later_conditions max_visits is_scan_workload snap slots count =
      let cms_total = total_count count slots in
      let reference_count = if ltb 0 cms_total then cms_total else snap.per_page_visits in
      let skew_threshold = max 1 (skew_of reference_count) in
      choose snap (leb max_visits snap.per_page_visits)
        (leb (uniform_of snap.page_slot_num) (snapshot_distinct_accessed snap))
        (has_hot_slot count (skew_threshold + 1) slots) is_scan_workload
        (new_hot_slots snap count (skew_threshold + 1) slots)

  -- Phase 2 for one snapshot.
  unfoldable pub analyse : ℕ → ℕ → Bool → (ℕ → ℕ → ℕ) → CandidateSnapshot → Verdict
  unfolding later_conditions urgent_decisions visited_slots
  analyse effective_l1 max_visits is_scan_workload counts snap =
      let urgent = visited_slots snap.urgent_bits snap.page_slot_num in
      let slots = visited_slots snap.accessed_bits snap.page_slot_num in
      let count = counts snap.page_id in
      let strong_hot_slots =
        if ltb 0 effective_l1 && not is_scan_workload
        then new_hot_slots snap count effective_l1 slots
        else [] in
      if is_nil urgent
      then (if is_nil strong_hot_slots
          then later_conditions max_visits is_scan_workload snap slots count
          else record { decisions = hot_records snap strong_hot_slots ∷ []; remove = false })
      else record { decisions = urgent_decisions snap urgent; remove = false }

  -- Phase 2: all the decisions, and the pages that leave.
  unfoldable pub analyse_all :
      ℕ → ℕ → Bool → (ℕ → ℕ → ℕ) → List CandidateSnapshot → List PromotionDecision × List ℕ
  unfolding analyse
  analyse_all effective_l1 max_visits is_scan_workload counts [] = ([], [])
  analyse_all effective_l1 max_visits is_scan_workload counts (snap ∷ rest) =
      let verdict = analyse effective_l1 max_visits is_scan_workload counts snap in
      let later = analyse_all effective_l1 max_visits is_scan_workload counts rest in
      (verdict.decisions ++ later.0, if verdict.remove then snap.page_id ∷ later.1 else later.1)

-- Phase 3: the slots of a decision are promoted and no longer urgent.
unfoldable pub promote_slots : List ℕ → HotPageCandidate → HotPageCandidate
unfolding clear_urgent_slot_bit mark_slot_as_promoted
promote_slots [] c = c
promote_slots (slot_id ∷ rest) c =
    promote_slots rest (mark_slot_as_promoted (clear_urgent_slot_bit c slot_id) slot_id)

unfoldable pub apply_decisions :
    List PromotionDecision → List (ℕ × HotPageCandidate) → List (ℕ × HotPageCandidate)
unfolding promote_slots modify
apply_decisions [] map = map
apply_decisions (d ∷ rest) map =
    apply_decisions rest
      (if d.promote_entire_page then map else modify map d.page_id (promote_slots d.hot_slot_ids))

unfoldable pub remove_pages : List ℕ → List (ℕ × HotPageCandidate) → List (ℕ × HotPageCandidate)
unfolding erase
remove_pages [] map = map
remove_pages (pid ∷ rest) map = remove_pages rest (erase map pid)

-- `local_skew_promote_count` and `local_uniform_promote_count`.
unfoldable pub count_slots : List PromotionDecision → ℕ
count_slots [] = 0
count_slots (d ∷ rest) = length d.hot_slot_ids + count_slots rest

unfoldable pub count_pages : List PromotionDecision → ℕ
count_pages [] = 0
count_pages (d ∷ rest) = (if d.promote_entire_page then 1 else 0) + count_pages rest

-- Phase 3.
unfoldable pub write_back :
    List PromotionDecision → List ℕ → DramHotPageCandidates → DramHotPageCandidates
unfolding apply_decisions remove_pages
write_back decisions to_remove s = record s {
  map = remove_pages to_remove (apply_decisions decisions s.map);
  skew_promote_count = s.skew_promote_count + count_slots decisions;
  uniform_promote_count = s.uniform_promote_count + count_pages decisions;
}

module _ (record_hash : ℕ × ℕ → ℕ) (uniform_of skew_of dynamic_of : ℕ → ℕ) where
  -- Phases 1 and 2.
  unfoldable pub decide :
      CountMinSketch → ℕ → Bool → DramHotPageCandidates → List PromotionDecision × List ℕ
  unfolding choose take_snapshots analyse_all effective_threshold get_effective_max_per_page_visits
  decide record_cms l1_fine_threshold is_scan_workload s =
      analyse_all uniform_of skew_of (effective_threshold dynamic_of l1_fine_threshold)
        (get_effective_max_per_page_visits s) is_scan_workload
        (λ page_id slot_id. cms_query record_hash record_cms (page_id, slot_id))
        (take_snapshots s.map)

  -- `CheckAndPromote` with nothing in between.
  unfoldable pub check_and_promote :
      CountMinSketch
      → ℕ
      → Bool
      → DramHotPageCandidates
      → List PromotionDecision × DramHotPageCandidates
  unfolding decide write_back
  check_and_promote record_cms l1_fine_threshold is_scan_workload s =
      let found = decide record_cms l1_fine_threshold is_scan_workload s in
      (found.0, write_back found.0 found.1 s)

-- `CollectAllAsFullPagePromotions`.
unfoldable pub collect_all_as_full_page_promotions :
    List (ℕ × HotPageCandidate) → List PromotionDecision
collect_all_as_full_page_promotions [] = []
collect_all_as_full_page_promotions ((pid, cand) ∷ rest) =
    record {
      page_id = pid;
      cxl_bf = cand.cxl_bf;
      promote_entire_page = true;
      hot_slot_ids = [];
      is_urgent = false;
    }
    ∷ collect_all_as_full_page_promotions rest
