-- ===== src/Admission/Control.antt =====
-- TwoLevelAdmissionControl.hpp: the interface of the workers and of the background thread. A page-level
-- histogram admits pages to the candidates, whose records are then tracked; the modes `lru` and
-- `page_only` keep a list of recent pages instead. Doubles are values of a type `Double`; the cut of
-- `getDynamicThreshold` to a `u64` is the argument `dynamic_of`. The debug output is left out.
pub mod Valid
pub mod Steps
pub mod Tracking
pub mod Scan
mod Tests
use re_mlcxl.Base.{
  ℕ, ◌+◌, Bool, true, false, ◌&&◌, ◌||◌, List, [], ◌∷◌, ◌++◌, Option, none, some, ltb, leb,
  if◌then◌else◌,
}
use re_mlcxl.Admission.Sketch.{CountMinSketch, cms_query, cms_aging}
use re_mlcxl.Admission.Histogram.{
  SampledVisitHistogram, worker_thread_on_page_access, background_thread_try_update,
}
use re_mlcxl.Admission.Candidates.{
  DramHotPageCandidates, new_candidates, add_candidate, contains, clear_promoted_slot,
  clear_all_candidates_by_epoch,
}
use re_mlcxl.Admission.Candidates
use re_mlcxl.Admission.Candidates.Check.{
  PromotionDecision, effective_threshold, check_and_promote, collect_all_as_full_page_promotions,
}
use re_mlcxl.Admission.Recency.{RecencyList, new_recency_list, touch, promote_batch}

-- `FLAGS_admission_mode`: "lru", "page_only" and any other string.
pub data AdmissionMode : Type 0 where
  lru : AdmissionMode
  page_only : AdmissionMode
  two_level : AdmissionMode

-- `TwoLevelAdmissionControl` with the components that it refers to.
pub record TwoLevelAdmissionControl (Double : Type 0) : Type 0 where
  pub page_visit_histogram : SampledVisitHistogram
  pub record_cms : CountMinSketch
  pub dram_hot_page_candidates : DramHotPageCandidates
  pub lru_candidates : RecencyList
  pub page_only_candidates : RecencyList
  pub cached_fill_ratio : Double

-- The control of `TwoLevelAdmissionControlWrapper`, from its histogram and record sketch and the flag
-- `FLAGS_max_per_page_visits`; the double is the fill ratio 0.
abbrev pub new_admission_control :
    {Double : Type 0}
    → SampledVisitHistogram
    → CountMinSketch
    → ℕ
    → Double
    → TwoLevelAdmissionControl Double
new_admission_control page_visit_histogram record_cms max_per_page_visits no_fill = record {
  page_visit_histogram = page_visit_histogram;
  record_cms = record_cms;
  dram_hot_page_candidates = new_candidates max_per_page_visits;
  lru_candidates = new_recency_list;
  page_only_candidates = new_recency_list;
  cached_fill_ratio = no_fill;
}

-- A page's threshold is passed by a count that reaches it, if it is above 1.
abbrev pub passes : ℕ → ℕ → Bool
passes threshold count = ltb 1 threshold && leb threshold count

module _ (Double : Type 0) (page_hash target_of : ℕ → ℕ) (record_hash : ℕ × ℕ → ℕ)
    (uniform_of skew_of : ℕ → ℕ) (dynamic_of : Double → ℕ → ℕ) where
  -- The branch of `lru`, which is the same for records and scans.
  unfoldable pub access_lru :
      TwoLevelAdmissionControl Double → ℕ → ℕ → TwoLevelAdmissionControl Double
  access_lru s page_id cxl_bf = record s { lru_candidates = touch s.lru_candidates page_id cxl_bf }

  -- The branch of `page_only`, which is the same for records and scans.
  unfoldable pub access_page_only :
      Bool → TwoLevelAdmissionControl Double → ℕ → ℕ → TwoLevelAdmissionControl Double
  unfolding worker_thread_on_page_access
  access_page_only try_lock s page_id cxl_bf =
      let histogram =
        worker_thread_on_page_access page_hash target_of try_lock s.page_visit_histogram page_id in
      let pages =
        if passes histogram.current_admission_threshold_fine
          (cms_query page_hash histogram.page_cms page_id)
        then touch s.page_only_candidates page_id cxl_bf
        else s.page_only_candidates in
      record s { page_visit_histogram = histogram; page_only_candidates = pages }

  -- `WorkerThreadOnPageAccess` and `OnPageAccess` of the candidates.
  unfoldable pub count_page :
      Bool → TwoLevelAdmissionControl Double → ℕ → TwoLevelAdmissionControl Double
  unfolding worker_thread_on_page_access Candidates.on_page_access
  count_page try_lock s page_id = record s {
    page_visit_histogram =
        worker_thread_on_page_access page_hash target_of try_lock s.page_visit_histogram page_id;
    dram_hot_page_candidates = Candidates.on_page_access s.dram_hot_page_candidates;
  }

  -- `pass_page_threshold`, after the page is counted.
  unfoldable pub pass_page_threshold : TwoLevelAdmissionControl Double → ℕ → Bool
  unfolding effective_threshold
  pass_page_threshold s page_id =
      passes
        (effective_threshold (dynamic_of s.cached_fill_ratio)
          s.page_visit_histogram.current_admission_threshold_fine)
        (cms_query page_hash s.page_visit_histogram.page_cms page_id)

  -- The `AddCandidate` of a page that passes.
  unfoldable pub admit :
      TwoLevelAdmissionControl Double → ℕ → ℕ → ℕ → TwoLevelAdmissionControl Double
  unfolding add_candidate pass_page_threshold
  admit s page_id page_slot_num cxl_bf =
      if pass_page_threshold s page_id
      then record s {
        dram_hot_page_candidates =
            (add_candidate s.dram_hot_page_candidates page_id
              (cms_query page_hash s.page_visit_histogram.page_cms page_id) page_slot_num cxl_bf).1;
      }
      else s

  unfoldable pub track :
      TwoLevelAdmissionControl Double → ℕ → ℕ → ℕ → TwoLevelAdmissionControl Double
  unfolding Candidates.on_record_access
  track s page_id slot_id cxl_bf =
      let next =
        Candidates.on_record_access record_hash s.record_cms s.dram_hot_page_candidates page_id
          slot_id cxl_bf in
      record s { record_cms = next.0; dram_hot_page_candidates = next.1 }

  -- The branch of `two_level` in `OnRecordAccess`.
  unfoldable pub access_two_level :
      Bool → TwoLevelAdmissionControl Double → ℕ → ℕ → ℕ → ℕ → TwoLevelAdmissionControl Double
  unfolding count_page admit track pass_page_threshold contains
  access_two_level try_lock s page_id slot_id page_slot_num cxl_bf =
      let counted = count_page try_lock s page_id in
      let admitted = admit counted page_id page_slot_num cxl_bf in
      if pass_page_threshold counted page_id || contains admitted.dram_hot_page_candidates page_id
      then track admitted page_id slot_id cxl_bf
      else admitted

  -- `OnRecordAccess`, given the mode and whether the sampling set's lock is free.
  unfoldable pub on_record_access :
      AdmissionMode
      → Bool
      → TwoLevelAdmissionControl Double
      → ℕ
      → ℕ
      → Bool
      → ℕ
      → ℕ
      → TwoLevelAdmissionControl Double
  unfolding access_lru access_page_only access_two_level
  on_record_access mode try_lock s page_id slot_id is_in_dram page_slot_num cxl_bf =
      if is_in_dram then s else elim mode [
        | lru ↦ access_lru s page_id cxl_bf
        | page_only ↦ access_page_only try_lock s page_id cxl_bf
        | two_level ↦ access_two_level try_lock s page_id slot_id page_slot_num cxl_bf
      ]

  -- `OnPageAccessForScan`.
  unfoldable pub on_page_access_for_scan :
      AdmissionMode
      → Bool
      → TwoLevelAdmissionControl Double
      → ℕ
      → Bool
      → ℕ
      → ℕ
      → TwoLevelAdmissionControl Double
  unfolding access_lru access_page_only count_page admit
  on_page_access_for_scan mode try_lock s page_id is_in_dram page_slot_num cxl_bf =
      if is_in_dram then s else elim mode [
        | lru ↦ access_lru s page_id cxl_bf
        | page_only ↦ access_page_only try_lock s page_id cxl_bf
        | two_level ↦ admit (count_page try_lock s page_id) page_id page_slot_num cxl_bf
      ]

  -- `OnRecordInvalidated`.
  unfoldable pub on_record_invalidated :
      TwoLevelAdmissionControl Double → ℕ → ℕ → TwoLevelAdmissionControl Double
  unfolding clear_promoted_slot
  on_record_invalidated s page_id slot_id = record s {
    dram_hot_page_candidates = clear_promoted_slot s.dram_hot_page_candidates page_id slot_id;
  }

  -- The epoch boundary of `BackgroundRoutine`.
  unfoldable pub epoch_boundary :
      Bool
      → List PromotionDecision
      → TwoLevelAdmissionControl Double
      → List PromotionDecision × TwoLevelAdmissionControl Double
  unfolding clear_all_candidates_by_epoch
  epoch_boundary scan_mode decisions s =
      let timeout =
        if scan_mode
        then collect_all_as_full_page_promotions s.dram_hot_page_candidates.map
        else [] in
      (
        decisions ++ timeout,
        record s {
          record_cms = cms_aging s.record_cms;
          dram_hot_page_candidates = (clear_all_candidates_by_epoch s.dram_hot_page_candidates).1;
        },
      )

  -- `CheckAndPromote` and the epoch boundary, after the histogram's update.
  unfoldable pub check_candidates :
      Bool
      → Bool
      → TwoLevelAdmissionControl Double
      → List PromotionDecision × TwoLevelAdmissionControl Double
  unfolding check_and_promote epoch_boundary
  check_candidates scan_mode epoch_tick s =
      let found =
        check_and_promote record_hash uniform_of skew_of (dynamic_of s.cached_fill_ratio)
          s.record_cms s.page_visit_histogram.current_admission_threshold_fine scan_mode
          s.dram_hot_page_candidates in
      let checked = record s { dram_hot_page_candidates = found.1 } in
      if epoch_tick then epoch_boundary scan_mode found.0 checked else (found.0, checked)

  -- `BackgroundRoutine`, given the flags; `none` is a fault of the histogram's update.
  unfoldable pub background_routine :
      AdmissionMode
      → Bool
      → ℕ
      → Double
      → TwoLevelAdmissionControl Double
      → Option (List PromotionDecision × TwoLevelAdmissionControl Double)
  unfolding background_thread_try_update promote_batch check_candidates
  background_routine mode scan_mode batch ratio s =
      let cached = record s { cached_fill_ratio = ratio } in
      elim mode [
        | lru ↦
            let taken = promote_batch batch cached.lru_candidates in
            some (taken.0, record cached { lru_candidates = taken.1 })
        | page_only ↦
            elim (background_thread_try_update page_hash target_of cached.page_visit_histogram) [
              | none ↦ none
              | some updated ↦
                  let taken = promote_batch batch cached.page_only_candidates in
                  some (
                    taken.0,
                    record cached {
                      page_visit_histogram = updated.0;
                      page_only_candidates = taken.1;
                    },
                  )
            ]
        | two_level ↦
            elim (background_thread_try_update page_hash target_of cached.page_visit_histogram) [
              | none ↦ none
              | some updated ↦ some (
                  check_candidates scan_mode updated.1
                    (record cached { page_visit_histogram = updated.0 }))
            ]
      ]
