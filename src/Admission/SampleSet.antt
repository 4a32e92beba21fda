-- ===== src/Admission/SampleSet.antt =====
-- DepulicateSetForPageSampling.hpp. The unordered map is an association list whose order nothing
-- relies on; whether `try_lock` succeeds is an argument.
pub mod Laws
use re_mlcxl.Base.{
  ℕ, ◌+◌, ◌%◌, ◌^◌, Bool, true, false, ◌||◌, List, [], ◌∷◌, add64, u64_mod, length, ltb, leb, ◌==◌,
  if◌then◌else◌,
}

-- `DepulicateSetForPageSampling`: page ids with their visit counts.
pub record DepulicateSet : Type 0 where
  pub max_sampled_page_ids : ℕ
  pub trigger_visit_histogram_update_size : ℕ
  pub depulicate_sets : List (ℕ × ℕ)
  pub current_request_count : ℕ

-- The constructor.
unfoldable pub new_sample_set : ℕ → ℕ → DepulicateSet
new_sample_set max_sampled_page_ids trigger = record {
  max_sampled_page_ids = max_sampled_page_ids;
  trigger_visit_histogram_update_size = trigger;
  depulicate_sets = [];
  current_request_count = 0;
}

unfoldable pub contains : ℕ → List (ℕ × ℕ) → Bool
contains page_id [] = false
contains page_id ((k, _) ∷ rest) = k == page_id || contains page_id rest

-- `emplace(page_id, 0)`, which does nothing at a key that is there.
abbrev emplace : ℕ → List (ℕ × ℕ) → List (ℕ × ℕ)
emplace page_id set = if contains page_id set then set else (page_id, 0) ∷ set

-- `OnPageAccess`.
unfoldable pub on_page_access : Bool → DepulicateSet → ℕ → DepulicateSet
unfolding contains
on_page_access try_lock s page_id = record s {
  current_request_count = add64 s.current_request_count 1;
  depulicate_sets =
      if try_lock
      then (if ltb (length s.depulicate_sets) s.max_sampled_page_ids
          then emplace page_id s.depulicate_sets
          else s.depulicate_sets)
      else s.depulicate_sets;
}

-- `ShouldTriggerVisitHistogramUpdate`.
unfoldable pub should_trigger : DepulicateSet → Bool
should_trigger s = leb s.trigger_visit_histogram_update_size s.current_request_count

unfoldable pub fill : (ℕ → ℕ) → List (ℕ × ℕ) → List (ℕ × ℕ)
fill query [] = []
fill query ((page_id, _) ∷ rest) = (page_id, query page_id) ∷ fill query rest

-- `FillSampledPageVisitCounts`, from the sketch's query.
unfoldable pub fill_sampled_page_visit_counts : (ℕ → ℕ) → DepulicateSet → DepulicateSet
unfolding fill
fill_sampled_page_visit_counts query s = record s { depulicate_sets = fill query s.depulicate_sets }

-- `GetSampledVisitCountSnapshot`.
abbrev pub get_sampled_visit_count_snapshot : DepulicateSet → List (ℕ × ℕ)
get_sampled_visit_count_snapshot s = s.depulicate_sets

-- `Reset`.
unfoldable pub reset : DepulicateSet → DepulicateSet
reset s = record s { depulicate_sets = []; current_request_count = 0 }

-- `SetMaxSampledPageIds` and `SetTriggerVisitHistogramWindow`.
unfoldable pub set_max_sampled_page_ids : DepulicateSet → ℕ → DepulicateSet
set_max_sampled_page_ids s size = record s { max_sampled_page_ids = size }

unfoldable pub set_trigger_visit_histogram_window : DepulicateSet → ℕ → DepulicateSet
set_trigger_visit_histogram_window s size = record s { trigger_visit_histogram_update_size = size }
