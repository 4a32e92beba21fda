-- ===== src/Admission/Candidates.antt =====
-- SkewRecordAdmission.hpp and SkewRecordAdmission.cpp: the hot pages that wait for a promotion, with
-- three bitmaps of slots. A bitmap gives the bits of its words: `fetch_or` and `fetch_and` write one of
-- them. The sharded map is one association list by page id, whose order nothing relies on; a relaxed
-- atomic is one thread's access, and the diagnostic counters are left out.
pub mod Check
pub mod Bits
pub mod Entries
pub mod Slots
pub mod Promote
pub mod Once
pub mod Urgent
pub mod Keeps
mod Tests
use re_mlcxl.Base.{
  ℕ, zero, suc, ◌+◌, ◌*◌, ◌/◌, ◌%◌, Bool, true, false, ◌||◌, List, [], ◌∷◌, Option, none, some,
  length, add64, leb, ◌==◌, if◌then◌else◌,
}
use re_mlcxl.Admission.Sketch.{CountMinSketch, cms_update}

abbrev pub max_slots_per_page : ℕ
max_slots_per_page = 512

abbrev pub num_bitmap_words : ℕ
num_bitmap_words = 8

-- The bits of each word.
abbrev pub Bitmap : Type 0
Bitmap = ℕ → ℕ → Bool

abbrev pub write_bit : Bitmap → ℕ → ℕ → Bool → Bitmap
write_bit bits word bit b =
    λ w k. if w == word then (if k == bit then b else bits w k) else bits w k

-- The read of `IsSlotAccessed`, `IsSlotPromoted` and `IsSlotUrgent`.
unfoldable pub test_slot : Bitmap → ℕ → Bool
test_slot bits slot_id =
    if leb max_slots_per_page slot_id then false else bits (slot_id / 64) (slot_id % 64)

-- The `fetch_or` of the three marks, and the `fetch_and` of the two clears.
unfoldable pub write_slot : Bitmap → ℕ → Bool → Bitmap
write_slot bits slot_id b =
    if leb max_slots_per_page slot_id then bits else write_bit bits (slot_id / 64) (slot_id % 64) b

-- `__builtin_popcountll` of the first n bits of a word.
pub popcount : ℕ → (ℕ → Bool) → ℕ
popcount zero bits = 0
popcount (suc n) bits = let rest = popcount n bits in if bits n then rest + 1 else rest

-- The sum over the first n words.
pub popcount_words : ℕ → Bitmap → ℕ
popcount_words zero bits = 0
popcount_words (suc n) bits = popcount_words n bits + popcount 64 (bits n)

-- `HotPageCandidate`.
pub record HotPageCandidate : Type 0 where
  pub page_cms_visit_count : ℕ
  pub page_slot_num : ℕ
  pub cxl_bf : ℕ
  pub distinct_accessed_slot_set : Bitmap
  pub already_promoted_slot_set : Bitmap
  pub urgent_pending_slot_set : Bitmap
  pub per_hot_page_visit_count : ℕ

-- The constructor, less its assertion that the page has between 1 and 512 slots: the theorems that need the
-- upper bound assume it.
abbrev pub new_candidate : ℕ → ℕ → ℕ → HotPageCandidate
new_candidate page_cms_visit_count page_slot_num cxl_bf = record {
  page_cms_visit_count = page_cms_visit_count;
  page_slot_num = page_slot_num;
  cxl_bf = cxl_bf;
  distinct_accessed_slot_set = λ _ _. false;
  already_promoted_slot_set = λ _ _. false;
  urgent_pending_slot_set = λ _ _. false;
  per_hot_page_visit_count = 0;
}

-- `GetDistinctAccessedSlotCount` and `GetAlreadyPromotedSlotCount` of the candidate.
unfoldable pub get_distinct_accessed_slot_count : HotPageCandidate → ℕ
unfolding popcount_words
get_distinct_accessed_slot_count c = popcount_words num_bitmap_words c.distinct_accessed_slot_set

unfoldable pub get_already_promoted_slot_count : HotPageCandidate → ℕ
unfolding popcount_words
get_already_promoted_slot_count c = popcount_words num_bitmap_words c.already_promoted_slot_set

unfoldable pub is_slot_accessed : HotPageCandidate → ℕ → Bool
unfolding test_slot
is_slot_accessed c slot_id = test_slot c.distinct_accessed_slot_set slot_id

unfoldable pub is_slot_promoted : HotPageCandidate → ℕ → Bool
unfolding test_slot
is_slot_promoted c slot_id = test_slot c.already_promoted_slot_set slot_id

unfoldable pub is_slot_urgent : HotPageCandidate → ℕ → Bool
unfolding test_slot
is_slot_urgent c slot_id = test_slot c.urgent_pending_slot_set slot_id

unfoldable pub mark_slot_as_accessed : HotPageCandidate → ℕ → HotPageCandidate
unfolding write_slot
mark_slot_as_accessed c slot_id = record c {
  distinct_accessed_slot_set = write_slot c.distinct_accessed_slot_set slot_id true;
}

unfoldable pub mark_slot_as_promoted : HotPageCandidate → ℕ → HotPageCandidate
unfolding write_slot
mark_slot_as_promoted c slot_id = record c {
  already_promoted_slot_set = write_slot c.already_promoted_slot_set slot_id true;
}

unfoldable pub clear_promoted_slot_bit : HotPageCandidate → ℕ → HotPageCandidate
unfolding write_slot
clear_promoted_slot_bit c slot_id = record c {
  already_promoted_slot_set = write_slot c.already_promoted_slot_set slot_id false;
}

unfoldable pub mark_slot_as_urgent : HotPageCandidate → ℕ → HotPageCandidate
unfolding write_slot
mark_slot_as_urgent c slot_id = record c {
  urgent_pending_slot_set = write_slot c.urgent_pending_slot_set slot_id true;
}

unfoldable pub clear_urgent_slot_bit : HotPageCandidate → ℕ → HotPageCandidate
unfolding write_slot
clear_urgent_slot_bit c slot_id = record c {
  urgent_pending_slot_set = write_slot c.urgent_pending_slot_set slot_id false;
}

unfoldable pub increment_visit_count : HotPageCandidate → HotPageCandidate
increment_visit_count c = record c { per_hot_page_visit_count = add64 c.per_hot_page_visit_count 1 }

-- `DramHotPageCandidates`, less the ratios and the sketch.
pub record DramHotPageCandidates : Type 0 where
  pub map : List (ℕ × HotPageCandidate)
  pub global_requests : ℕ
  pub max_per_page_visits : ℕ
  pub dynamic_max_per_page_visits : ℕ
  pub skew_promote_count : ℕ
  pub uniform_promote_count : ℕ
  pub timeout_removed_count : ℕ

unfoldable pub new_candidates : ℕ → DramHotPageCandidates
new_candidates max_per_page_visits = record {
  map = [];
  global_requests = 0;
  max_per_page_visits = max_per_page_visits;
  dynamic_max_per_page_visits = 0;
  skew_promote_count = 0;
  uniform_promote_count = 0;
  timeout_removed_count = 0;
}

-- `OnPageAccess`.
unfoldable pub on_page_access : DramHotPageCandidates → DramHotPageCandidates
on_page_access s = record s { global_requests = add64 s.global_requests 1 }

unfoldable pub find : List (ℕ × HotPageCandidate) → ℕ → Option HotPageCandidate
find [] page_id = none
find ((k, c) ∷ rest) page_id =
    let later = find rest page_id in if k == page_id then some c else later

-- A change to a candidate that was found.
unfoldable pub modify :
    List (ℕ × HotPageCandidate)
    → ℕ
    → (HotPageCandidate → HotPageCandidate)
    → List (ℕ × HotPageCandidate)
modify [] page_id f = []
modify ((k, c) ∷ rest) page_id f =
    let later = modify rest page_id f in if k == page_id then (k, f c) ∷ rest else (k, c) ∷ later

unfoldable pub erase : List (ℕ × HotPageCandidate) → ℕ → List (ℕ × HotPageCandidate)
erase [] page_id = []
erase ((k, c) ∷ rest) page_id =
    let later = erase rest page_id in if k == page_id then later else (k, c) ∷ later

-- `Contains`.
unfoldable pub contains : DramHotPageCandidates → ℕ → Bool
unfolding find
contains s page_id = elim (find s.map page_id) [ none ↦ false | some _ ↦ true ]

-- `AddCandidate`.
unfoldable pub add_candidate : DramHotPageCandidates → ℕ → ℕ → ℕ → ℕ → Bool × DramHotPageCandidates
unfolding find
add_candidate s page_id page_cms_visit_count page_slot_num cxl_bf = elim (find s.map page_id) [
  | some _ ↦ (false, s)
  | none ↦ (
    true,
    record s { map = (page_id, new_candidate page_cms_visit_count page_slot_num cxl_bf) ∷ s.map },
  )
]

-- The change that `OnRecordAccess` makes to the page's candidate; the null frame is 0.
unfoldable pub touch_candidate : ℕ → ℕ → HotPageCandidate → HotPageCandidate
unfolding mark_slot_as_accessed increment_visit_count
touch_candidate slot_id cxl_bf c =
    increment_visit_count
      (mark_slot_as_accessed (if cxl_bf == 0 then c else record c { cxl_bf = cxl_bf }) slot_id)

module _ (record_hash : ℕ × ℕ → ℕ) where
  -- `OnRecordAccess`, with the sketch of the records.
  unfoldable pub on_record_access :
      CountMinSketch → DramHotPageCandidates → ℕ → ℕ → ℕ → CountMinSketch × DramHotPageCandidates
  unfolding touch_candidate modify
  on_record_access record_cms s page_id slot_id cxl_bf = (
    cms_update record_hash record_cms (page_id, slot_id),
    record s { map = modify s.map page_id (touch_candidate slot_id cxl_bf) },
  )

-- `ClearPromotedSlot`.
unfoldable pub clear_promoted_slot : DramHotPageCandidates → ℕ → ℕ → DramHotPageCandidates
unfolding clear_promoted_slot_bit mark_slot_as_urgent modify
clear_promoted_slot s page_id slot_id = record s {
  map = modify s.map page_id (λ c. mark_slot_as_urgent (clear_promoted_slot_bit c slot_id) slot_id);
}

-- `SetMaxPerPageVisit`, `SetDynamicMaxPerPageVisits` and `GetEffectiveMaxPerPageVisits`.
unfoldable pub set_max_per_page_visit : DramHotPageCandidates → ℕ → DramHotPageCandidates
set_max_per_page_visit s visits = record s { max_per_page_visits = visits }

unfoldable pub set_dynamic_max_per_page_visits : DramHotPageCandidates → ℕ → DramHotPageCandidates
set_dynamic_max_per_page_visits s visits = record s { dynamic_max_per_page_visits = visits }

unfoldable pub get_effective_max_per_page_visits : DramHotPageCandidates → ℕ
get_effective_max_per_page_visits s =
    let dyn = s.dynamic_max_per_page_visits in
    if dyn == 0
    then s.max_per_page_visits
    else if leb s.max_per_page_visits dyn
    then s.max_per_page_visits
    else dyn

-- `ClearAllCandidatesByEpoch`.
unfoldable pub clear_all_candidates_by_epoch : DramHotPageCandidates → ℕ × DramHotPageCandidates
clear_all_candidates_by_epoch s =
    let removed = length s.map in
    (removed, record s { map = []; timeout_removed_count = s.timeout_removed_count + removed })
