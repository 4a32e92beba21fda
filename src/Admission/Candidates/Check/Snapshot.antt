-- ===== src/Admission/Candidates/Check/Snapshot.antt =====
-- Phase 1 of `CheckAndPromote`: the snapshots of the candidates, the slots that it visits in their
-- bitmaps, and the decisions of the urgent ones.
use re_mlcxl.Base.{
  ℕ, zero, suc, ◌+◌, ◌*◌, ◌/◌, ◌%◌, Bool, true, false, List, [], ◌∷◌, ◌++◌, leb, if◌then◌else◌,
}
use re_mlcxl.Admission.Candidates.{Bitmap, num_bitmap_words, popcount_words, HotPageCandidate}

-- `PromotionDecision`.
pub record PromotionDecision : Type 0 where
  pub page_id : ℕ
  pub cxl_bf : ℕ
  pub promote_entire_page : Bool
  pub hot_slot_ids : List ℕ
  pub is_urgent : Bool

-- `CandidateSnapshot`.
pub record CandidateSnapshot : Type 0 where
  pub page_id : ℕ
  pub cxl_bf : ℕ
  pub page_slot_num : ℕ
  pub per_page_visits : ℕ
  pub accessed_bits : Bitmap
  pub promoted_bits : Bitmap
  pub urgent_bits : Bitmap

-- The counts of the snapshot, which read the words 0, 1 and 2.
unfoldable pub snapshot_distinct_accessed : CandidateSnapshot → ℕ
unfolding popcount_words
snapshot_distinct_accessed snap = popcount_words 3 snap.accessed_bits

unfoldable pub snapshot_already_promoted : CandidateSnapshot → ℕ
unfolding popcount_words
snapshot_already_promoted snap = popcount_words 3 snap.promoted_bits

-- `IsSlotPromoted` of the snapshot.
abbrev pub snapshot_promoted : CandidateSnapshot → ℕ → Bool
snapshot_promoted snap slot_id = snap.promoted_bits (slot_id / 64) (slot_id % 64)

-- Phase 1 for one candidate.
unfoldable pub take_snapshot : ℕ × HotPageCandidate → CandidateSnapshot
take_snapshot (pid, cand) = record {
  page_id = pid;
  cxl_bf = cand.cxl_bf;
  page_slot_num = cand.page_slot_num;
  per_page_visits = cand.per_hot_page_visit_count;
  accessed_bits = cand.distinct_accessed_slot_set;
  promoted_bits = cand.already_promoted_slot_set;
  urgent_bits = cand.urgent_pending_slot_set;
}

unfoldable pub take_snapshots : List (ℕ × HotPageCandidate) → List CandidateSnapshot
unfolding take_snapshot
take_snapshots [] = []
take_snapshots (entry ∷ rest) = take_snapshot entry ∷ take_snapshots rest

-- The loop `while (bits)` over the set bits of a word, from a bit on with `rounds` bits to go: it visits
-- them in ascending order and breaks at a slot that the page does not have.
unfoldable pub word_slots : (ℕ → Bool) → ℕ → ℕ → ℕ → ℕ → List ℕ
word_slots bits word page_slot_num zero bit = []
word_slots bits word page_slot_num (suc rounds) bit =
    let slot_id = word * 64 + bit in
    let rest = word_slots bits word page_slot_num rounds (bit + 1) in
    if bits bit then (if leb page_slot_num slot_id then [] else slot_id ∷ rest) else rest

-- The loop over the words.
unfoldable pub slots_from : Bitmap → ℕ → ℕ → ℕ → List ℕ
slots_from bits page_slot_num zero word = []
slots_from bits page_slot_num (suc rounds) word =
    word_slots (bits word) word page_slot_num 64 0
    ++ slots_from bits page_slot_num rounds (word + 1)

-- The slots that a bitwise iteration over a bitmap visits.
unfoldable pub visited_slots : Bitmap → ℕ → List ℕ
unfolding slots_from
visited_slots bits page_slot_num = slots_from bits page_slot_num num_bitmap_words 0

-- Phase 1.5: the decisions of the urgent slots that are not promoted.
unfoldable pub urgent_decisions : CandidateSnapshot → List ℕ → List PromotionDecision
urgent_decisions snap [] = []
urgent_decisions snap (slot_id ∷ rest) =
    let later = urgent_decisions snap rest in
    if snapshot_promoted snap slot_id
    then later
    else record {
      page_id = snap.page_id;
      cxl_bf = snap.cxl_bf;
      promote_entire_page = false;
      hot_slot_ids = slot_id ∷ [];
      is_urgent = true;
    }
      ∷ later
