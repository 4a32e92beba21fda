-- ===== src/Admission/Control/Tests.antt =====
-- The theorems on the admission control at concrete states.
use re_mlcxl.Base.{
  ℕ, ◌+◌, ◌*◌, ◌/◌, ◌≡◌, refl, true, false, ◌||◌, [], ◌∷◌, arith, Has, if◌then◌else◌,
}
use re_mlcxl.Admission.Buckets.{VisitFrequencyBucketArray}
use re_mlcxl.Admission.Sketch.{new_sketch, cms_update}
use re_mlcxl.Admission.Sketch.Counts.{new_sketch-IsValid}
use re_mlcxl.Admission.SampleSet.{new_sample_set}
use re_mlcxl.Admission.SampleSet.Laws.{new_sample_set-IsValid}
use re_mlcxl.Admission.Histogram.{new_histogram}
use re_mlcxl.Admission.Candidates.{HotPageCandidate, contains, new_candidates, is_slot_accessed}
use re_mlcxl.Admission.Recency.{lookup}
use re_mlcxl.Admission.Recency.Nodes.{node_of}
use re_mlcxl.Admission.Control.{
  AdmissionMode, two_level, TwoLevelAdmissionControl, new_admission_control, on_record_access,
  on_page_access_for_scan, on_record_invalidated,
}
use re_mlcxl.Admission.Control.Valid.{IsValid}
use re_mlcxl.Admission.Control.Steps.{
  record_access, page_scan, invalidated, here, next, Calls-IsValid,
}
use re_mlcxl.Admission.Control.Tracking.{passed, access-tracked}

abbrev half : ℕ → ℕ
half n = n / 2

abbrev same : ℕ → ℕ
same n = n

abbrev slot_hash : ℕ × ℕ → ℕ
slot_hash k = k.0 * 512 + k.1

abbrev by_ratio : ℕ → ℕ → ℕ
by_ratio ratio threshold = threshold

abbrev no_buckets : VisitFrequencyBucketArray
no_buckets = record { total_bucket_num = 0; buckets = [] }

abbrev control : TwoLevelAdmissionControl ℕ
control =
    new_admission_control
      (new_histogram (new_sketch 2 8 (11 ∷ 12 ∷ [])) (new_sample_set 4 100) no_buckets)
      (new_sketch 2 8 (21 ∷ 22 ∷ [])) 100 0

control-IsValid : IsValid control
unfolding new_candidates lookup node_of
control-IsValid = record {
  counts = (
    new_sketch-IsValid 2 8 (11 ∷ 12 ∷ []) (omega arith) (omega arith),
    new_sample_set-IsValid 4 100,
  );
  records = new_sketch-IsValid 2 8 (21 ∷ 22 ∷ []) (omega arith) (omega arith);
  candidates = record { distinct = tt; fits = tt };
  recent = record { distinct = tt; below = tt; indexed = λ _. refl };
  full_pages = record { distinct = tt; below = tt; indexed = λ _. refl };
}

abbrev accessed : AdmissionMode → TwoLevelAdmissionControl ℕ
accessed mode =
    on_record_access ℕ same half slot_hash half half by_ratio mode true control 7 3 false 175 9

abbrev scanned : AdmissionMode → TwoLevelAdmissionControl ℕ
scanned mode =
    on_page_access_for_scan ℕ same half slot_hash half half by_ratio mode true (accessed mode) 8
      false 175 9

abbrev after_three : AdmissionMode → TwoLevelAdmissionControl ℕ
after_three mode = on_record_invalidated ℕ same half slot_hash half half by_ratio (scanned mode) 7 3

Calls-IsValid_example : IsValid (after_three two_level)
Calls-IsValid_example =
    Calls-IsValid ℕ same half slot_hash half half by_ratio two_level false 64 control-IsValid (
      next
        (next (next here (record_access true false 7 3 175 9 (omega arith)))
          (page_scan true false 8 175 9 (omega arith)))
        (invalidated 7 3))

access-tracked_example :
    let t = accessed two_level in
    let tracked =
      passed ℕ same half slot_hash half half by_ratio true control 7
      || contains control.dram_hot_page_candidates 7 in
    (contains t.dram_hot_page_candidates 7 ≡ tracked)
    × (t.record_cms
        ≡ (if tracked then cms_update slot_hash control.record_cms (7, 3) else control.record_cms))
    × ((c : HotPageCandidate)
        → tracked ≡ true
        → Has (7, c) t.dram_hot_page_candidates.map
        → is_slot_accessed c 3 ≡ true)
access-tracked_example =
    access-tracked ℕ same half slot_hash half half by_ratio true control 7 3 175 9 (omega arith)
      (omega arith) control-IsValid
