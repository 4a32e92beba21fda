-- ===== src/Admission/Candidates/Tests.antt =====
-- The theorems on the candidates at concrete inputs.
use re_mlcxl.Base.{ℕ, ◌+◌, ◌*◌, ◌/◌, refl, inl, false, List, [], ◌∷◌, arith, Has}
use re_mlcxl.Admission.Sketch.{CountMinSketch, new_sketch}
use re_mlcxl.Admission.Candidates.{
  HotPageCandidate, DramHotPageCandidates, new_candidate, clear_promoted_slot,
}
use re_mlcxl.Admission.Candidates.Check.{PromotionDecision, check_and_promote}
use re_mlcxl.Admission.Candidates.Slots.{Decides}
use re_mlcxl.Admission.Candidates.Promote.{IsValid}
use re_mlcxl.Admission.Candidates.Once.{
  Waiting, decide-Waiting, on_record_accesses, check_and_promote_once,
}
use re_mlcxl.Admission.Candidates.Urgent.{invalidated-decided}
use re_mlcxl.Admission.Candidates.Keeps.{clear-IsValid}

abbrev record_hash : ℕ × ℕ → ℕ
record_hash k = k.0 * 512 + k.1

abbrev half : ℕ → ℕ
half n = n / 2

abbrev unscaled : ℕ → ℕ
unscaled n = n

abbrev record_sketch : CountMinSketch
record_sketch = new_sketch 2 8 (21 ∷ 22 ∷ [])

-- One page of 200 slots, with nothing accessed yet.
abbrev candidate : HotPageCandidate
candidate = new_candidate 5 200 9

abbrev one_candidate : DramHotPageCandidates
one_candidate = record {
  map = (7, candidate) ∷ [];
  global_requests = 0;
  max_per_page_visits = 100;
  dynamic_max_per_page_visits = 0;
  skew_promote_count = 0;
  uniform_promote_count = 0;
  timeout_removed_count = 0;
}

one_candidate-IsValid : IsValid one_candidate
one_candidate-IsValid = record { distinct = (tt, tt); fits = (omega arith, tt) }

-- Its slot 3 has been invalidated.
abbrev pending : DramHotPageCandidates
pending = clear_promoted_slot one_candidate 7 3

abbrev check : DramHotPageCandidates → List PromotionDecision × DramHotPageCandidates
check s = check_and_promote record_hash half half unscaled record_sketch 2 false s

invalidated-decided_example : Decides (check pending).0 7 3
invalidated-decided_example =
    invalidated-decided record_hash half half unscaled record_sketch 2 false one_candidate 7 3
      candidate one_candidate-IsValid (inl refl) (omega arith)

pending_decided : Decides (check pending).0 7 3
pending_decided =
    invalidated-decided record_hash half half unscaled record_sketch 2 false one_candidate 7 3
      candidate one_candidate-IsValid (inl refl) (omega arith)

pending-IsValid : IsValid pending
pending-IsValid = clear-IsValid one_candidate 7 3 one_candidate-IsValid

decide-Waiting_example : (c : HotPageCandidate) × Has (7, c) pending.map × Waiting c 3
decide-Waiting_example =
    decide-Waiting record_hash half half unscaled record_sketch 2 false pending 7 3 pending-IsValid
      pending_decided

-- Two accesses to slots of the page come between the two checks.
check_and_promote_once_example :
    ¬ Decides
      (check
        (on_record_accesses record_hash half half unscaled record_sketch
          (check pending).1
          ((7, 3, 9) ∷ (7, 4, 0) ∷ [])).1).0
      7
      3
check_and_promote_once_example =
    check_and_promote_once record_hash half half unscaled record_sketch record_sketch 2 2 false
      false pending ((7, 3, 9) ∷ (7, 4, 0) ∷ []) 7 3 pending-IsValid pending_decided
