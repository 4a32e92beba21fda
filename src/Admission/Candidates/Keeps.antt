-- ===== src/Admission/Candidates/Keeps.antt =====
-- The operations on the candidates keep them well-formed.
use re_mlcxl.Base.{
  ℕ, ◌≤◌, ◌≡◌, ◌≢◌, sym, inl, inr, Bool, List, [], ◌∷◌, none, some, arith, ◌==◌, Bool-cases,
  Option-cases, not-==→ne,
}
use re_mlcxl.Admission.Sketch.{CountMinSketch}
use re_mlcxl.Admission.Candidates.{
  HotPageCandidate, DramHotPageCandidates, max_slots_per_page, find, add_candidate,
  clear_promoted_slot, clear_promoted_slot_bit, mark_slot_as_urgent, clear_all_candidates_by_epoch,
  on_page_access,
}
use re_mlcxl.Admission.Candidates.Check.{check_and_promote, decide}
use re_mlcxl.Admission.Candidates.Entries.{Entry, Absent, All-modify, Distinct-modify}
use re_mlcxl.Admission.Candidates.Promote.{IsValid, write_back-IsValid}

find-Absent : (m : List Entry) (p : ℕ) → find m p ≡ none → Absent p m
unfolding find
find-Absent [] p h = tt
find-Absent ((k, c) ∷ m) p h = elim (Bool-cases (k == p)) [
  | inl same ↦ absurd (none-ne c (sym (rw same at h)))
  | inr differ ↦ (λ e. not-==→ne k p differ (sym e), find-Absent m p (rw differ at h))
]
  where
    none-ne : (x : HotPageCandidate) → none ≢ some x
    none-ne x e = ground arith

pub add-IsValid :
    (s : DramHotPageCandidates) (p visits slots bf : ℕ)
    → slots ≤ max_slots_per_page
    → IsValid s
    → IsValid (add_candidate s p visits slots bf).1
unfolding add_candidate
add-IsValid s p visits slots bf le valid = elim (Option-cases (find s.map p)) [
  | inl missing ↦
      rw (add_candidate, missing)
        (record {
          distinct = (find-Absent s.map p missing, valid.distinct);
          fits = (le, valid.fits);
        })
  | inr (c, there) ↦ rw (add_candidate, there) valid
]

pub count-IsValid : (s : DramHotPageCandidates) → IsValid s → IsValid (on_page_access s)
unfolding on_page_access
count-IsValid s valid = record { distinct = valid.distinct; fits = valid.fits }

pub clear-IsValid :
    (s : DramHotPageCandidates) (p slot : ℕ) → IsValid s → IsValid (clear_promoted_slot s p slot)
unfolding clear_promoted_slot clear_promoted_slot_bit mark_slot_as_urgent
clear-IsValid s p slot valid = record {
  distinct = Distinct-modify s.map p _ valid.distinct;
  fits =
      All-modify (λ e. e.1.page_slot_num ≤ max_slots_per_page)
        (λ c. mark_slot_as_urgent (clear_promoted_slot_bit c slot) slot) (λ _ _ le. le) s.map p
        valid.fits;
}

pub clear_all-IsValid : (s : DramHotPageCandidates) → IsValid (clear_all_candidates_by_epoch s).1
unfolding clear_all_candidates_by_epoch
clear_all-IsValid s = record { distinct = tt; fits = tt }

pub check-IsValid :
    (record_hash : ℕ × ℕ → ℕ) (uniform_of skew_of dynamic_of : ℕ → ℕ) (cms : CountMinSketch)
    → (threshold : ℕ) (scan : Bool) (s : DramHotPageCandidates) → IsValid s
    → IsValid (check_and_promote record_hash uniform_of skew_of dynamic_of cms threshold scan s).1
unfolding check_and_promote
check-IsValid record_hash uniform_of skew_of dynamic_of cms threshold scan s valid =
    let found = decide record_hash uniform_of skew_of dynamic_of cms threshold scan s in
    (write_back-IsValid found.0 found.1 s valid).0
