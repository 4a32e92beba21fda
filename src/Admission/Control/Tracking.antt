-- ===== src/Admission/Control/Tracking.antt =====
-- Which records the mode `two_level` tracks, and what a scan leaves.
use re_mlcxl.Base.{
  ℕ, ◌≤◌, ◌<◌, ◌≡◌, ◌≢◌, refl, sym, ap, ◌∙◌, inl, inr, Bool, true, false, ◌||◌, List, [], ◌∷◌,
  Option, none, some, arith, ◌==◌, if◌then◌else◌, Bool-cases, Option-cases, Has, ==-refl, lt→ltb,
}
use re_mlcxl.Admission.Sketch.{cms_update}
use re_mlcxl.Admission.Candidates
use re_mlcxl.Admission.Candidates.{
  HotPageCandidate, DramHotPageCandidates, max_slots_per_page, new_candidate, find, modify,
  contains, add_candidate, touch_candidate, is_slot_accessed, mark_slot_as_accessed,
  increment_visit_count,
}
use re_mlcxl.Admission.Candidates.Bits.{test_slot-write_slot}
use re_mlcxl.Admission.Candidates.Entries.{Entry, Has-modify}
use re_mlcxl.Admission.Control.{
  two_level, TwoLevelAdmissionControl, count_page, pass_page_threshold, admit, track,
  access_two_level, on_record_access,
}
use re_mlcxl.Admission.Control.Valid.{IsValid, admit-IsValid, count-IsValid}

known : Option HotPageCandidate → Bool
known none = false
known (some c) = true

known-modify :
    (m : List Entry) (p q : ℕ) (f : HotPageCandidate → HotPageCandidate)
    → known (find (modify m p f) q) ≡ known (find m q)
unfolding known find modify
known-modify [] p q f = refl
known-modify ((k, c) ∷ m) p q f =
    let ih = known-modify m p q f in
    elim (Bool-cases (k == p)) [
      | inl same ↦ rw same (masked (f c) (find m q) (find m q) (k == q) refl)
      | inr differ ↦ rw differ (masked c _ _ (k == q) ih)
    ]
  where
    masked :
        (a : HotPageCandidate) (x y : Option HotPageCandidate) (b : Bool)
        → known x ≡ known y
        → known (if b then some a else x) ≡ known (if b then some c else y)
    masked a x y true e = refl
    masked a x y false e = e

contains-known : (s : DramHotPageCandidates) (q : ℕ) → contains s q ≡ known (find s.map q)
unfolding contains known
contains-known s q = elim (Option-cases (find s.map q)) [
  | inl missing ↦ rw (contains, missing) refl
  | inr (c, there) ↦ rw (contains, there) refl
]

contains-add :
    (s : DramHotPageCandidates) (p visits slots bf : ℕ)
    → contains (add_candidate s p visits slots bf).1 p ≡ true
unfolding add_candidate find known
contains-add s p visits slots bf = elim (Option-cases (find s.map p)) [
  | inl missing ↦ rw (add_candidate, missing) (contains-known _ p ∙ rw (==-refl p) refl)
  | inr (c, there) ↦ rw (add_candidate, there) (contains-known s p ∙ ap known there)
]

accessed-touch :
    (slot bf : ℕ) (c : HotPageCandidate)
    → slot < max_slots_per_page
    → is_slot_accessed (touch_candidate slot bf c) slot ≡ true
unfolding is_slot_accessed touch_candidate mark_slot_as_accessed increment_visit_count
accessed-touch slot bf c lt = either (bf == 0)
  where
    written :
        (bits : Candidates.Bitmap)
        → Candidates.test_slot (Candidates.write_slot bits slot true) slot ≡ true
    written bits =
        rw
          (
            test_slot-write_slot bits slot slot true,
            ==-refl slot,
            lt→ltb slot max_slots_per_page lt,
          )
          refl

    either :
        (b : Bool)
        → Candidates.test_slot
            (Candidates.write_slot
              (if b then c else record c { cxl_bf = bf }).distinct_accessed_slot_set
              slot
              true)
            slot
          ≡ true
    either true = written c.distinct_accessed_slot_set
    either false = written c.distinct_accessed_slot_set

module _ (Double : Type 0) (page_hash target_of : ℕ → ℕ) (record_hash : ℕ × ℕ → ℕ)
    (uniform_of skew_of : ℕ → ℕ) (dynamic_of : Double → ℕ → ℕ) where
  -- Whether the page passes its threshold once it is counted.
  abbrev pub passed : Bool → TwoLevelAdmissionControl Double → ℕ → Bool
  passed try_lock s page_id =
      pass_page_threshold Double page_hash target_of record_hash uniform_of skew_of dynamic_of
        (count_page Double page_hash target_of record_hash uniform_of skew_of dynamic_of try_lock s
          page_id)
        page_id

  count-contains :
      (try_lock : Bool) (s : TwoLevelAdmissionControl Double) (page_id : ℕ)
      → contains
          (count_page Double page_hash target_of record_hash uniform_of skew_of dynamic_of try_lock
            s page_id).dram_hot_page_candidates
          page_id
        ≡ contains s.dram_hot_page_candidates page_id
  unfolding count_page contains Candidates.on_page_access
  count-contains try_lock s page_id = refl

  count-records :
      (try_lock : Bool) (s : TwoLevelAdmissionControl Double) (page_id : ℕ)
      → (count_page Double page_hash target_of record_hash uniform_of skew_of dynamic_of try_lock s
          page_id).record_cms
        ≡ s.record_cms
  unfolding count_page
  count-records try_lock s page_id = refl

  track-records :
      (s : TwoLevelAdmissionControl Double) (page_id slot bf : ℕ)
      → (track Double page_hash target_of record_hash uniform_of skew_of dynamic_of s page_id slot
          bf).record_cms
        ≡ cms_update record_hash s.record_cms (page_id, slot)
  unfolding track Candidates.on_record_access
  track-records s page_id slot bf = refl

  admit-contains :
      (s : TwoLevelAdmissionControl Double) (page_id slots bf : ℕ)
      → contains
          (admit Double page_hash target_of record_hash uniform_of skew_of dynamic_of s page_id
            slots bf).dram_hot_page_candidates
          page_id
        ≡ (pass_page_threshold Double page_hash target_of record_hash uniform_of skew_of dynamic_of
              s page_id
            || contains s.dram_hot_page_candidates page_id)
  unfolding admit
  admit-contains s page_id slots bf =
      elim (Bool-cases (
        pass_page_threshold Double page_hash target_of record_hash uniform_of skew_of dynamic_of s
          page_id)) [
            | inl hot ↦ rw (admit, hot) (contains-add s.dram_hot_page_candidates page_id _ slots bf)
            | inr cold ↦ rw (admit, cold) refl
          ]

  admit-records :
      (s : TwoLevelAdmissionControl Double) (page_id slots bf : ℕ)
      → (admit Double page_hash target_of record_hash uniform_of skew_of dynamic_of s page_id slots
          bf).record_cms
        ≡ s.record_cms
  unfolding admit
  admit-records s page_id slots bf =
      elim (Bool-cases (
        pass_page_threshold Double page_hash target_of record_hash uniform_of skew_of dynamic_of s
          page_id)) [ inl hot ↦ rw (admit, hot) refl | inr cold ↦ rw (admit, cold) refl ]

  track-contains :
      (s : TwoLevelAdmissionControl Double) (page_id slot bf q : ℕ)
      → contains
          (track Double page_hash target_of record_hash uniform_of skew_of dynamic_of s page_id slot
            bf).dram_hot_page_candidates
          q
        ≡ contains s.dram_hot_page_candidates q
  unfolding track Candidates.on_record_access
  track-contains s page_id slot bf q =
      contains-known _ q
      ∙ known-modify s.dram_hot_page_candidates.map page_id q (touch_candidate slot bf)
      ∙ sym (contains-known s.dram_hot_page_candidates q)

  track-accessed :
      (s : TwoLevelAdmissionControl Double) (page_id slot bf : ℕ) (c : HotPageCandidate)
      → slot < max_slots_per_page
      → IsValid s
      → Has
          (page_id, c)
          (track Double page_hash target_of record_hash uniform_of skew_of dynamic_of s page_id slot
            bf).dram_hot_page_candidates.map
      → is_slot_accessed c slot ≡ true
  unfolding track Candidates.on_record_access
  track-accessed s page_id slot bf c lt v h =
      let from =
        Has-modify s.dram_hot_page_candidates.map page_id (touch_candidate slot bf) (page_id, c)
          v.candidates.distinct h in
      elim from.2 [
        | inl same ↦ ap (λ x. is_slot_accessed x slot) same.1 ∙ accessed-touch slot bf from.0 lt
        | inr other ↦ absurd (other.0 refl)
      ]

  -- In the mode `two_level`, an access to a record of a page outside DRAM: if the page passes its
  -- threshold once it is counted, or was a candidate, then it is a candidate afterwards, the record
  -- sketch counts the record, and the candidate's slot, below 512, is marked as accessed; otherwise it is
  -- no candidate afterwards and the record sketch stays. This is for a well-formed control.
  pub access-tracked :
      (try_lock : Bool) (s : TwoLevelAdmissionControl Double) (page_id slot slots bf : ℕ)
      → slots ≤ max_slots_per_page
      → slot < max_slots_per_page
      → IsValid s
      → let t =
          on_record_access Double page_hash target_of record_hash uniform_of skew_of dynamic_of
            two_level try_lock s page_id slot false slots bf in
        let tracked = passed try_lock s page_id || contains s.dram_hot_page_candidates page_id in
        (contains t.dram_hot_page_candidates page_id ≡ tracked)
        × (t.record_cms ≡ (
            if tracked then cms_update record_hash s.record_cms (page_id, slot) else s.record_cms))
        × ((c : HotPageCandidate)
            → tracked ≡ true
            → Has (page_id, c) t.dram_hot_page_candidates.map
            → is_slot_accessed c slot ≡ true)
  unfolding on_record_access access_two_level
  access-tracked try_lock s page_id slot slots bf le lt v =
      let counted =
        count_page Double page_hash target_of record_hash uniform_of skew_of dynamic_of try_lock s
          page_id in
      let admitted =
        admit Double page_hash target_of record_hash uniform_of skew_of dynamic_of counted page_id
          slots bf in
      let passes = passed try_lock s page_id in
      let member : contains admitted.dram_hot_page_candidates page_id
          ≡ (passes || contains s.dram_hot_page_candidates page_id) =
        admit-contains counted page_id slots bf
        ∙ ap (λ b. passes || b) (count-contains try_lock s page_id) in
      let valid =
        admit-IsValid Double page_hash target_of record_hash uniform_of skew_of dynamic_of counted
          page_id slots bf le
          (count-IsValid Double page_hash target_of record_hash uniform_of skew_of dynamic_of
            try_lock s page_id v) in
      let same = admit-records counted page_id slots bf ∙ count-records try_lock s page_id in
      let absorbed =
        ap (λ b. passes || b) member
        ∙ absorb passes (contains s.dram_hot_page_candidates page_id) in
      elim (Bool-cases (passes || contains s.dram_hot_page_candidates page_id)) [
        | inl tracks ↦
            rw (access_two_level, absorbed, tracks)
              (
                track-contains admitted page_id slot bf page_id ∙ member ∙ tracks,
                track-records admitted page_id slot bf
                    ∙ ap (λ r. cms_update record_hash r (page_id, slot)) same,
                λ c _ h. track-accessed admitted page_id slot bf c lt valid h,
              )
        | inr ignores ↦
            rw (access_two_level, absorbed, ignores)
              (member ∙ ignores, same, λ c e h. absurd (false-ne e))
      ]
    where
      absorb : (a b : Bool) → (a || (a || b)) ≡ (a || b)
      absorb true b = refl
      absorb false b = refl

      false-ne : false ≢ true
      false-ne e = ground arith
