-- ===== src/Admission/Control/Scan.antt =====
-- What a scan leaves: it adds to the page-level signal only.
use re_mlcxl.Base.{
  ℕ, ◌≡◌, refl, ap, ◌⊎◌, inl, inr, Bool, true, false, List, Bool-cases, Option-cases, Has,
}
use re_mlcxl.Admission.Candidates
use re_mlcxl.Admission.Candidates.{
  HotPageCandidate, DramHotPageCandidates, new_candidate, find, add_candidate,
}
use re_mlcxl.Admission.Candidates.Entries.{Entry}
use re_mlcxl.Admission.Control.{
  AdmissionMode, lru, page_only, two_level, TwoLevelAdmissionControl, access_lru, access_page_only,
  count_page, pass_page_threshold, admit, on_page_access_for_scan,
}

-- Candidates that were there, or are the page's new one with nothing accessed.
abbrev pub OrNew : List Entry → ℕ → ℕ → ℕ → Entry → Type 0
OrNew m page_id slots bf e =
    Has e m ⊎ ((e.0 ≡ page_id) × ((visits : ℕ) × (e.1 ≡ new_candidate visits slots bf)))

add-OrNew :
    (s : DramHotPageCandidates) (p visits slots bf : ℕ) (e : Entry)
    → Has e (add_candidate s p visits slots bf).1.map
    → OrNew s.map p slots bf e
unfolding add_candidate
add-OrNew s p visits slots bf e h = elim (Option-cases (find s.map p)) [
  | inr (c, there) ↦ inl (rw (add_candidate, there) at h)
  | inl missing ↦ elim (rw (add_candidate, missing) at h) [
    | inr old ↦ inl old
    | inl new ↦ inr (ap (λ x. x.0) new, (visits, ap (λ x. x.1) new))
  ]
]

module _ (Double : Type 0) (page_hash target_of : ℕ → ℕ) (record_hash : ℕ × ℕ → ℕ)
    (uniform_of skew_of : ℕ → ℕ) (dynamic_of : Double → ℕ → ℕ) where
  admit-OrNew :
      (s : TwoLevelAdmissionControl Double) (page_id slots bf : ℕ)
      → let t =
          admit Double page_hash target_of record_hash uniform_of skew_of dynamic_of s page_id slots
            bf in
        (t.record_cms ≡ s.record_cms)
        × ((e : Entry)
            → Has e t.dram_hot_page_candidates.map
            → OrNew s.dram_hot_page_candidates.map page_id slots bf e)
  unfolding admit
  admit-OrNew s page_id slots bf =
      elim (Bool-cases (
        pass_page_threshold Double page_hash target_of record_hash uniform_of skew_of dynamic_of s
          page_id)) [
            | inr cold ↦ rw (admit, cold) (refl, λ e h. inl h)
            | inl hot ↦
                rw (admit, hot)
                  (refl, λ e h. add-OrNew s.dram_hot_page_candidates page_id _ slots bf e h)
          ]

  -- In every mode, a scan of a page leaves the record sketch, and each candidate afterwards was the same
  -- candidate before, or is the scanned page's new one, with no slot accessed, promoted or urgent.
  pub scan-OrNew :
      (mode : AdmissionMode) (try_lock in_dram : Bool) (s : TwoLevelAdmissionControl Double)
      → (page_id slots bf : ℕ)
      → let t =
          on_page_access_for_scan Double page_hash target_of record_hash uniform_of skew_of
            dynamic_of mode try_lock s page_id in_dram slots bf in
        (t.record_cms ≡ s.record_cms)
        × ((e : Entry)
            → Has e t.dram_hot_page_candidates.map
            → OrNew s.dram_hot_page_candidates.map page_id slots bf e)
  unfolding on_page_access_for_scan access_lru access_page_only count_page Candidates.on_page_access
  scan-OrNew mode try_lock true s page_id slots bf = (refl, λ e h. inl h)
  scan-OrNew lru try_lock false s page_id slots bf = (refl, λ e h. inl h)
  scan-OrNew page_only try_lock false s page_id slots bf = (refl, λ e h. inl h)
  scan-OrNew two_level try_lock false s page_id slots bf =
      admit-OrNew
        (count_page Double page_hash target_of record_hash uniform_of skew_of dynamic_of try_lock s
          page_id)
        page_id slots bf
