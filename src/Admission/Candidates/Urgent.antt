-- ===== src/Admission/Candidates/Urgent.antt =====
-- The urgent slots of `CheckAndPromote`, and the slots that `ClearPromotedSlot` makes urgent.
use re_mlcxl.Base.{
  ℕ, zero, suc, ◌+◌, ◌*◌, ◌/◌, ◌%◌, ◌≤◌, ◌<◌, ◌≡◌, ◌≢◌, refl, sym, ap, ◌∙◌, inl, inr, Bool, true,
  false, List, [], ◌∷◌, ◌++◌, arith, leb, ◌==◌, Bool-cases, ==→eq, not-==→ne, ==-refl, subst, Has,
  lt→ltb,
}
use re_mlcxl.Admission.Sketch.{CountMinSketch, cms_query}
use re_mlcxl.Admission.Candidates.{
  Bitmap, HotPageCandidate, DramHotPageCandidates, max_slots_per_page, modify, is_slot_promoted,
  is_slot_urgent, clear_promoted_slot, clear_promoted_slot_bit, mark_slot_as_urgent,
  get_effective_max_per_page_visits,
}
use re_mlcxl.Admission.Candidates.Bits.{test_slot-write_slot}
use re_mlcxl.Admission.Candidates.Check.{
  PromotionDecision, CandidateSnapshot, snapshot_promoted, word_slots, slots_from, visited_slots,
  urgent_decisions, analyse, analyse_all, is_nil, take_snapshot, take_snapshots, decide,
  check_and_promote, effective_threshold,
}
use re_mlcxl.Admission.Candidates.Entries.{Entry, Distinct, All-Has}
use re_mlcxl.Admission.Candidates.Slots.{Decides}
use re_mlcxl.Admission.Candidates.Promote.{IsValid}
use re_mlcxl.Admission.Candidates.Once.{small_slot}

Has-left : {A : Type 0} (a : A) (xs ys : List A) → Has a xs → Has a (xs ++ ys)
Has-left a [] ys h = elim h [ ]
Has-left a (x ∷ xs) ys (inl e) = inl e
Has-left a (x ∷ xs) ys (inr h) = inr (Has-left a xs ys h)

Has-right : {A : Type 0} (a : A) (xs ys : List A) → Has a ys → Has a (xs ++ ys)
Has-right a [] ys h = h
Has-right a (x ∷ xs) ys h = inr (Has-right a xs ys h)

Decides-left : (ds es : List PromotionDecision) (p t : ℕ) → Decides ds p t → Decides (ds ++ es) p t
Decides-left [] es p t h = elim h [ ]
Decides-left (d ∷ ds) es p t (inl h) = inl h
Decides-left (d ∷ ds) es p t (inr h) = inr (Decides-left ds es p t h)

Decides-right : (ds es : List PromotionDecision) (p t : ℕ) → Decides es p t → Decides (ds ++ es) p t
Decides-right [] es p t h = h
Decides-right (d ∷ ds) es p t h = inr (Decides-right ds es p t h)

Has-word_slots :
    (bits : ℕ → Bool) (word n k rounds bit : ℕ)
    → rounds + bit ≡ 64
    → bit ≤ k
    → k < 64
    → bits k ≡ true
    → word * 64 + k < n
    → Has (word * 64 + k) (word_slots bits word n rounds bit)
unfolding word_slots
Has-word_slots bits word n k zero bit sum le lt on inside = absurd (omega arith)
Has-word_slots bits word n k (suc rounds) bit sum le lt on inside = elim (Bool-cases (k == bit)) [
  | inl here ↦
      let e = ==→eq k bit here in
      let set : bits bit ≡ true = subst (λ j. bits j ≡ true) e on in
      let room : leb n (word * 64 + bit) ≡ false = ground arith in
      rw (set, room) (inl (ap (λ j. word * 64 + j) e))
  | inr differ ↦
      let ne = not-==→ne k bit differ in
      let room : leb n (word * 64 + bit) ≡ false = ground arith in
      let ih =
        Has-word_slots bits word n k rounds (bit + 1) (omega arith) (omega (arith, ne)) lt on
          inside in
      elim (Bool-cases (bits bit)) [ inl set ↦ rw (set, room) (inr ih) | inr clear ↦ rw clear ih ]
]

Has-slots_from :
    (bits : Bitmap) (n w k rounds word : ℕ)
    → word ≤ w
    → w < word + rounds
    → k < 64
    → bits w k ≡ true
    → w * 64 + k < n
    → Has (w * 64 + k) (slots_from bits n rounds word)
unfolding slots_from
Has-slots_from bits n w k zero word le lt small on inside = absurd (omega arith)
Has-slots_from bits n w k (suc rounds) word le lt small on inside = elim (Bool-cases (w == word)) [
  | inl here ↦
      let e = ==→eq w word here in
      Has-left (w * 64 + k) (word_slots (bits word) word n 64 0) _ (
        subst (λ v. Has (w * 64 + k) (word_slots (bits v) v n 64 0)) e
          (Has-word_slots (bits w) w n k 64 0 refl (omega arith) small on inside))
  | inr differ ↦
      let ne = not-==→ne w word differ in
      Has-right (w * 64 + k) (word_slots (bits word) word n 64 0) _ (
        Has-slots_from bits n w k rounds (word + 1) (omega (arith, ne)) (omega arith) small on
          inside)
]

-- Every slot of the page below 512 whose bit is set is visited.
pub Has-visited_slots :
    (bits : Bitmap) (n t : ℕ)
    → t < n
    → t < max_slots_per_page
    → bits (t / 64) (t % 64) ≡ true
    → Has t (visited_slots bits n)
unfolding visited_slots
Has-visited_slots bits n t lt small on =
    let parts : t / 64 * 64 + t % 64 ≡ t = omega arith in
    subst (λ u. Has u (slots_from bits n 8 0)) parts
      (Has-slots_from bits n (t / 64) (t % 64) 8 0 (omega arith) (omega arith) (omega arith) on
        (omega arith))

Decides-urgent_decisions :
    (snap : CandidateSnapshot) (t : ℕ) (slots : List ℕ)
    → Has t slots
    → snapshot_promoted snap t ≡ false
    → Decides (urgent_decisions snap slots) snap.page_id t
unfolding urgent_decisions
Decides-urgent_decisions snap t [] h fresh = elim h [ ]
Decides-urgent_decisions snap t (s ∷ slots) (inl e) fresh =
    let f : snapshot_promoted snap s ≡ false =
      subst (λ u. snapshot_promoted snap u ≡ false) e fresh in
    rw f (inl (refl, refl, inl e))
Decides-urgent_decisions snap t (s ∷ slots) (inr h) fresh =
    let ih = Decides-urgent_decisions snap t slots h fresh in
    elim (Bool-cases (snapshot_promoted snap s)) [
      | inl done ↦ rw done ih
      | inr new ↦ rw new (inr ih)
    ]

not_nil : (t : ℕ) (slots : List ℕ) → Has t slots → is_nil slots ≡ false
not_nil t [] h = elim h [ ]
not_nil t (s ∷ slots) h = refl

Has-modify_self :
    (m : List Entry) (p : ℕ) (c : HotPageCandidate) (f : HotPageCandidate → HotPageCandidate)
    → Distinct m
    → Has (p, c) m
    → Has (p, f c) (modify m p f)
unfolding modify
Has-modify_self [] p c f d h = elim h [ ]
Has-modify_self ((k, c') ∷ m) p c f d (inl e) =
    let same : (k == p) ≡ true = rw (ap (λ x. x.0) e) (==-refl k) in
    rw same (inl (ap (λ x. (x.0, f x.1)) e))
Has-modify_self ((k, c') ∷ m) p c f d (inr h) =
    let ne = All-Has (λ e. k ≢ e.0) m (p, c) d.0 h in
    let differ : (k == p) ≡ false = ground (arith, ne) in
    rw differ (inr (Has-modify_self m p c f d.1 h))

module _ (uniform_of skew_of : ℕ → ℕ) where
  analyse_all-urgent :
      (effective max_visits : ℕ) (scan : Bool) (counts : ℕ → ℕ → ℕ) (m : List Entry) (p t : ℕ)
      → (c : HotPageCandidate) → Has (p, c) m
      → Has t (visited_slots c.urgent_pending_slot_set c.page_slot_num)
      → snapshot_promoted (take_snapshot (p, c)) t ≡ false
      → Decides
          (analyse_all uniform_of skew_of effective max_visits scan counts (take_snapshots m)).0
          p
          t
  unfolding analyse_all analyse take_snapshots take_snapshot
  analyse_all-urgent effective max_visits scan counts [] p t c h visited fresh = elim h [ ]
  analyse_all-urgent effective max_visits scan counts ((k, c') ∷ m) p t c (inr h) visited fresh =
      Decides-right _ _ p t
        (analyse_all-urgent effective max_visits scan counts m p t c h visited fresh)
  analyse_all-urgent effective max_visits scan counts ((k, c') ∷ m) p t c (inl e) visited fresh =
      Decides-left _ _ p t (
        subst
          (λ x.
            Decides
              (analyse uniform_of skew_of effective max_visits scan counts
                (take_snapshot x)).decisions
              p t)
          e
          (rw (not_nil t _ visited)
            (Decides-urgent_decisions (take_snapshot (p, c)) t _ visited fresh)))

cleared : ℕ → HotPageCandidate → HotPageCandidate
cleared t c = mark_slot_as_urgent (clear_promoted_slot_bit c t) t

cleared-urgent :
    (t : ℕ) (c : HotPageCandidate) → t < max_slots_per_page → is_slot_urgent (cleared t c) t ≡ true
unfolding cleared is_slot_urgent mark_slot_as_urgent clear_promoted_slot_bit
cleared-urgent t c lt =
    rw
      (
        test_slot-write_slot c.urgent_pending_slot_set t t true,
        ==-refl t,
        lt→ltb t max_slots_per_page lt,
      )
      refl

cleared-promoted :
    (t : ℕ) (c : HotPageCandidate)
    → t < max_slots_per_page
    → is_slot_promoted (cleared t c) t ≡ false
unfolding cleared is_slot_promoted mark_slot_as_urgent clear_promoted_slot_bit
cleared-promoted t c lt =
    rw
      (
        test_slot-write_slot c.already_promoted_slot_set t t false,
        ==-refl t,
        lt→ltb t max_slots_per_page lt,
      )
      refl

slots-cleared : (t : ℕ) (c : HotPageCandidate) → (cleared t c).page_slot_num ≡ c.page_slot_num
unfolding cleared mark_slot_as_urgent clear_promoted_slot_bit
slots-cleared t c = refl

module _ (record_hash : ℕ × ℕ → ℕ) (uniform_of skew_of dynamic_of : ℕ → ℕ) where
  -- An urgent slot of a candidate that is not promoted, below the page's number of slots and below 512,
  -- is decided by `CheckAndPromote`, whatever the sketch, the threshold and the workload.
  pub urgent-decided :
      (cms : CountMinSketch) (threshold : ℕ) (scan : Bool) (s : DramHotPageCandidates) (p t : ℕ)
      → (c : HotPageCandidate) → Has (p, c) s.map
      → t < c.page_slot_num
      → t < max_slots_per_page
      → is_slot_urgent c t ≡ true
      → is_slot_promoted c t ≡ false
      → Decides
          (check_and_promote record_hash uniform_of skew_of dynamic_of cms threshold scan s).0
          p
          t
  unfolding check_and_promote decide is_slot_urgent is_slot_promoted take_snapshot
  urgent-decided cms threshold scan s p t c h lt small urgent fresh =
      analyse_all-urgent uniform_of skew_of (effective_threshold dynamic_of threshold)
        (get_effective_max_per_page_visits s) scan
        (λ page_id slot_id. cms_query record_hash cms (page_id, slot_id)) s.map p t c h
        (Has-visited_slots c.urgent_pending_slot_set c.page_slot_num t lt small
          (sym (small_slot c.urgent_pending_slot_set t small) ∙ urgent))
        (sym (small_slot c.already_promoted_slot_set t small) ∙ fresh)

  -- For well-formed candidates: after `ClearPromotedSlot` of a slot that the page of a candidate has, the
  -- next `CheckAndPromote` decides that slot for the page.
  pub invalidated-decided :
      (cms : CountMinSketch) (threshold : ℕ) (scan : Bool) (s : DramHotPageCandidates) (p t : ℕ)
      → (c : HotPageCandidate) → IsValid s
      → Has (p, c) s.map
      → t < c.page_slot_num
      → Decides
          (check_and_promote record_hash uniform_of skew_of dynamic_of cms threshold scan
            (clear_promoted_slot s p t)).0
          p
          t
  unfolding clear_promoted_slot cleared
  invalidated-decided cms threshold scan s p t c valid h lt =
      let fits = All-Has (λ e. e.1.page_slot_num ≤ max_slots_per_page) s.map (p, c) valid.fits h in
      let small : t < max_slots_per_page = omega arith in
      urgent-decided cms threshold scan (clear_promoted_slot s p t) p t (cleared t c)
        (Has-modify_self s.map p c (cleared t) valid.distinct h) (rw (slots-cleared t c) lt) small
        (cleared-urgent t c small) (cleared-promoted t c small)
