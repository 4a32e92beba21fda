-- ===== src/Admission/Candidates/Promote.antt =====
-- The write-back of `CheckAndPromote`: what the slots of its decisions are afterwards.
use re_mlcxl.Base.{
  ℕ, ◌≤◌, ◌<◌, ◌≡◌, ◌≢◌, refl, sym, ◌∙◌, ◌⊎◌, inl, inr, Bool, true, false, ◌&&◌, List, [], ◌∷◌,
  arith, ltb, ◌==◌, if◌then◌else◌, Bool-cases, Has, ==-refl, lt→ltb,
}
use re_mlcxl.Admission.Candidates.{
  HotPageCandidate, DramHotPageCandidates, max_slots_per_page, modify, erase, is_slot_promoted,
  is_slot_urgent, mark_slot_as_promoted, clear_urgent_slot_bit,
}
use re_mlcxl.Admission.Candidates.Bits.{test_slot-write_slot}
use re_mlcxl.Admission.Candidates.Check.{
  PromotionDecision, promote_slots, apply_decisions, remove_pages, write_back,
}
use re_mlcxl.Admission.Candidates.Entries.{
  Entry, Distinct, Fits, All-modify, All-erase, Distinct-modify, Distinct-erase, Has-erase,
  Has-modify,
}
use re_mlcxl.Admission.Candidates.Slots.{Decides}

-- One candidate per page, of a page that has no more slots than a bitmap.
pub record IsValid (s : DramHotPageCandidates) : Type 0 where
  pub distinct : Distinct s.map
  pub fits : Fits s.map

-- A promotion leaves the other fields, adds the slot to the promoted ones and takes it from the urgent
-- ones.
promote-promoted :
    (c : HotPageCandidate) (s t : ℕ)
    → is_slot_promoted (mark_slot_as_promoted (clear_urgent_slot_bit c s) s) t
      ≡ (if (t == s) && ltb s max_slots_per_page then true else is_slot_promoted c t)
unfolding is_slot_promoted mark_slot_as_promoted clear_urgent_slot_bit
promote-promoted c s t = test_slot-write_slot c.already_promoted_slot_set s t true

promote-urgent :
    (c : HotPageCandidate) (s t : ℕ)
    → is_slot_urgent (mark_slot_as_promoted (clear_urgent_slot_bit c s) s) t
      ≡ (if (t == s) && ltb s max_slots_per_page then false else is_slot_urgent c t)
unfolding is_slot_urgent mark_slot_as_promoted clear_urgent_slot_bit
promote-urgent c s t = test_slot-write_slot c.urgent_pending_slot_set s t false

promoted_stays :
    (slots : List ℕ) (c : HotPageCandidate) (t : ℕ)
    → is_slot_promoted c t ≡ true
    → is_slot_promoted (promote_slots slots c) t ≡ true
unfolding promote_slots
promoted_stays [] c t h = h
promoted_stays (s ∷ slots) c t h =
    promoted_stays slots _ t (promote-promoted c s t ∙ stays ((t == s) && ltb s max_slots_per_page))
  where
    stays : (b : Bool) → (if b then true else is_slot_promoted c t) ≡ true
    stays true = refl
    stays false = h

urgent_gone :
    (slots : List ℕ) (c : HotPageCandidate) (t : ℕ)
    → is_slot_urgent c t ≡ false
    → is_slot_urgent (promote_slots slots c) t ≡ false
unfolding promote_slots
urgent_gone [] c t h = h
urgent_gone (s ∷ slots) c t h =
    urgent_gone slots _ t (promote-urgent c s t ∙ stays ((t == s) && ltb s max_slots_per_page))
  where
    stays : (b : Bool) → (if b then false else is_slot_urgent c t) ≡ false
    stays true = refl
    stays false = h

-- Promoted, and not urgent.
abbrev pub Settled : HotPageCandidate → ℕ → Type 0
Settled c t = (is_slot_promoted c t ≡ true) × (is_slot_urgent c t ≡ false)

Settled-stays :
    (slots : List ℕ) (c : HotPageCandidate) (t : ℕ)
    → Settled c t
    → Settled (promote_slots slots c) t
Settled-stays slots c t h = (promoted_stays slots c t h.0, urgent_gone slots c t h.1)

Settled-promote_slots :
    (slots : List ℕ) (c : HotPageCandidate) (t : ℕ)
    → t < max_slots_per_page
    → Has t slots
    → Settled (promote_slots slots c) t
unfolding promote_slots
Settled-promote_slots [] c t lt h = elim h [ ]
Settled-promote_slots (s ∷ slots) c t lt (inr h) = Settled-promote_slots slots _ t lt h
Settled-promote_slots (s ∷ slots) c t lt (inl e) =
    let here : ((t == s) && ltb s max_slots_per_page) ≡ true =
      rw (← e) (rw (==-refl t, lt→ltb t max_slots_per_page lt) refl) in
    Settled-stays slots _ t
      (rw (promote-promoted c s t, here) refl, rw (promote-urgent c s t, here) refl)

slots-promote_slots :
    (slots : List ℕ) (c : HotPageCandidate)
    → (promote_slots slots c).page_slot_num ≡ c.page_slot_num
unfolding promote_slots mark_slot_as_promoted clear_urgent_slot_bit
slots-promote_slots [] c = refl
slots-promote_slots (s ∷ slots) c = slots-promote_slots slots _

step : PromotionDecision → List Entry → List Entry
step d m = if d.promote_entire_page then m else modify m d.page_id (promote_slots d.hot_slot_ids)

-- What a candidate becomes: settled slots stay, and those of the decisions are settled.
abbrev pub Carries : List PromotionDecision → ℕ → HotPageCandidate → HotPageCandidate → Type 0
Carries ds p c c' = (t : ℕ) → t < max_slots_per_page → (Settled c t ⊎ Decides ds p t) → Settled c' t

step-Carries :
    (d : PromotionDecision) (m : List Entry) (e : Entry)
    → Distinct m
    → Has e (step d m)
    → (c : HotPageCandidate) × Has (e.0, c) m × Carries (d ∷ []) e.0 c e.1
unfolding step
step-Carries d m e distinct h = elim (Bool-cases d.promote_entire_page) [
  | inl entire ↦ (
    e.1,
    rw entire at h,
    λ t lt s. elim s [
      | inl settled ↦ settled
      | inr (inl named) ↦ absurd (true-ne (sym entire ∙ named.1))
      | inr (inr empty) ↦ elim empty [ ]
    ],
  )
  | inr slots ↦
      let from = Has-modify m d.page_id (promote_slots d.hot_slot_ids) e distinct (rw slots at h) in
      (
        from.0,
        from.1,
        λ t lt s. elim from.2 [
          | inl here ↦ rw here.1 (elim s [
            | inl settled ↦ Settled-stays d.hot_slot_ids from.0 t settled
            | inr (inl named) ↦ Settled-promote_slots d.hot_slot_ids from.0 t lt named.2
            | inr (inr empty) ↦ elim empty [ ]
          ])
          | inr other ↦ elim s [
            | inl settled ↦ rw other.1 settled
            | inr (inl named) ↦ absurd (other.0 (sym named.0))
            | inr (inr empty) ↦ elim empty [ ]
          ]
        ],
      )
]
  where
    true-ne : true ≢ false
    true-ne e = ground arith

Distinct-step : (d : PromotionDecision) (m : List Entry) → Distinct m → Distinct (step d m)
unfolding step
Distinct-step d m h = if_both d.promote_entire_page
  where
    if_both :
        (b : Bool) → Distinct (if b then m else modify m d.page_id (promote_slots d.hot_slot_ids))
    if_both true = h
    if_both false = Distinct-modify m d.page_id (promote_slots d.hot_slot_ids) h

Fits-step : (d : PromotionDecision) (m : List Entry) → Fits m → Fits (step d m)
unfolding step
Fits-step d m h = if_both d.promote_entire_page
  where
    if_both : (b : Bool) → Fits (if b then m else modify m d.page_id (promote_slots d.hot_slot_ids))
    if_both true = h
    if_both false =
        All-modify (λ e. e.1.page_slot_num ≤ max_slots_per_page) (promote_slots d.hot_slot_ids)
          (λ _ c le. rw (slots-promote_slots d.hot_slot_ids c) le) m d.page_id h

Distinct-apply :
    (ds : List PromotionDecision) (m : List Entry) → Distinct m → Distinct (apply_decisions ds m)
unfolding apply_decisions step
Distinct-apply [] m h = h
Distinct-apply (d ∷ ds) m h = Distinct-apply ds (step d m) (Distinct-step d m h)

Fits-apply : (ds : List PromotionDecision) (m : List Entry) → Fits m → Fits (apply_decisions ds m)
unfolding apply_decisions step
Fits-apply [] m h = h
Fits-apply (d ∷ ds) m h = Fits-apply ds (step d m) (Fits-step d m h)

apply-Carries :
    (ds : List PromotionDecision) (m : List Entry) (e : Entry)
    → Distinct m
    → Has e (apply_decisions ds m)
    → (c : HotPageCandidate) × Has (e.0, c) m × Carries ds e.0 c e.1
unfolding apply_decisions step
apply-Carries [] m e distinct h =
    (e.1, h, λ t lt s. elim s [ inl settled ↦ settled | inr empty ↦ elim empty [ ] ])
apply-Carries (d ∷ ds) m e distinct h =
    let last = apply-Carries ds (step d m) e (Distinct-step d m distinct) h in
    let first = step-Carries d m (e.0, last.0) distinct last.1 in
    (
      first.0,
      first.1,
      λ t lt s. elim s [
        | inl settled ↦ last.2 t lt (inl (first.2 t lt (inl settled)))
        | inr (inl named) ↦ last.2 t lt (inl (first.2 t lt (inr (inl named))))
        | inr (inr later) ↦ last.2 t lt (inr later)
      ],
    )

Has-remove_pages : (ps : List ℕ) (m : List Entry) (e : Entry) → Has e (remove_pages ps m) → Has e m
unfolding remove_pages
Has-remove_pages [] m e h = h
Has-remove_pages (p ∷ ps) m e h = Has-erase m p e (Has-remove_pages ps (erase m p) e h)

Distinct-remove_pages : (ps : List ℕ) (m : List Entry) → Distinct m → Distinct (remove_pages ps m)
unfolding remove_pages
Distinct-remove_pages [] m h = h
Distinct-remove_pages (p ∷ ps) m h = Distinct-remove_pages ps (erase m p) (Distinct-erase m p h)

Fits-remove_pages : (ps : List ℕ) (m : List Entry) → Fits m → Fits (remove_pages ps m)
unfolding remove_pages
Fits-remove_pages [] m h = h
Fits-remove_pages (p ∷ ps) m h =
    Fits-remove_pages ps (erase m p) (All-erase (λ e. e.1.page_slot_num ≤ max_slots_per_page) m p h)

-- The write-back of any decisions keeps the candidates well-formed. Afterwards each candidate was one
-- before, whose promoted slots without a pending mark stay so, and every slot that the decisions name
-- for its page, below 512, is promoted and no longer pending.
pub write_back-IsValid :
    (ds : List PromotionDecision) (to_remove : List ℕ) (s : DramHotPageCandidates)
    → IsValid s
    → IsValid (write_back ds to_remove s)
      × ((e : Entry)
          → Has e (write_back ds to_remove s).map
          → (c : HotPageCandidate) × Has (e.0, c) s.map × Carries ds e.0 c e.1)
unfolding write_back
write_back-IsValid ds to_remove s valid = (
  record {
    distinct = Distinct-remove_pages to_remove _ (Distinct-apply ds s.map valid.distinct);
    fits = Fits-remove_pages to_remove _ (Fits-apply ds s.map valid.fits);
  },
  λ e h. apply-Carries ds s.map e valid.distinct (Has-remove_pages to_remove _ e h),
)
