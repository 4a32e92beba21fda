-- ===== src/Admission/Candidates/Slots.antt =====
-- The slots that the iterations of `CheckAndPromote` visit, and the slots of its decisions.
use re_mlcxl.Base.{
  ℕ, zero, suc, ◌+◌, ◌*◌, ◌/◌, ◌%◌, ◌≤◌, ◌<◌, ◌≡◌, sym, ap, ◌∙◌, ◌⊎◌, inl, inr, Bool, true, false,
  ◌&&◌, ◌||◌, not, List, [], ◌∷◌, ◌++◌, arith, leb, ltb, if◌then◌else◌, Bool-cases, Has, Has-append,
}
use re_mlcxl.Admission.Candidates.{Bitmap, HotPageCandidate}
use re_mlcxl.Admission.Candidates.Check.{
  PromotionDecision, CandidateSnapshot, Verdict, snapshot_promoted, word_slots, slots_from,
  visited_slots, urgent_decisions, new_hot_slots, later_conditions, analyse, analyse_all, is_nil,
  hot_records, entire_page, take_snapshot, take_snapshots, choose,
}
use re_mlcxl.Admission.Candidates.Entries.{Entry}

-- The decisions name the slot for the page.
abbrev pub Decides : List PromotionDecision → ℕ → ℕ → Type 0
Decides [] p t = ⊥
Decides (d ∷ ds) p t =
    ((d.page_id ≡ p) × (d.promote_entire_page ≡ false) × Has t d.hot_slot_ids) ⊎ Decides ds p t

pub Decides-append :
    (ds es : List PromotionDecision) (p t : ℕ)
    → Decides (ds ++ es) p t
    → Decides ds p t ⊎ Decides es p t
Decides-append [] es p t h = inr h
Decides-append (d ∷ ds) es p t (inl h) = inl (inl h)
Decides-append (d ∷ ds) es p t (inr h) = elim (Decides-append ds es p t h) [
  | inl left ↦ inl (inr left)
  | inr right ↦ inr right
]

-- A slot of the page whose bit is set.
abbrev pub Marked : Bitmap → ℕ → ℕ → Type 0
Marked bits page_slot_num t = (t < page_slot_num) × (bits (t / 64) (t % 64) ≡ true)

word_slots-Marked :
    (bits : Bitmap) (word n rounds bit t : ℕ)
    → rounds + bit ≤ 64
    → Has t (word_slots (bits word) word n rounds bit)
    → Marked bits n t
unfolding word_slots
word_slots-Marked bits word n zero bit t le h = elim h [ ]
word_slots-Marked bits word n (suc rounds) bit t le h =
    let ih = word_slots-Marked bits word n rounds (bit + 1) t (omega arith) in
    elim (Bool-cases (bits word bit)) [
      | inr off ↦ ih (rw off at h)
      | inl on ↦ elim (Bool-cases (leb n (word * 64 + bit))) [
        | inl out ↦ elim (rw (on, out) at h) [ ]
        | inr inside ↦ elim (rw (on, inside) at h) [
          | inr later ↦ ih later
          | inl here ↦
              let row : t / 64 ≡ word = omega arith in
              let col : t % 64 ≡ bit = omega arith in (ground arith, rw (row, col) on)
        ]
      ]
    ]

slots_from-Marked :
    (bits : Bitmap) (n rounds word t : ℕ) → Has t (slots_from bits n rounds word) → Marked bits n t
unfolding slots_from
slots_from-Marked bits n zero word t h = elim h [ ]
slots_from-Marked bits n (suc rounds) word t h =
    elim (Has-append t (word_slots (bits word) word n 64 0) (slots_from bits n rounds (word + 1))
      h) [
        | inl first ↦ word_slots-Marked bits word n 64 0 t (omega arith) first
        | inr later ↦ slots_from-Marked bits n rounds (word + 1) t later
      ]

-- Every visited slot is a slot of the page whose bit is set.
pub visited_slots-Marked :
    (bits : Bitmap) (n t : ℕ) → Has t (visited_slots bits n) → Marked bits n t
unfolding visited_slots
visited_slots-Marked bits n t h = slots_from-Marked bits n 8 0 t h

Has-new_hot_slots :
    (snap : CandidateSnapshot) (count : ℕ → ℕ) (bound t : ℕ) (slots : List ℕ)
    → Has t (new_hot_slots snap count bound slots)
    → Has t slots × (snapshot_promoted snap t ≡ false)
unfolding new_hot_slots
Has-new_hot_slots snap count bound t [] h = elim h [ ]
Has-new_hot_slots snap count bound t (s ∷ slots) h =
    let ih = Has-new_hot_slots snap count bound t slots in
    let later : Has t (new_hot_slots snap count bound slots)
        → Has t (s ∷ slots) × (snapshot_promoted snap t ≡ false) =
      λ g. (inr (ih g).0, (ih g).1) in
    elim (Bool-cases (leb bound (count s))) [
      | inr cold ↦ later (rw cold at h)
      | inl hot ↦ elim (Bool-cases (snapshot_promoted snap s)) [
        | inl done ↦ later (rw (hot, done) at h)
        | inr fresh ↦ elim (rw (hot, fresh) at h) [
          | inl here ↦ (inl here, ap (snapshot_promoted snap) here ∙ fresh)
          | inr g ↦ later g
        ]
      ]
    ]

-- A slot of the snapshot that is not promoted, and is accessed or urgent.
abbrev pub Fresh : CandidateSnapshot → ℕ → Type 0
Fresh snap t =
    (t < snap.page_slot_num)
    × (snapshot_promoted snap t ≡ false)
    × ((snap.accessed_bits (t / 64) (t % 64) ≡ true) ⊎ (snap.urgent_bits (t / 64) (t % 64) ≡ true))

abbrev pub Sound : CandidateSnapshot → List PromotionDecision → Type 0
Sound snap ds = (p t : ℕ) → Decides ds p t → (snap.page_id ≡ p) × Fresh snap t

-- The same of a verdict, kept folded so that its branches can be read off.
SoundVerdict : CandidateSnapshot → Verdict → Type 0
SoundVerdict snap v = Sound snap v.decisions

pick :
    (snap : CandidateSnapshot) (b : Bool) (x y : Verdict)
    → SoundVerdict snap x
    → SoundVerdict snap y
    → SoundVerdict snap (if b then x else y)
pick snap true x y sx sy = sx
pick snap false x y sx sy = sy

keep : (snap : CandidateSnapshot) (v : Verdict) → Sound snap v.decisions → SoundVerdict snap v
unfolding SoundVerdict
keep snap v s = s

nothing-Sound : (snap : CandidateSnapshot) → Sound snap []
nothing-Sound snap p t h = elim h [ ]

entire-Sound : (snap : CandidateSnapshot) → Sound snap (entire_page snap).decisions
entire-Sound snap p t (inl h) = let e : true ≡ false = h.1 in absurd (ground arith)
entire-Sound snap p t (inr h) = elim h [ ]

hot-Sound :
    (snap : CandidateSnapshot) (count : ℕ → ℕ) (bound : ℕ)
    → Sound snap (
        hot_records snap
          (new_hot_slots snap count bound (visited_slots snap.accessed_bits snap.page_slot_num))
        ∷ [])
hot-Sound snap count bound p t (inr h) = elim h [ ]
hot-Sound snap count bound p t (inl h) =
    let slots = visited_slots snap.accessed_bits snap.page_slot_num in
    let found = Has-new_hot_slots snap count bound t slots h.2 in
    let set = visited_slots-Marked snap.accessed_bits snap.page_slot_num t found.0 in
    (h.0, (set.0, found.1, inl set.1))

urgent-Sound :
    (snap : CandidateSnapshot) (slots : List ℕ)
    → ((t : ℕ) → Has t slots → Marked snap.urgent_bits snap.page_slot_num t)
    → Sound snap (urgent_decisions snap slots)
unfolding urgent_decisions
urgent-Sound snap [] sets p t h = elim h [ ]
urgent-Sound snap (s ∷ slots) sets p t h =
    let ih = urgent-Sound snap slots (λ u g. sets u (inr g)) p t in
    elim (Bool-cases (snapshot_promoted snap s)) [
      | inl done ↦ ih (rw done at h)
      | inr fresh ↦ elim (rw fresh at h) [
        | inr later ↦ ih later
        | inl here ↦ elim here.2 [
          | inr none ↦ elim none [ ]
          | inl same ↦
              let set = sets t (inl same) in
              (here.0, (set.0, ap (snapshot_promoted snap) same ∙ fresh, inr set.1))
        ]
      ]
    ]

if_nil :
    (snap : CandidateSnapshot) (b c : Bool) (ds : List PromotionDecision)
    → Sound snap ds
    → SoundVerdict snap record { decisions = if b then [] else ds; remove = c }
unfolding SoundVerdict
if_nil snap true c ds s = nothing-Sound snap
if_nil snap false c ds s = s

choose-Sound :
    (snap : CandidateSnapshot) (visits slots skewed scan : Bool) (ratio_new : List ℕ)
    → Sound snap (hot_records snap ratio_new ∷ [])
    → SoundVerdict snap (choose snap visits slots skewed scan ratio_new)
unfolding choose
choose-Sound snap visits slots skewed scan ratio_new sound =
    let all = keep snap (entire_page snap) (entire-Sound snap) in
    pick snap (visits && (not skewed || scan)) _ _ all (
      pick snap (slots && (not skewed || scan)) _ _ all (
        pick snap skewed _ _ (if_nil snap (is_nil ratio_new) _ _ sound)
          (pick snap scan _ _ all (keep snap _ (nothing-Sound snap)))))

module _ (uniform_of skew_of : ℕ → ℕ) where
  later-Sound :
      (max_visits : ℕ) (scan : Bool) (snap : CandidateSnapshot) (count : ℕ → ℕ)
      → SoundVerdict snap (
          later_conditions uniform_of skew_of max_visits scan snap
            (visited_slots snap.accessed_bits snap.page_slot_num)
            count)
  unfolding later_conditions
  later-Sound max_visits scan snap count = choose-Sound snap _ _ _ _ _ (hot-Sound snap count _)

  analyse-Sound :
      (effective max_visits : ℕ) (scan : Bool) (counts : ℕ → ℕ → ℕ) (snap : CandidateSnapshot)
      → SoundVerdict snap (analyse uniform_of skew_of effective max_visits scan counts snap)
  unfolding analyse
  analyse-Sound effective max_visits scan counts snap =
      let slots = visited_slots snap.accessed_bits snap.page_slot_num in
      let count = counts snap.page_id in
      pick snap (is_nil (visited_slots snap.urgent_bits snap.page_slot_num)) _ _
        (strong (ltb 0 effective && not scan))
        (keep snap _
          (urgent-Sound snap _ (visited_slots-Marked snap.urgent_bits snap.page_slot_num)))
    where
      strong :
          (b : Bool)
          → let slots = visited_slots snap.accessed_bits snap.page_slot_num in
            let found =
              if b then new_hot_slots snap (counts snap.page_id) effective slots else [] in
            SoundVerdict snap (
              if is_nil found
              then later_conditions uniform_of skew_of max_visits scan snap slots
                  (counts snap.page_id)
              else record { decisions = hot_records snap found ∷ []; remove = false })
      strong false = later-Sound max_visits scan snap (counts snap.page_id)
      strong true =
          pick snap
            (is_nil (
              new_hot_slots snap (counts snap.page_id) effective
                (visited_slots snap.accessed_bits snap.page_slot_num)))
            _ _ (later-Sound max_visits scan snap (counts snap.page_id))
            (keep snap _ (hot-Sound snap (counts snap.page_id) effective))

  -- Where the decisions of phase 2 come from.
  pub analyse_all-Fresh :
      (effective max_visits : ℕ) (scan : Bool) (counts : ℕ → ℕ → ℕ) (m : List Entry) (p t : ℕ)
      → Decides
          (analyse_all uniform_of skew_of effective max_visits scan counts (take_snapshots m)).0
          p
          t
      → (c : HotPageCandidate) × Has (p, c) m × Fresh (take_snapshot (p, c)) t
  unfolding analyse_all take_snapshots take_snapshot SoundVerdict
  analyse_all-Fresh effective max_visits scan counts [] p t h = elim h [ ]
  analyse_all-Fresh effective max_visits scan counts ((k, c) ∷ m) p t h =
      elim (Decides-append _ _ p t h) [
        | inl here ↦
            let found =
              analyse-Sound effective max_visits scan counts (take_snapshot (k, c)) p t here in
            (c, inl (ap (λ q. (q, c)) (sym found.0)), found.1)
        | inr later ↦
            let found = analyse_all-Fresh effective max_visits scan counts m p t later in
            (found.0, inr found.1, found.2)
      ]
