-- ===== src/Admission/Candidates/Entries.antt =====
-- The list of candidates: distinct pages, and what a change or an erasure does to its entries.
use re_mlcxl.Base.{
  ℕ, ◌≤◌, ◌≡◌, ◌≢◌, refl, sym, ap, ◌∙◌, ◌⊎◌, inl, inr, List, [], ◌∷◌, ◌==◌, Bool-cases, ==→eq,
  not-==→ne, subst, All, Has,
}
use re_mlcxl.Admission.Candidates.{HotPageCandidate, max_slots_per_page, modify, erase}

abbrev pub Entry : Type 0
Entry = ℕ × HotPageCandidate

abbrev pub Absent : ℕ → List Entry → Type 0
Absent k m = All (λ e. k ≢ e.0) m

abbrev pub Distinct : List Entry → Type 0
Distinct [] = Unit
Distinct ((k, c) ∷ rest) = Absent k rest × Distinct rest

-- No page has more slots than a bitmap.
abbrev pub Fits : List Entry → Type 0
Fits m = All (λ e. e.1.page_slot_num ≤ max_slots_per_page) m

pub All-Has : (P : Entry → Type 0) (m : List Entry) (e : Entry) → All P m → Has e m → P e
All-Has P [] e all h = elim h [ ]
All-Has P (x ∷ m) e all (inl same) = subst P (sym same) all.0
All-Has P (x ∷ m) e all (inr h) = All-Has P m e all.1 h

pub All-modify :
    (P : Entry → Type 0) (f : HotPageCandidate → HotPageCandidate)
    → ((k : ℕ) (c : HotPageCandidate) → P (k, c) → P (k, f c))
    → (m : List Entry) (p : ℕ) → All P m
    → All P (modify m p f)
unfolding modify
All-modify P f keeps [] p all = all
All-modify P f keeps ((k, c) ∷ m) p all = elim (Bool-cases (k == p)) [
  | inl same ↦ rw same (keeps k c all.0, all.1)
  | inr differ ↦ rw differ (all.0, All-modify P f keeps m p all.1)
]

pub All-erase : (P : Entry → Type 0) (m : List Entry) (p : ℕ) → All P m → All P (erase m p)
unfolding erase
All-erase P [] p all = all
All-erase P ((k, c) ∷ m) p all = elim (Bool-cases (k == p)) [
  | inl same ↦ rw same (All-erase P m p all.1)
  | inr differ ↦ rw differ (all.0, All-erase P m p all.1)
]

pub Distinct-modify :
    (m : List Entry) (p : ℕ) (f : HotPageCandidate → HotPageCandidate)
    → Distinct m
    → Distinct (modify m p f)
unfolding modify
Distinct-modify [] p f d = d
Distinct-modify ((k, c) ∷ m) p f d = elim (Bool-cases (k == p)) [
  | inl same ↦ rw same d
  | inr differ ↦
      rw differ
        (All-modify (λ e. k ≢ e.0) f (λ _ _ absent. absent) m p d.0, Distinct-modify m p f d.1)
]

pub Distinct-erase : (m : List Entry) (p : ℕ) → Distinct m → Distinct (erase m p)
unfolding erase
Distinct-erase [] p d = d
Distinct-erase ((k, c) ∷ m) p d = elim (Bool-cases (k == p)) [
  | inl same ↦ rw same (Distinct-erase m p d.1)
  | inr differ ↦ rw differ (All-erase (λ e. k ≢ e.0) m p d.0, Distinct-erase m p d.1)
]

pub Has-erase : (m : List Entry) (p : ℕ) (e : Entry) → Has e (erase m p) → Has e m
unfolding erase
Has-erase [] p e h = h
Has-erase ((k, c) ∷ m) p e h = elim (Bool-cases (k == p)) [
  | inl same ↦ inr (Has-erase m p e (rw same at h))
  | inr differ ↦ elim (rw differ at h) [
    | inl here ↦ inl here
    | inr later ↦ inr (Has-erase m p e later)
  ]
]

-- Where an entry of a changed list comes from.
abbrev pub From : List Entry → ℕ → (HotPageCandidate → HotPageCandidate) → Entry → Type 0
From m p f e =
    (c : HotPageCandidate) × Has (e.0, c) m × (((e.0 ≡ p) × (e.1 ≡ f c)) ⊎ ((e.0 ≢ p) × (e.1 ≡ c)))

pub Has-modify :
    (m : List Entry) (p : ℕ) (f : HotPageCandidate → HotPageCandidate) (e : Entry)
    → Distinct m
    → Has e (modify m p f)
    → From m p f e
unfolding modify
Has-modify [] p f e d h = elim h [ ]
Has-modify ((k, c) ∷ m) p f e d h = elim (Bool-cases (k == p)) [
  | inl same ↦
      let eq = ==→eq k p same in
      elim (rw same at h) [
        | inl here ↦
            (c, inl (ap (λ x. (x.0, c)) here), inl (ap (λ x. x.0) here ∙ eq, ap (λ x. x.1) here))
        | inr later ↦
            (e.1, inr later, inr (λ at. All-Has (λ x. k ≢ x.0) m e d.0 later (eq ∙ sym at), refl))
      ]
  | inr differ ↦ elim (rw differ at h) [
    | inl here ↦ (
      c,
      inl (ap (λ x. (x.0, c)) here),
      inr (λ at. not-==→ne k p differ (sym (ap (λ x. x.0) here) ∙ at), ap (λ x. x.1) here),
    )
    | inr later ↦ let found = Has-modify m p f e d.1 later in (found.0, inr found.1, found.2)
  ]
]
