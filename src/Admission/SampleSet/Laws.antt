-- ===== src/Admission/SampleSet/Laws.antt =====
-- The sampling set holds distinct pages, at most as many as its bound.
use re_mlcxl.Base.{
  ℕ, suc, ◌≤◌, ◌≡◌, refl, ap, Bool, true, false, ◌||◌, List, [], ◌∷◌, arith, add64, length, ltb,
  ◌==◌, if◌then◌else◌,
}
use re_mlcxl.Admission.SampleSet.{
  DepulicateSet, contains, on_page_access, fill, fill_sampled_page_visit_counts, reset,
  new_sample_set,
}

-- No page id stands twice.
abbrev pub Distinct : List (ℕ × ℕ) → Type 0
Distinct [] = Unit {0}
Distinct ((k, _) ∷ rest) = (contains k rest ≡ false) × Distinct rest

pub record IsValid (s : DepulicateSet) : Type 0 where
  pub bounded : length s.depulicate_sets ≤ s.max_sampled_page_ids
  pub distinct : Distinct s.depulicate_sets

pub new_sample_set-IsValid : (n t : ℕ) → IsValid (new_sample_set n t)
unfolding new_sample_set
new_sample_set-IsValid n t = record { bounded = omega arith; distinct = tt }

-- `OnPageAccess` keeps the set valid and adds no page but the accessed one. The accessed page is in
-- the set afterwards if the lock was free and the set was below its bound; in every case the request
-- counter is one larger, modulo 2 ^ 64.
pub on_page_access_lem :
    (try_lock : Bool) (s : DepulicateSet) (page_id other : ℕ)
    → IsValid s
    → let t = on_page_access try_lock s page_id in
      IsValid t
      × (t.current_request_count ≡ add64 s.current_request_count 1)
      × ((other == page_id) ≡ false
          → contains other t.depulicate_sets ≡ contains other s.depulicate_sets)
      × (contains page_id t.depulicate_sets ≡ (
          contains page_id s.depulicate_sets
          || (if try_lock then ltb (length s.depulicate_sets) s.max_sampled_page_ids else false)))
unfolding on_page_access
on_page_access_lem false s page_id other v =
    (record { bounded = v.bounded; distinct = v.distinct }, refl, λ _. refl, ground arith)
on_page_access_lem true s page_id other v = (
  record { bounded = ground arith; distinct = ground arith },
  refl,
  λ ne. ground arith,
  ground arith,
)

contains-fill :
    (query : ℕ → ℕ) (page_id : ℕ) (set : List (ℕ × ℕ))
    → contains page_id (fill query set) ≡ contains page_id set
unfolding fill contains
contains-fill query page_id [] = refl
contains-fill query page_id ((k, _) ∷ rest) =
    ap (λ (b : Bool). k == page_id || b) (contains-fill query page_id rest)

fill-Distinct :
    (query : ℕ → ℕ) (set : List (ℕ × ℕ))
    → Distinct set
    → Distinct (fill query set) × (length (fill query set) ≡ length set)
unfolding fill
fill-Distinct query [] d = (tt, refl)
fill-Distinct query ((k, _) ∷ rest) d =
    let (tail, len) = fill-Distinct query rest d.1 in
    ((rw (contains-fill query k rest) d.0, tail), ap suc len)

pub fill_sampled-IsValid :
    (query : ℕ → ℕ) (s : DepulicateSet)
    → IsValid s
    → IsValid (fill_sampled_page_visit_counts query s)
unfolding fill_sampled_page_visit_counts
fill_sampled-IsValid query s v =
    let (d, len) = fill-Distinct query s.depulicate_sets v.distinct in
    let b = v.bounded in record { bounded = omega arith; distinct = d }

pub reset-IsValid : (s : DepulicateSet) → IsValid (reset s)
unfolding reset
reset-IsValid s = record { bounded = omega arith; distinct = tt }
