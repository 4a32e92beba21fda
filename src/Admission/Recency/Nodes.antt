-- ===== src/Admission/Recency/Nodes.antt =====
-- The nodes of the recency list, its specification as a list of pages by recency, and what is left when
-- the node of a page is taken out.
use re_mlcxl.Base.{
  ℕ, zero, suc, ◌<◌, ◌≡◌, ◌≢◌, refl, sym, ap, inl, inr, false, List, [], ◌∷◌, Option, none, some,
  arith, ◌==◌, if◌then◌else◌, Bool-cases, ==→eq, not-==→ne, ==-refl, subst, All,
}
use re_mlcxl.Admission.Candidates.Check.{PromotionDecision}
use re_mlcxl.Admission.Recency.{
  LruCandidate, RecencyList, lookup, node_at, detach, set_frame, full_page,
}

-- The specification keeps only the pages with their frames, the most recent first.
unfoldable pub without : List LruCandidate → ℕ → List LruCandidate
without [] page_id = []
without (c ∷ rest) page_id =
    let later = without rest page_id in if c.page_id == page_id then later else c ∷ later

abbrev pub recent : List LruCandidate → ℕ → ℕ → List LruCandidate
recent pages page_id cxl_bf = record { page_id = page_id; cxl_bf = cxl_bf } ∷ without pages page_id

abbrev pub promoted : ℕ → List LruCandidate → List PromotionDecision
promoted zero pages = []
promoted (suc n) [] = []
promoted (suc n) (c ∷ pages) = full_page c ∷ promoted n pages

-- What the nodes show, and the node of a page.
abbrev pub view : List (ℕ × LruCandidate) → List LruCandidate
view [] = []
view ((i, c) ∷ nodes) = c ∷ view nodes

unfoldable pub node_of : List (ℕ × LruCandidate) → ℕ → Option ℕ
node_of [] page_id = none
node_of ((i, c) ∷ nodes) page_id =
    let later = node_of nodes page_id in if c.page_id == page_id then some i else later

-- Another node, of another page.
abbrev pub Apart : ℕ → ℕ → List (ℕ × LruCandidate) → Type 0
Apart i p nodes = All (λ n. (i ≢ n.0) × (p ≢ n.1.page_id)) nodes

abbrev pub Distinct : List (ℕ × LruCandidate) → Type 0
Distinct [] = Unit
Distinct ((i, c) ∷ nodes) = Apart i c.page_id nodes × Distinct nodes

-- The nodes and their pages are distinct, new ids are new, and the index gives the node of each page
-- that has one.
pub record IsValid (l : RecencyList) : Type 0 where
  pub distinct : Distinct l.candidates
  pub below : All (λ n. n.0 < l.next_node) l.candidates
  pub indexed : (page_id : ℕ) → lookup l.index page_id ≡ node_of l.candidates page_id

without-Apart :
    (i p : ℕ) (nodes : List (ℕ × LruCandidate))
    → Apart i p nodes
    → without (view nodes) p ≡ view nodes
unfolding without
without-Apart i p [] h = refl
without-Apart i p ((j, c) ∷ nodes) h =
    let ne = h.0.1 in
    let differ : (c.page_id == p) ≡ false = ground (arith, ne) in
    rw differ (ap (λ rest. c ∷ rest) (without-Apart i p nodes h.1))

none-ne : (j : ℕ) → none ≢ some j
none-ne j e = ground arith

value : Option ℕ → ℕ
value none = 0
value (some i) = i

some-inj : (i j : ℕ) → some i ≡ some j → i ≡ j
unfolding value
some-inj i j e = ap value e

pub without_absent :
    (p : ℕ) (nodes : List (ℕ × LruCandidate))
    → node_of nodes p ≡ none
    → without (view nodes) p ≡ view nodes
unfolding without node_of
without_absent p [] h = refl
without_absent p ((j, c) ∷ nodes) h = elim (Bool-cases (c.page_id == p)) [
  | inl same ↦ absurd (none-ne j (sym (rw same at h)))
  | inr differ ↦ rw differ (ap (λ rest. c ∷ rest) (without_absent p nodes (rw differ at h)))
]

pub absent-Apart :
    (i p : ℕ) (nodes : List (ℕ × LruCandidate))
    → All (λ n. n.0 < i) nodes
    → node_of nodes p ≡ none
    → Apart i p nodes
unfolding node_of
absent-Apart i p [] below h = below
absent-Apart i p ((j, c) ∷ nodes) below h = elim (Bool-cases (c.page_id == p)) [
  | inl same ↦ absurd (none-ne j (sym (rw same at h)))
  | inr differ ↦
      let lt = below.0 in
      (
        (λ e. omega (arith, e, lt), λ e. not-==→ne c.page_id p differ (sym e)),
        absent-Apart i p nodes below.1 (rw differ at h),
      )
]

pub All-detach :
    (P : ℕ × LruCandidate → Type 0) (nodes : List (ℕ × LruCandidate)) (i : ℕ)
    → All P nodes
    → All P (detach nodes i)
unfolding detach
All-detach P [] i h = h
All-detach P ((j, c) ∷ nodes) i h = elim (Bool-cases (j == i)) [
  | inl same ↦ rw same h.1
  | inr differ ↦ rw differ (h.0, All-detach P nodes i h.1)
]

-- The node of a page is one of the nodes, with that page.
pub found :
    (P : ℕ × LruCandidate → Type 0) (nodes : List (ℕ × LruCandidate)) (p i : ℕ)
    → node_of nodes p ≡ some i
    → All P nodes
    → (c : LruCandidate) × P (i, c)
unfolding node_of
found P [] p i h all = absurd (none-ne i h)
found P ((j, c) ∷ nodes) p i h all = elim (Bool-cases (c.page_id == p)) [
  | inl same ↦ (c, subst (λ k. P (k, c)) (some-inj j i (rw same at h)) all.0)
  | inr differ ↦ found P nodes p i (rw differ at h) all.1
]

-- What is left when the node of a page is taken out.
abbrev pub Unlinked : List (ℕ × LruCandidate) → ℕ → ℕ → ℕ → Type 0
Unlinked nodes bf p i =
    (detach (set_frame nodes i bf) i ≡ detach nodes i)
    × (node_at (set_frame nodes i bf) i ≡ some (record { page_id = p; cxl_bf = bf }))
    × (view (detach nodes i) ≡ without (view nodes) p)
    × Distinct (detach nodes i)
    × Apart i p (detach nodes i)
    × ((q : ℕ) → q ≢ p → node_of (detach nodes i) q ≡ node_of nodes q)

pub unlinked :
    (nodes : List (ℕ × LruCandidate)) (bf p i : ℕ)
    → Distinct nodes
    → node_of nodes p ≡ some i
    → Unlinked nodes bf p i
unfolding detach set_frame node_at without node_of
unlinked [] bf p i d h = absurd (none-ne i h)
unlinked ((j, c) ∷ nodes) bf p i d h = elim (Bool-cases (c.page_id == p)) [
  | inl same ↦
      subst (λ k. Unlinked ((j, c) ∷ nodes) bf p k) (some-inj j i (rw same at h))
        (subst (λ q. Unlinked ((j, c) ∷ nodes) bf q j) (==→eq c.page_id p same) here)
  | inr differ ↦ let rest = rw differ at h in later differ rest (unlinked nodes bf p i d.1 rest)
]
  where
    here : Unlinked ((j, c) ∷ nodes) bf c.page_id j
    here =
        rw (==-refl j, ==-refl c.page_id)
          (
            rw (==-refl j) refl,
            rw (==-refl j) refl,
            sym (without-Apart j c.page_id nodes d.0),
            d.1,
            d.0,
            λ q ne. let other : (c.page_id == q) ≡ false = ground (arith, ne) in rw other refl,
          )

    later :
        (c.page_id == p) ≡ false
        → node_of nodes p ≡ some i
        → Unlinked nodes bf p i
        → Unlinked ((j, c) ∷ nodes) bf p i
    later differ h (a, b, v, dist, ap_rest, nodes_of) =
        let apart = (found (λ n. (j ≢ n.0) × (c.page_id ≢ n.1.page_id)) nodes p i h d.0).1.0 in
        let other : (j == i) ≡ false = ground (arith, apart) in
        rw (other, differ)
          (
            rw other (ap (λ rest. (j, c) ∷ rest) a),
            rw other b,
            ap (λ rest. c ∷ rest) v,
            (All-detach (λ n. (j ≢ n.0) × (c.page_id ≢ n.1.page_id)) nodes i d.0, dist),
            ((λ e. apart (sym e), λ e. not-==→ne c.page_id p differ (sym e)), ap_rest),
            λ q ne. ap (λ o. if c.page_id == q then some j else o) (nodes_of q ne),
          )
