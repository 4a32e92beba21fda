-- ===== src/Admission/Recency/Drain.antt =====
-- The background loop on the recency list against its specification.
use re_mlcxl.Base.{
  ℕ, zero, suc, ◌≡◌, ◌≢◌, refl, sym, ap, ◌∙◌, ◌⊎◌, inl, inr, true, false, List, [], ◌∷◌, none, some,
  arith, ◌==◌, if◌then◌else◌, Bool-cases, ==→eq, not-==→ne, subst, drop,
}
use re_mlcxl.Admission.Recency.{
  LruCandidate, RecencyList, lookup, erase_index, full_page, drain, promote_batch,
}
use re_mlcxl.Admission.Recency.Nodes.{promoted, view, node_of, Apart, IsValid}

lookup-erase_index :
    (index : List (ℕ × ℕ)) (p q : ℕ)
    → lookup (erase_index index p) q ≡ (if p == q then none else lookup index q)
unfolding lookup erase_index
lookup-erase_index [] p q = elim (Bool-cases (p == q)) [
  | inl same ↦ rw same refl
  | inr other ↦ rw other refl
]
lookup-erase_index ((k, it) ∷ index) p q =
    let ih = lookup-erase_index index p q in
    elim (Bool-cases (k == p)) [
      | inl same ↦ rw (same, ih) (masked (==→eq k p same) (Bool-cases (p == q)))
      | inr differ ↦ rw (differ, ih) (swap (not-==→ne k p differ) (Bool-cases (p == q)))
    ]
  where
    masked :
        k ≡ p
        → ((p == q) ≡ true) ⊎ ((p == q) ≡ false)
        → (if p == q then none else lookup index q)
          ≡ (if p == q then none else if k == q then some it else lookup index q)
    masked e (inl same) = rw same refl
    masked e (inr other) = let also : (k == q) ≡ false = rw e other in rw (other, also) refl

    swap :
        k ≢ p
        → ((p == q) ≡ true) ⊎ ((p == q) ≡ false)
        → (if k == q then some it else if p == q then none else lookup index q)
          ≡ (if p == q then none else if k == q then some it else lookup index q)
    swap ne (inl same) =
        let e = ==→eq p q same in
        let other : (k == q) ≡ false = ground (arith, ne, e) in rw (same, other) refl
    swap ne (inr other) = rw other refl

node_of-Apart :
    (i p : ℕ) (nodes : List (ℕ × LruCandidate)) → Apart i p nodes → node_of nodes p ≡ none
unfolding node_of
node_of-Apart i p [] h = refl
node_of-Apart i p ((j, c) ∷ nodes) h =
    let ne = h.0.1 in
    let differ : (c.page_id == p) ≡ false = ground (arith, ne) in
    rw differ (node_of-Apart i p nodes h.1)

list_of : List (ℕ × LruCandidate) → List (ℕ × ℕ) → ℕ → RecencyList
list_of nodes index next = record { candidates = nodes; index = index; next_node = next }

tail-IsValid :
    (i : ℕ) (c : LruCandidate) (nodes : List (ℕ × LruCandidate)) (index : List (ℕ × ℕ)) (next : ℕ)
    → IsValid (list_of ((i, c) ∷ nodes) index next)
    → IsValid (list_of nodes (erase_index index c.page_id) next)
unfolding list_of node_of
tail-IsValid i c nodes index next valid = record {
  distinct = valid.distinct.1;
  below = valid.below.1;
  indexed = λ q. lookup-erase_index index c.page_id q ∙ (elim (Bool-cases (c.page_id == q)) [
    | inl same ↦
        let e = ==→eq c.page_id q same in
        rw same (
          sym (
            subst (λ r. node_of nodes r ≡ none) e
              (node_of-Apart i c.page_id nodes valid.distinct.0)))
    | inr differ ↦ rw differ (rw differ at (valid.indexed q))
  ]);
}

drain-promoted :
    (batch : ℕ) (nodes : List (ℕ × LruCandidate)) (index : List (ℕ × ℕ)) (next : ℕ)
    → IsValid (list_of nodes index next)
    → let r = drain batch nodes index next in
      IsValid r.1
      × (r.0 ≡ promoted batch (view nodes))
      × (view r.1.candidates ≡ drop batch (view nodes))
unfolding drain list_of
drain-promoted zero nodes index next valid = (valid, refl, refl)
drain-promoted (suc batch) [] index next valid = (valid, refl, refl)
drain-promoted (suc batch) ((i, c) ∷ nodes) index next valid =
    let ih =
      drain-promoted batch nodes (erase_index index c.page_id) next
        (tail-IsValid i c nodes index next valid) in
    (ih.0, ap (λ ds. full_page c ∷ ds) ih.1, ih.2)

-- The loop of the background routine keeps the list and its index well-formed, promotes the first
-- `batch` pages by recency as whole pages, in their order, and leaves the others.
pub promote_batch-promoted :
    (batch : ℕ) (l : RecencyList)
    → IsValid l
    → let r = promote_batch batch l in
      IsValid r.1
      × (r.0 ≡ promoted batch (view l.candidates))
      × (view r.1.candidates ≡ drop batch (view l.candidates))
unfolding promote_batch list_of
promote_batch-promoted batch l valid = drain-promoted batch l.candidates l.index l.next_node valid
