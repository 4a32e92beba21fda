-- ===== src/Admission/Recency/Refine.antt =====
-- The access to the recency list against its specification.
use re_mlcxl.Base.{
  ℕ, ◌+◌, ◌<◌, ◌≡◌, sym, ap, ◌∙◌, inl, inr, List, [], ◌∷◌, some, arith, ◌==◌, if◌then◌else◌,
  Bool-cases, Option-cases, ==→eq, not-==→ne, subst, All,
}
use re_mlcxl.Admission.Recency.{LruCandidate, RecencyList, lookup, splice_to_front, touch}
use re_mlcxl.Admission.Recency.Nodes.{
  recent, view, node_of, IsValid, without_absent, absent-Apart, All-detach, found, unlinked,
}

-- An access keeps the list and its index well-formed, and moves the page with its frame to the front of
-- the pages by recency, wherever it was, or adds it there.
pub touch-recent :
    (l : RecencyList) (page_id cxl_bf : ℕ)
    → IsValid l
    → IsValid (touch l page_id cxl_bf)
      × (view (touch l page_id cxl_bf).candidates ≡ recent (view l.candidates) page_id cxl_bf)
unfolding touch splice_to_front node_of lookup
touch-recent l page_id cxl_bf valid = elim (Option-cases (lookup l.index page_id)) [
  | inl missing ↦
      let new = sym (valid.indexed page_id) ∙ missing in
      rw (touch, missing)
        (
          record {
            distinct =
                (absent-Apart l.next_node page_id l.candidates valid.below new, valid.distinct);
            below = (omega arith, All-map_suc l.candidates valid.below);
            indexed = λ q. ap (λ o. if page_id == q then some l.next_node else o) (valid.indexed q);
          },
          ap (λ rest. record { page_id = page_id; cxl_bf = cxl_bf } ∷ rest)
              (sym (without_absent page_id l.candidates new)),
        )
  | inr (it, at) ↦
      let node = sym (valid.indexed page_id) ∙ at in
      let (same, front, shown, dist, apart, others) =
        unlinked l.candidates cxl_bf page_id it valid.distinct node in
      let inside = (found (λ n. n.0 < l.next_node) l.candidates page_id it node valid.below).1 in
      rw (touch, at, splice_to_front, front, same)
        (
          record {
            distinct = (apart, dist);
            below = (inside, All-detach (λ n. n.0 < l.next_node) l.candidates it valid.below);
            indexed = λ q. elim (Bool-cases (page_id == q)) [
              | inl here ↦
                  rw here (subst (λ r. lookup l.index r ≡ some it) (==→eq page_id q here) at)
              | inr other ↦
                  let ne = not-==→ne page_id q other in
                  rw other (valid.indexed q ∙ sym (others q (λ e. ne (sym e))))
            ];
          },
          ap (λ rest. record { page_id = page_id; cxl_bf = cxl_bf } ∷ rest) shown,
        )
]
  where
    All-map_suc :
        (nodes : List (ℕ × LruCandidate))
        → All (λ n. n.0 < l.next_node) nodes
        → All (λ n. n.0 < l.next_node + 1) nodes
    All-map_suc [] h = h
    All-map_suc (n ∷ nodes) h = let lt = h.0 in (omega arith, All-map_suc nodes h.1)
