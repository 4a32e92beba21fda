-- ===== src/BTree/Node/Lower.antt =====
-- `lowerBound` in a node whose hints are those of its slots.
use re_mlcxl.Base.{
  ℕ, ◌+◌, ◌*◌, ◌/◌, ◌<◌, ◌≢◌, sym, ◌∙◌, inl, inr, Bool, true, false, List, arith, length, get_or,
  drop, length-drop, ltb, ◌==◌, if◌then◌else◌, Bool-cases, ltb→lt, subst,
}
use re_mlcxl.BTree.Keys.{head, IsBytes}
use re_mlcxl.BTree.Node.{
  Slot, BTreeNode, Hints, off, scalar, simd, count_below, count_same, search_hint, make_hint,
  search, search_loop,
}
use re_mlcxl.BTree.Node.Search.{IsSorted, IsLowerBound, IsBetween, Finds, search_loop_lem}
use re_mlcxl.BTree.Node.Bounds.{
  IsHinted, count_below_lem, count_same_lem, get_or-drop, length-make_hint, whole, lower_from,
  upper_to,
}

bounds-IsBetween :
    (slots : List Slot) (key : List ℕ) (r : ℕ)
    → IsBytes key
    → IsSorted slots
    → IsLowerBound slots key r
    → 32 < length slots
    → let hint = make_hint slots 16 0 in
      let pos = count_below (head key) hint in
      let pos2 = pos + count_same (head key) (drop pos hint) in
      let dist = length slots / 17 in
      IsBetween slots key r (pos * dist) (if ltb pos2 16 then (pos2 + 1) * dist else length slots)
bounds-IsBetween slots key r bytes sorted lb many =
    let hint = make_hint slots 16 0 in
    let len = length-make_hint slots 16 0 in
    let pos = count_below (head key) hint in
    let (bound, before, at) = count_below_lem (head key) hint in
    let same = count_same (head key) (drop pos hint) in
    let rest = count_same_lem (head key) (drop pos hint) in
    let left = length-drop pos hint in
    let from = lower_from slots key r pos bytes sorted lb many (omega (arith, bound, len)) before in
    elim (Bool-cases (ltb (pos + same) 16)) [
      | inr past ↦
          let all = whole slots key r lb in
          rw past (record { from = from; to = all.to; inside = all.inside; larger = all.larger })
      | inl within ↦
          let lt = ltb→lt (pos + same) 16 within in
          let other : get_or hint (pos + same) 0 ≢ head key =
            λ e. rest.1 (omega (arith, lt, left, len)) (get_or-drop pos same hint ∙ e) in
          let upper =
            upper_to slots key r pos (pos + same) bytes sorted lb many (omega arith) lt
              (at (omega (arith, lt, len))) other in
          rw within (record { from = from; to = upper.0; inside = upper.1; larger = λ _. upper.2 })
    ]

either :
    {slots : List Slot} {key : List ℕ} {r : ℕ} (c : Bool) (x y : ℕ × ℕ)
    → IsBetween slots key r x.0 x.1
    → IsBetween slots key r y.0 y.1
    → let b = if c then x else y in IsBetween slots key r b.0 b.1
either true x y bx by = bx
either false x y bx by = by

search_hint-IsBetween :
    (hints : Hints) (slots : List Slot) (key : List ℕ) (r : ℕ)
    → IsBytes key
    → IsSorted slots
    → IsLowerBound slots key r
    → let b = search_hint hints (make_hint slots 16 0) (length slots) (head key) in
      IsBetween slots key r b.0 b.1
unfolding search_hint
search_hint-IsBetween hints slots key r bytes sorted lb =
    elim (Bool-cases (ltb 32 (length slots))) [
      | inr few ↦ rw (search_hint, few) (whole slots key r lb)
      | inl many ↦
          rw (search_hint, many)
            (by_mode hints
              (bounds-IsBetween slots key r bytes sorted lb (ltb→lt 32 (length slots) many)))
    ]
  where
    by_mode :
        (hints : Hints)
        → let hint = make_hint slots 16 0 in
          let pos = count_below (head key) hint in
          let pos2 = pos + count_same (head key) (drop pos hint) in
          let bounds : ℕ × ℕ = (
            pos * (length slots / 17),
            if ltb pos2 16 then (pos2 + 1) * (length slots / 17) else length slots,
          ) in
          IsBetween slots key r bounds.0 bounds.1
          → let b : ℕ × ℕ = elim hints [
            | off ↦ (0, length slots)
            | scalar ↦ bounds
            | simd ↦ if pos == 16 then (0, length slots) else bounds
          ] in
            IsBetween slots key r b.0 b.1
    by_mode off b = whole slots key r lb
    by_mode scalar b = b
    by_mode simd b =
        either (count_below (head key) (make_hint slots 16 0) == 16) _ _ (whole slots key r lb) b

-- The search of a key after the prefix, with or without heads and with any hints: in sorted slots with
-- their own hints it ends at the first position whose key is not less, and tells whether the key stands
-- there.
pub search-Finds :
    (heads : Bool) (hints : Hints) (n : BTreeNode) (key : List ℕ) (r : ℕ)
    → IsBytes key
    → IsSorted n.slots
    → IsHinted n.slots n.hint
    → IsLowerBound n.slots key r
    → Finds n.slots key r (search heads hints n key)
unfolding search
search-Finds heads hints n key r bytes sorted hinted lb =
    let between = search_hint-IsBetween hints n.slots key r bytes sorted lb in
    let inside = between.inside in
    subst
      (λ hint.
        let b = search_hint hints hint (length n.slots) (head key) in
        Finds n.slots key r (search_loop heads n.slots key (length n.slots) b.0 b.1))
      (sym hinted)
      (search_loop_lem heads n.slots key r (length n.slots) _ _ bytes sorted lb between
        (omega arith))
