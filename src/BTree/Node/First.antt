-- ===== src/BTree/Node/First.antt =====
-- `lowerBound` on whole keys, and the removal of a key.
use re_mlcxl.Base.{
  ℕ, zero, suc, ◌+◌, ◌≤◌, ◌<◌, ◌≡◌, ◌≢◌, refl, sym, ap, ◌∙◌, ◌⊎◌, inl, inr, Bool, List, [], ◌∷◌,
  ◌++◌, Option, none, some, arith, length, take, drop, ltb, Bool-cases, ltb→lt, not-ltb→le, subst,
}
use Prim.Native.Nat.{Ordering}
use re_mlcxl.BTree.Keys.{cmp_keys, IsBytes}
use re_mlcxl.BTree.Keys.Order.{
  compare-cases, lt-ne-gt, lt-ne-eq, gt-ne-eq, cmp_keys_trans, cmp_keys-eq, cmp_keys_refl,
}
use re_mlcxl.BTree.Node.{Slot, BTreeNode, Hints, get_prefix, search, lower_bound, lower_bound_exact}
use re_mlcxl.BTree.Node.Search.{IsSorted, IsLowerBound, key_at, at_key}
use re_mlcxl.BTree.Node.Bounds.{IsHinted}
use re_mlcxl.BTree.Node.Lower.{search-Finds}

-- The comparison with a prefixed key: first the prefix, then the rest.
by_prefix : Ordering → Ordering → Ordering
by_prefix Ordering.lt rest = Ordering.lt
by_prefix Ordering.gt rest = Ordering.gt
by_prefix Ordering.eq rest = rest

cmp_keys-by_prefix :
    (p key s : List ℕ)
    → cmp_keys key (p ++ s)
      ≡ by_prefix (cmp_keys (take (length p) key) p) (cmp_keys (drop (length p) key) s)
unfolding cmp_keys by_prefix
cmp_keys-by_prefix [] key s = refl
cmp_keys-by_prefix (x ∷ p) [] s = refl
cmp_keys-by_prefix (x ∷ p) (y ∷ key) s = elim (compare-cases y x) [
  | inl less ↦ rw (cmp_keys, less.1) refl
  | inr (inr more) ↦ rw (cmp_keys, more.1) refl
  | inr (inl same) ↦ rw (cmp_keys, same.1) (cmp_keys-by_prefix p key s)
]

-- Sorted slots with their own hints, and a lower fence that has the prefix.
pub record IsValid (n : BTreeNode) : Type 0 where
  pub sorted : IsSorted n.slots
  pub hinted : IsHinted n.slots n.hint
  pub prefixed : length (get_prefix n) ≡ n.prefix_length

-- The whole key of a slot.
abbrev pub full_key : BTreeNode → ℕ → List ℕ
full_key n i = get_prefix n ++ key_at n.slots i

-- The first position whose whole key is not less than the given one.
pub record IsFirst (n : BTreeNode) (key : List ℕ) (r : ℕ) : Type 0 where
  pub bound : r ≤ length n.slots
  pub before : (i : ℕ) → i < r → cmp_keys key (full_key n i) ≡ Ordering.gt
  pub after : (i : ℕ) → r ≤ i → i < length n.slots → cmp_keys key (full_key n i) ≢ Ordering.gt

-- Each key has its position.
position_from :
    (slots : List Slot) (key : List ℕ) (fuel m : ℕ)
    → IsSorted slots
    → m + fuel ≡ length slots
    → ((i : ℕ) → i < m → cmp_keys key (key_at slots i) ≡ Ordering.gt)
    → (r : ℕ) × IsLowerBound slots key r
position_from slots key zero m sorted e before =
    (m, record { bound = omega arith; before = before; after = λ i le lt. absurd (omega arith) })
position_from slots key (suc fuel) m sorted e before =
    elim (greater (cmp_keys key (key_at slots m))) [
      | inl gt ↦ position_from slots key fuel (m + 1) sorted (omega arith) (extend gt)
      | inr not_gt ↦ (
        m,
        record {
          bound = omega arith;
          before = before;
          after = λ i le lt above. elim (Bool-cases (ltb m i)) [
            | inl less ↦ not_gt (
                cmp_keys_trans key (key_at slots i) (key_at slots m) above
                  (sorted.ordered m i (ltb→lt m i less) lt))
            | inr same ↦
                let ge = not-ltb→le m i same in
                let at : i ≡ m = omega arith in
                not_gt (subst (λ j. cmp_keys key (key_at slots j) ≡ Ordering.gt) at above)
          ];
        },
      )
    ]
  where
    greater : (o : Ordering) → (o ≡ Ordering.gt) ⊎ (o ≢ Ordering.gt)
    greater Ordering.lt = inr lt-ne-gt
    greater Ordering.eq = inr (λ h. gt-ne-eq (sym h))
    greater Ordering.gt = inl refl

    extend :
        cmp_keys key (key_at slots m) ≡ Ordering.gt
        → (i : ℕ) → i < m + 1
        → cmp_keys key (key_at slots i) ≡ Ordering.gt
    extend gt i lt = elim (Bool-cases (ltb i m)) [
      | inl less ↦ before i (ltb→lt i m less)
      | inr same ↦
          let ge = not-ltb→le i m same in
          let at : m ≡ i = omega arith in
          subst (λ j. cmp_keys key (key_at slots j) ≡ Ordering.gt) at gt
    ]

pub position :
    (slots : List Slot) (key : List ℕ) → IsSorted slots → (r : ℕ) × IsLowerBound slots key r
position slots key sorted =
    position_from slots key (length slots) 0 sorted (omega arith) (λ i lt. absurd (omega arith))

All-drop : (n : ℕ) (key : List ℕ) → IsBytes key → IsBytes (drop n key)
All-drop zero key h = h
All-drop (suc n) [] h = h
All-drop (suc n) (x ∷ key) h = All-drop n key h.1

Ordering-cases : (o : Ordering) → (o ≡ Ordering.lt) ⊎ ((o ≡ Ordering.eq) ⊎ (o ≡ Ordering.gt))
Ordering-cases Ordering.lt = inl refl
Ordering-cases Ordering.eq = inr (inl refl)
Ordering-cases Ordering.gt = inr (inr refl)

full-cmp_keys :
    (n : BTreeNode) (key : List ℕ) (i : ℕ) (o : Ordering)
    → IsValid n
    → cmp_keys (take n.prefix_length key) (get_prefix n) ≡ o
    → cmp_keys key (full_key n i)
      ≡ by_prefix o (cmp_keys (drop n.prefix_length key) (key_at n.slots i))
full-cmp_keys n key i o v e =
    cmp_keys-by_prefix (get_prefix n) key (key_at n.slots i)
    ∙ ap
        (λ m.
          by_prefix (cmp_keys (take m key) (get_prefix n))
            (cmp_keys (drop m key) (key_at n.slots i)))
        v.prefixed
    ∙ ap (λ c. by_prefix c (cmp_keys (drop n.prefix_length key) (key_at n.slots i))) e

-- In a valid node, `lowerBound<false>` of a key, with or without heads and with any hints, is the first
-- position whose whole key, with the node's prefix, is not less than the key; it is the number of slots
-- when there is none.
pub lower_bound-IsFirst :
    (heads : Bool) (hints : Hints) (n : BTreeNode) (key : List ℕ)
    → IsBytes key
    → IsValid n
    → IsFirst n key (lower_bound heads hints n key).0
unfolding lower_bound by_prefix
lower_bound-IsFirst heads hints n key bytes v =
    let rest = drop n.prefix_length key in
    let (r, lb) = position n.slots rest v.sorted in
    elim (Ordering-cases (cmp_keys (take n.prefix_length key) (get_prefix n))) [
      | inl below ↦
          rw (lower_bound, below)
            (record {
              bound = omega arith;
              before = λ i lt. absurd (omega arith);
              after = λ i _ _ gt. lt-ne-gt (sym (full-cmp_keys n key i Ordering.lt v below) ∙ gt);
            })
      | inr (inr above) ↦
          rw (lower_bound, above)
            (record {
              bound = omega arith;
              before = λ i _. full-cmp_keys n key i Ordering.gt v above;
              after = λ i le lt. absurd (omega arith);
            })
      | inr (inl same) ↦
          let found =
            search-Finds heads hints n rest r (All-drop n.prefix_length key bytes) v.sorted v.hinted
              lb in
          rw (lower_bound, same, found.0)
            (record {
              bound = lb.bound;
              before = λ i lt. full-cmp_keys n key i Ordering.eq v same ∙ lb.before i lt;
              after = λ i le lt gt.
                  lb.after i le lt (sym (full-cmp_keys n key i Ordering.eq v same) ∙ gt);
            })
    ]

take-drop : (n : ℕ) (key : List ℕ) → take n key ++ drop n key ≡ key
take-drop zero key = refl
take-drop (suc n) [] = refl
take-drop (suc n) (x ∷ key) = ap (λ rest. x ∷ rest) (take-drop n key)

-- The slot with the key, or no slot with it.
abbrev pub IsExact : BTreeNode → List ℕ → Option ℕ → Type 0
IsExact n key none = (i : ℕ) → i < length n.slots → full_key n i ≢ key
IsExact n key (some i) = (i < length n.slots) × (full_key n i ≡ key)

absent :
    (n : BTreeNode) (key : List ℕ) (o : Ordering)
    → IsValid n
    → cmp_keys (take n.prefix_length key) (get_prefix n) ≡ o
    → o ≢ Ordering.eq
    → IsExact n key none
unfolding by_prefix
absent n key Ordering.lt v e ne i lt same =
    ne (sym (full-cmp_keys n key i Ordering.lt v e) ∙ ap (cmp_keys key) same ∙ cmp_keys_refl key)
absent n key Ordering.gt v e ne i lt same =
    ne (sym (full-cmp_keys n key i Ordering.gt v e) ∙ ap (cmp_keys key) same ∙ cmp_keys_refl key)
absent n key Ordering.eq v e ne i lt same = ne refl

-- In a valid node, `lowerBound<true>` of a key, with or without heads and with any hints, is a slot with
-- that whole key, or -1 when no slot has it.
pub lower_bound_exact-IsExact :
    (heads : Bool) (hints : Hints) (n : BTreeNode) (key : List ℕ)
    → IsBytes key
    → IsValid n
    → IsExact n key (lower_bound_exact heads hints n key)
unfolding lower_bound_exact by_prefix
lower_bound_exact-IsExact heads hints n key bytes v =
    let rest = drop n.prefix_length key in
    let (r, lb) = position n.slots rest v.sorted in
    elim (Ordering-cases (cmp_keys (take n.prefix_length key) (get_prefix n))) [
      | inl below ↦ rw (lower_bound_exact, below) (absent n key Ordering.lt v below lt-ne-eq)
      | inr (inr above) ↦ rw (lower_bound_exact, above) (absent n key Ordering.gt v above gt-ne-eq)
      | inr (inl same) ↦
          let found =
            search-Finds heads hints n rest r (All-drop n.prefix_length key bytes) v.sorted v.hinted
              lb in
          elim (Bool-cases (search heads hints n rest).1) [
            | inl hit ↦
                let (inside, at) = found.1 hit in
                rw (lower_bound_exact, same, hit, found.0)
                  (
                    inside,
                    ap (λ s. get_prefix n ++ s) at
                        ∙ ap (λ p. p ++ rest) (sym (cmp_keys-eq _ _ same))
                        ∙ take-drop n.prefix_length key,
                  )
            | inr miss ↦
                rw (lower_bound_exact, same, miss)
                  (λ i lt equal.
                    let e =
                      sym (full-cmp_keys n key i Ordering.eq v same)
                      ∙ ap (cmp_keys key) equal
                      ∙ cmp_keys_refl key in
                    let here = at_key n.slots rest r i v.sorted lb lt e in
                    found.2 miss (subst (λ j. j < length n.slots) here lt) (
                      ap (key_at n.slots) (sym here) ∙ sym (cmp_keys-eq rest (key_at n.slots i) e)))
          ]
    ]
