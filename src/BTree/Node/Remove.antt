-- ===== src/BTree/Node/Remove.antt =====
-- The removal of a key from a node.
use re_mlcxl.Base.{
  ℕ, zero, suc, ◌≤◌, ◌<◌, ◌≡◌, ◌≢◌, refl, sym, ap, ◌∙◌, inl, inr, Bool, true, false, List, [], ◌∷◌,
  arith, length, length-erase_at, erase_at, get_or, Option-cases, subst,
}
use re_mlcxl.BTree.Keys.{cmp_keys, IsBytes}
use re_mlcxl.BTree.Node.{Slot, no_slot, BTreeNode, Hints, lower_bound_exact, remove_slot, remove}
use re_mlcxl.BTree.Node.Compare
use re_mlcxl.BTree.Node.Search.{IsSorted, key_at}
use re_mlcxl.BTree.Node.First.{IsValid, IsExact, full_key, lower_bound_exact-IsExact}

-- Where a place stood before the erasure.
skip : ℕ → ℕ → ℕ
skip zero j = suc j
skip (suc i) zero = zero
skip (suc i) (suc j) = suc (skip i j)

get_or-erase_at :
    (slots : List Slot) (i j : ℕ)
    → i < length slots
    → get_or (erase_at slots i) j no_slot ≡ get_or slots (skip i j) no_slot
unfolding skip
get_or-erase_at [] i j lt = elim lt [ ]
get_or-erase_at (s ∷ slots) zero j lt = refl
get_or-erase_at (s ∷ slots) (suc i) zero lt = refl
get_or-erase_at (s ∷ slots) (suc i) (suc j) lt = get_or-erase_at slots i j (omega arith)

skip-le : (i j : ℕ) → skip i j ≤ suc j
unfolding skip
skip-le zero j = omega arith
skip-le (suc i) zero = omega arith
skip-le (suc i) (suc j) = let ih = skip-le i j in omega arith

skip_mono : (i j k : ℕ) → j < k → skip i j < skip i k
unfolding skip
skip_mono zero j k lt = omega arith
skip_mono (suc i) j zero lt = absurd (omega arith)
skip_mono (suc i) zero (suc k) lt = omega arith
skip_mono (suc i) (suc j) (suc k) lt = let ih = skip_mono i j k (omega arith) in omega arith

erase_at-IsSorted :
    (slots : List Slot) (i : ℕ) → i < length slots → IsSorted slots → IsSorted (erase_at slots i)
erase_at-IsSorted slots i lt sorted =
    let len = length-erase_at slots i lt in
    record {
      valid = λ j small.
          let le = skip-le i j in
          subst Compare.IsValid (sym (get_or-erase_at slots i j lt))
            (sorted.valid (skip i j) (omega (arith, le, small, len)));
      ordered = λ j k less small.
          let le = skip-le i k in
          ap (λ s. cmp_keys s.key (key_at (erase_at slots i) j)) (get_or-erase_at slots i k lt)
          ∙ ap (λ s. cmp_keys (key_at slots (skip i k)) s.key) (get_or-erase_at slots i j lt)
          ∙ sorted.ordered (skip i j) (skip i k) (skip_mono i j k less)
              (omega (arith, le, small, len));
    }

-- What `remove` returns: a slot with the key went, or no slot has it and nothing changed.
abbrev pub Removes : BTreeNode → List ℕ → Bool × BTreeNode → Type 0
Removes n key (true, m) =
    (i : ℕ) × (i < length n.slots) × (full_key n i ≡ key) × (m.slots ≡ erase_at n.slots i)
Removes n key (false, m) = (m ≡ n) × ((i : ℕ) → i < length n.slots → full_key n i ≢ key)

-- In a valid node, `remove` of a key returns true and takes a slot with that whole key out, or returns
-- false and changes nothing when no slot has it; the node stays valid, with its own hints. This is with
-- or without heads and with any hints.
pub remove-Removes :
    (heads : Bool) (hints : Hints) (n : BTreeNode) (key : List ℕ)
    → IsBytes key
    → IsValid n
    → IsValid (remove heads hints n key).1 × Removes n key (remove heads hints n key)
unfolding remove remove_slot
remove-Removes heads hints n key bytes v =
    let exact = lower_bound_exact-IsExact heads hints n key bytes v in
    elim (Option-cases (lower_bound_exact heads hints n key)) [
      | inl missing ↦ rw (remove, missing) (v, (refl, subst (IsExact n key) missing exact))
      | inr (i, at) ↦
          let (lt, same) = subst (IsExact n key) at exact in
          rw (remove, at)
            (
              record {
                sorted = erase_at-IsSorted n.slots i lt v.sorted;
                hinted = refl;
                prefixed = v.prefixed;
              },
              (i, lt, same, refl),
            )
    ]
