-- ===== src/BTree/Node/Search.antt =====
-- The search in the slots of a node.
use re_mlcxl.Base.{
  ℕ, zero, suc, ◌+◌, ◌-◌, ◌/◌, ◌≤◌, ◌<◌, ◌≡◌, ◌≢◌, refl, sym, ap, ◌∙◌, ◌⊎◌, inl, inr, Bool, true,
  false, List, arith, length, get_or, ltb, Bool-cases, ltb→lt, not-ltb→le, subst,
}
use Prim.Native.Nat.{Ordering}
use re_mlcxl.BTree.Keys.{cmp_keys, IsBytes}
use re_mlcxl.BTree.Keys.Order.{lt-ne-gt, lt-ne-eq, gt-ne-eq, cmp_keys_refl, cmp_keys-eq}
use re_mlcxl.BTree.Node.{Slot, no_slot, search_loop}
use re_mlcxl.BTree.Node.Compare
use re_mlcxl.BTree.Node.Compare.{compare_slot-cmp_keys}

abbrev pub key_at : List Slot → ℕ → List ℕ
key_at slots i = (get_or slots i no_slot).key

-- Valid slots, in the strict order of their keys.
pub record IsSorted (slots : List Slot) : Type 0 where
  pub valid : (i : ℕ) → i < length slots → Compare.IsValid (get_or slots i no_slot)
  pub ordered :
      (i j : ℕ)
      → i < j
      → j < length slots
      → cmp_keys (key_at slots j) (key_at slots i) ≡ Ordering.gt

-- The first position whose key is not less than the given one.
pub record IsLowerBound (slots : List Slot) (key : List ℕ) (r : ℕ) : Type 0 where
  pub bound : r ≤ length slots
  pub before : (i : ℕ) → i < r → cmp_keys key (key_at slots i) ≡ Ordering.gt
  pub after : (i : ℕ) → r ≤ i → i < length slots → cmp_keys key (key_at slots i) ≢ Ordering.gt

-- What the loop may rely on: the position lies between its bounds, and the upper bound's slot, if it is
-- one, has a larger key.
pub record IsBetween (slots : List Slot) (key : List ℕ) (r lower upper : ℕ) : Type 0 where
  pub from : lower ≤ r
  pub to : r ≤ upper
  pub inside : upper ≤ length slots
  pub larger : upper < length slots → cmp_keys key (key_at slots upper) ≡ Ordering.lt

-- The position, and whether the key stands there.
abbrev pub Finds : List Slot → List ℕ → ℕ → ℕ × Bool → Type 0
Finds slots key r found =
    (found.0 ≡ r)
    × (found.1 ≡ true → (r < length slots) × (key_at slots r ≡ key))
    × (found.1 ≡ false → r < length slots → key_at slots r ≢ key)

Ordering-cases : (o : Ordering) → (o ≡ Ordering.lt) ⊎ ((o ≡ Ordering.eq) ⊎ (o ≡ Ordering.gt))
Ordering-cases Ordering.lt = inl refl
Ordering-cases Ordering.eq = inr (inl refl)
Ordering-cases Ordering.gt = inr (inr refl)

false-ne : false ≢ true
false-ne e = ground arith

ends :
    (slots : List Slot) (key : List ℕ) (r lower upper : ℕ)
    → IsBetween slots key r lower upper
    → upper ≤ lower
    → Finds slots key r (lower, false)
ends slots key r lower upper b le =
    let from = b.from in
    let to = b.to in
    (
      omega arith,
      λ e. absurd (false-ne e),
      λ _ lt same.
          let here : upper ≡ r = omega arith in
          let below =
            subst (λ u. cmp_keys key (key_at slots u) ≡ Ordering.lt) here
              (b.larger (omega arith)) in
          lt-ne-eq (sym below ∙ ap (cmp_keys key) same ∙ cmp_keys_refl key),
    )

-- The position of a key that stands in the slots.
pub at_key :
    (slots : List Slot) (key : List ℕ) (r mid : ℕ)
    → IsSorted slots
    → IsLowerBound slots key r
    → mid < length slots
    → cmp_keys key (key_at slots mid) ≡ Ordering.eq
    → mid ≡ r
at_key slots key r mid sorted lower lt e = elim (Bool-cases (ltb mid r)) [
  | inl before ↦ absurd (gt-ne-eq (sym (lower.before mid (ltb→lt mid r before)) ∙ e))
  | inr not_before ↦
      let le = not-ltb→le mid r not_before in
      elim (Bool-cases (ltb r mid)) [
        | inr not_after ↦ let ge = not-ltb→le r mid not_after in omega arith
        | inl after ↦
            let same = cmp_keys-eq key (key_at slots mid) e in
            let less = ltb→lt r mid after in
            absurd (
              lower.after r (omega arith) (omega arith) (
                subst (λ k. cmp_keys k (key_at slots r) ≡ Ordering.gt) (sym same)
                  (sorted.ordered r mid less lt)))
      ]
]

pub small_key :
    (slots : List Slot) (key : List ℕ) (r mid : ℕ)
    → IsLowerBound slots key r
    → cmp_keys key (key_at slots mid) ≡ Ordering.lt
    → r ≤ mid
small_key slots key r mid lb below = elim (Bool-cases (ltb mid r)) [
  | inl before ↦ absurd (lt-ne-gt (sym below ∙ lb.before mid (ltb→lt mid r before)))
  | inr after ↦ not-ltb→le mid r after
]

pub large_key :
    (slots : List Slot) (key : List ℕ) (r mid : ℕ)
    → IsLowerBound slots key r
    → mid < length slots
    → cmp_keys key (key_at slots mid) ≡ Ordering.gt
    → mid < r
large_key slots key r mid lb lt above = elim (Bool-cases (ltb mid r)) [
  | inl before ↦ ltb→lt mid r before
  | inr after ↦ absurd (lb.after mid (not-ltb→le mid r after) lt above)
]

pub search_loop_lem :
    (heads : Bool) (slots : List Slot) (key : List ℕ) (r fuel lower upper : ℕ)
    → IsBytes key
    → IsSorted slots
    → IsLowerBound slots key r
    → IsBetween slots key r lower upper
    → upper ≤ fuel + lower
    → Finds slots key r (search_loop heads slots key fuel lower upper)
unfolding search_loop
search_loop_lem heads slots key r zero lower upper bytes sorted lb b enough =
    ends slots key r lower upper b (omega arith)
search_loop_lem heads slots key r (suc fuel) lower upper bytes sorted lb b enough =
    let mid = (upper - lower) / 2 + lower in
    let inside = b.inside in
    let to = b.to in
    elim (Bool-cases (ltb lower upper)) [
      | inr done ↦
          rw (search_loop, done) (ends slots key r lower upper b (not-ltb→le lower upper done))
      | inl more ↦
          let lt = ltb→lt lower upper more in
          let small : mid < length slots = omega arith in
          let same =
            compare_slot-cmp_keys heads key (get_or slots mid no_slot) bytes
              (sorted.valid mid small) in
          elim (Ordering-cases (cmp_keys key (key_at slots mid))) [
            | inl below ↦
                let le = small_key slots key r mid lb below in
                rw (search_loop, more, same, below)
                  (search_loop_lem heads slots key r fuel lower mid bytes sorted lb
                    (record { from = b.from; to = le; inside = omega arith; larger = λ _. below })
                    (omega arith))
            | inr (inl here) ↦
                let e = at_key slots key r mid sorted lb small here in
                rw (search_loop, more, same, here)
                  (
                    e,
                    λ _. (
                      omega (arith, e, small),
                      ap (key_at slots) (sym e) ∙ sym (cmp_keys-eq key (key_at slots mid) here),
                    ),
                    λ no_key. absurd (false-ne (sym no_key)),
                  )
            | inr (inr above) ↦
                let gt = large_key slots key r mid lb small above in
                rw (search_loop, more, same, above)
                  (search_loop_lem heads slots key r fuel (mid + 1) upper bytes sorted lb
                    (record { from = omega arith; to = b.to; inside = b.inside; larger = b.larger })
                    (omega arith))
          ]
    ]
