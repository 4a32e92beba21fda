-- ===== src/BTree/Node/Bounds.antt =====
-- The hints of a node bound the search.
use re_mlcxl.Base.{
  ℕ, zero, suc, ◌+◌, ◌*◌, ◌/◌, ◌≤◌, ◌<◌, ◌≡◌, ◌≢◌, refl, sym, ap, ◌∙◌, inl, inr, List, [], ◌∷◌,
  arith, length, get_or, drop, leb, ltb, ◌==◌, Bool-cases, ltb→lt, not-ltb→le, not-leb→lt, leb→le,
  not-==→ne, subst,
}
use Prim.Native.Nat.{Ordering}
use native.Mathlib.Nat.{mul-le-mul_right}
use re_mlcxl.BTree.Keys.{cmp_keys, head, IsBytes}
use re_mlcxl.BTree.Keys.Order.{lt-ne-gt, cmp_keys-flip}
use re_mlcxl.BTree.Keys.Heads.{head-lt}
use re_mlcxl.BTree.Node.{Slot, no_slot, hint_count, count_below, count_same, make_hint}
use re_mlcxl.BTree.Node.Search.{IsSorted, IsLowerBound, IsBetween, key_at, small_key, large_key}

pub count_below_lem :
    (k : ℕ) (hint : List ℕ)
    → let pos = count_below k hint in
      (pos ≤ length hint)
      × ((i : ℕ) → i < pos → get_or hint i 0 < k)
      × (pos < length hint → k ≤ get_or hint pos 0)
unfolding count_below
count_below_lem k [] = (omega arith, λ i lt. absurd (omega arith), λ lt. absurd (omega arith))
count_below_lem k (h ∷ hint) = elim (Bool-cases (leb k h)) [
  | inl stop ↦ rw stop (omega arith, λ i lt. absurd (omega arith), λ _. leb→le k h stop)
  | inr go ↦
      let (bound, before, at) = count_below_lem k hint in
      rw go (omega arith, step before (not-leb→lt k h go), λ lt. at (omega arith))
]
  where
    step :
        ((i : ℕ) → i < count_below k hint → get_or hint i 0 < k)
        → h < k
        → (i : ℕ) → i < suc (count_below k hint)
        → get_or (h ∷ hint) i 0 < k
    step before first zero lt = first
    step before first (suc i) lt = before i (omega arith)

pub count_same_lem :
    (k : ℕ) (hint : List ℕ)
    → let n = count_same k hint in (n ≤ length hint) × (n < length hint → get_or hint n 0 ≢ k)
unfolding count_same
count_same_lem k [] = (omega arith, λ lt. absurd (omega arith))
count_same_lem k (h ∷ hint) = elim (Bool-cases (h == k)) [
  | inl same ↦
      let (bound, at) = count_same_lem k hint in rw same (omega arith, λ lt. at (omega arith))
  | inr other ↦ rw other (omega arith, λ _. not-==→ne h k other)
]

pub get_or-drop : (p i : ℕ) (xs : List ℕ) → get_or (drop p xs) i 0 ≡ get_or xs (p + i) 0
get_or-drop zero i xs = ap (λ j. get_or xs j 0) (omega arith)
get_or-drop (suc p) i [] = refl
get_or-drop (suc p) i (x ∷ xs) =
    let e : suc (p + i) ≡ suc p + i = omega arith in
    get_or-drop p i xs ∙ ap (λ j. get_or (x ∷ xs) j 0) e

-- The hint of a place is the head of the slot that it stands for.
get_or-make_hint :
    (slots : List Slot) (rounds i j : ℕ)
    → j < rounds
    → get_or (make_hint slots rounds i) j 0
      ≡ (get_or slots (length slots / 17 * (i + j + 1)) no_slot).head
unfolding make_hint
get_or-make_hint slots zero i j lt = absurd (omega arith)
get_or-make_hint slots (suc rounds) i zero lt =
    ap (λ k. (get_or slots (length slots / 17 * k) no_slot).head) (omega arith)
get_or-make_hint slots (suc rounds) i (suc j) lt =
    let e : i + 1 + j + 1 ≡ i + suc j + 1 = omega arith in
    get_or-make_hint slots rounds (i + 1) j (omega arith)
    ∙ ap (λ k. (get_or slots (length slots / 17 * k) no_slot).head) e

pub length-make_hint :
    (slots : List Slot) (rounds i : ℕ) → length (make_hint slots rounds i) ≡ rounds
unfolding make_hint
length-make_hint slots zero i = refl
length-make_hint slots (suc rounds) i = ap suc (length-make_hint slots rounds (i + 1))

-- The heads of sorted slots do not decrease.
heads_mono :
    (slots : List Slot) (i j : ℕ)
    → IsSorted slots
    → i ≤ j
    → j < length slots
    → (get_or slots i no_slot).head ≤ (get_or slots j no_slot).head
heads_mono slots i j sorted le lt =
    let vi = sorted.valid i (omega arith) in
    let vj = sorted.valid j lt in
    elim (Bool-cases (ltb (get_or slots j no_slot).head (get_or slots i no_slot).head)) [
      | inr fine ↦ not-ltb→le _ _ fine
      | inl wrong ↦ elim (Bool-cases (ltb i j)) [
        | inr same ↦
            let ge = not-ltb→le i j same in let e : i ≡ j = omega arith in rw e (omega arith)
        | inl less ↦
            let below = head-lt (key_at slots j) (key_at slots i) vj.bytes vi.bytes (
              let w = ltb→lt _ _ wrong in
              let a = vi.headed in let b = vj.headed in omega (arith, w, a, b)) in
            absurd (lt-ne-gt (sym below ∙ sorted.ordered i j (ltb→lt i j less) lt))
      ]
    ]

-- The node's hints are those of its slots.
abbrev pub IsHinted : List Slot → List ℕ → Type 0
IsHinted slots hint = hint ≡ make_hint slots hint_count 0

pub whole :
    (slots : List Slot) (key : List ℕ) (r : ℕ)
    → IsLowerBound slots key r
    → IsBetween slots key r 0 (length slots)
whole slots key r lb = record {
  from = omega arith;
  to = lb.bound;
  inside = omega arith;
  larger = λ lt. absurd (omega arith);
}

-- The bounds that the hints give.
pub lower_from :
    (slots : List Slot) (key : List ℕ) (r pos : ℕ)
    → IsBytes key
    → IsSorted slots
    → IsLowerBound slots key r
    → 32 < length slots
    → pos ≤ 16
    → ((i : ℕ) → i < pos → get_or (make_hint slots 16 0) i 0 < head key)
    → pos * (length slots / 17) ≤ r
lower_from slots key r zero bytes sorted lb many le before = omega arith
lower_from slots key r (suc p) bytes sorted lb many le before =
    let d = length slots / 17 in
    let most = mul-le-mul_right d le in
    let place = d * (0 + p + 1) in
    let inside : place < length slots = omega arith in
    let hinted = get_or-make_hint slots 16 0 p (omega arith) in
    let v = sorted.valid place inside in
    let smaller = before p (omega arith) in
    let headed = v.headed in
    let below =
      head-lt (key_at slots place) key v.bytes bytes (omega (arith, smaller, hinted, headed)) in
    let lt = large_key slots key r place lb inside (cmp_keys-flip (key_at slots place) key below) in
    omega arith

pub upper_to :
    (slots : List Slot) (key : List ℕ) (r pos pos2 : ℕ)
    → IsBytes key
    → IsSorted slots
    → IsLowerBound slots key r
    → 32 < length slots
    → pos ≤ pos2
    → pos2 < 16
    → head key ≤ get_or (make_hint slots 16 0) pos 0
    → get_or (make_hint slots 16 0) pos2 0 ≢ head key
    → let place = (pos2 + 1) * (length slots / 17) in
      (r ≤ place) × (place ≤ length slots) × (cmp_keys key (key_at slots place) ≡ Ordering.lt)
upper_to slots key r pos pos2 bytes sorted lb many le lt at other =
    let d = length slots / 17 in
    let place = d * (0 + pos2 + 1) in
    let start = d * (0 + pos + 1) in
    let most = mul-le-mul_right d lt in
    let order = mul-le-mul_right d le in
    let inside : place < length slots = omega arith in
    let a = get_or-make_hint slots 16 0 pos (omega arith) in
    let b = get_or-make_hint slots 16 0 pos2 (omega arith) in
    let grows = heads_mono slots start place sorted (omega arith) inside in
    let v = sorted.valid place inside in
    let headed = v.headed in
    let above : head key < head (key_at slots place) =
      omega (arith, at, other, a, b, grows, headed) in
    let below = head-lt key (key_at slots place) bytes v.bytes above in
    let e : place ≡ (pos2 + 1) * (length slots / 17) = omega arith in
    let first = small_key slots key r place lb below in
    (omega arith, omega arith, subst (λ q. cmp_keys key (key_at slots q) ≡ Ordering.lt) e below)
