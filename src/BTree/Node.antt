-- ===== src/BTree/Node.antt =====
-- BTreeNode.hpp and BTreeNode.cpp: the slots of a node, the search in them and the removal of a key. A
-- slot has its key after the node's prefix, and its payload; the place of these bytes in the page is
-- left out. A fence at the offset 0, which is infinite, is `none`; it has no bytes.
pub mod Compare
pub mod Search
pub mod Bounds
pub mod Lower
pub mod First
pub mod Remove
mod Tests
use re_mlcxl.Base.{
  ℕ, zero, suc, ◌+◌, ◌-◌, ◌*◌, ◌/◌, ◌%◌, ◌^◌, Bool, true, false, ◌&&◌, not, List, [], ◌∷◌, Option,
  none, some, length, take, drop, get_or, get_elem?, erase_at, leb, ltb, ◌==◌, if◌then◌else◌, min,
}
use Prim.Native.Nat.{compare, Ordering}
use re_mlcxl.BTree.Keys.{cmp_keys, head}

-- `Slot`.
pub record Slot : Type 0 where
  pub key : List ℕ
  pub payload : List ℕ
  pub head : ℕ

abbrev pub hint_count : ℕ
hint_count = 16

-- `BTreeNode` with its header.
pub record BTreeNode : Type 0 where
  pub lower_fence : Option (List ℕ)
  pub upper_fence : Option (List ℕ)
  pub is_leaf : Bool
  pub space_used : ℕ
  pub prefix_length : ℕ
  pub hint : List ℕ
  pub slots : List Slot
  pub upper : ℕ

-- `getPrefix`, up to the prefix's length.
abbrev pub get_prefix : BTreeNode → List ℕ
get_prefix n = take n.prefix_length (elim n.lower_fence [ none ↦ [] | some key ↦ key ])

abbrev pub no_slot : Slot
no_slot = record { key = []; payload = []; head = 0 }

-- `FLAGS_btree_hints`: 0, 1 and 2.
pub data Hints : Type 0 where
  off : Hints
  scalar : Hints
  simd : Hints

-- The loops over the hints: how many are below the head, and how many follow that are the head.
unfoldable pub count_below : ℕ → List ℕ → ℕ
count_below key_head [] = 0
count_below key_head (h ∷ hint) =
    let rest = count_below key_head hint in if leb key_head h then 0 else suc rest

unfoldable pub count_same : ℕ → List ℕ → ℕ
count_same key_head [] = 0
count_same key_head (h ∷ hint) =
    let rest = count_same key_head hint in if h == key_head then suc rest else 0

-- `searchHint`: the bounds of the search.
unfoldable pub search_hint : Hints → List ℕ → ℕ → ℕ → ℕ × ℕ
unfolding count_below count_same
search_hint hints hint count key_head =
    let dist = count / (hint_count + 1) in
    let pos = count_below key_head hint in
    let pos2 = pos + count_same key_head (drop pos hint) in
    let bounds : ℕ × ℕ = (pos * dist, if ltb pos2 hint_count then (pos2 + 1) * dist else count) in
    if ltb (hint_count * 2) count
    then (elim hints [
      | off ↦ (0, count)
      | scalar ↦ bounds
      | simd ↦ if pos == hint_count then (0, count) else bounds
    ])
    else (0, count)

-- The comparison of a search key with a slot, given `FLAGS_btree_heads`.
unfoldable pub compare_slot : Bool → List ℕ → Slot → Ordering
unfolding head cmp_keys
compare_slot heads key s =
    if heads
    then (if ltb (head key) s.head
        then Ordering.lt
        else if ltb s.head (head key)
        then Ordering.gt
        else if leb (length s.key) 4
        then compare (length key) (length s.key)
        else cmp_keys key s.key)
    else cmp_keys key s.key

-- The loop of `lowerBound`: the position, and whether it returns at a slot with the key, which is what
-- it writes to `is_equal` in a leaf.
unfoldable pub search_loop : Bool → List Slot → List ℕ → ℕ → ℕ → ℕ → ℕ × Bool
unfolding compare_slot
search_loop heads slots key zero lower upper = (lower, false)
search_loop heads slots key (suc fuel) lower upper =
    let mid = (upper - lower) / 2 + lower in
    let below = search_loop heads slots key fuel lower mid in
    let above = search_loop heads slots key fuel (mid + 1) upper in
    if ltb lower upper
    then (elim (compare_slot heads key (get_or slots mid no_slot)) [
      | Ordering.lt ↦ below
      | Ordering.gt ↦ above
      | Ordering.eq ↦ (mid, true)
    ])
    else (lower, false)

-- The search after the prefix.
unfoldable pub search : Bool → Hints → BTreeNode → List ℕ → ℕ × Bool
unfolding search_hint search_loop
search heads hints n key =
    let bounds = search_hint hints n.hint (length n.slots) (head key) in
    search_loop heads n.slots key (length n.slots) bounds.0 bounds.1

-- `lowerBound<false>`.
unfoldable pub lower_bound : Bool → Hints → BTreeNode → List ℕ → ℕ × Bool
unfolding search
lower_bound heads hints n key =
    let found = search heads hints n (drop n.prefix_length key) in
    elim (cmp_keys (take n.prefix_length key) (get_prefix n)) [
      | Ordering.lt ↦ (0, false)
      | Ordering.gt ↦ (length n.slots, false)
      | Ordering.eq ↦ found
    ]

-- `lowerBound<true>`; `none` is -1.
unfoldable pub lower_bound_exact : Bool → Hints → BTreeNode → List ℕ → Option ℕ
unfolding search
lower_bound_exact heads hints n key =
    let found = search heads hints n (drop n.prefix_length key) in
    elim (cmp_keys (take n.prefix_length key) (get_prefix n)) [
      | Ordering.eq ↦ if found.1 then some found.0 else none
      | _ ↦ none
    ]

-- `makeHint`; in a node without slots the source reads a slot that was there before.
unfoldable pub make_hint : List Slot → ℕ → ℕ → List ℕ
make_hint slots zero i = []
make_hint slots (suc rounds) i =
    (get_or slots (length slots / (hint_count + 1) * (i + 1)) no_slot).head
    ∷ make_hint slots rounds (i + 1)

-- `removeSlot`.
unfoldable pub remove_slot : BTreeNode → ℕ → BTreeNode
unfolding make_hint
remove_slot n slot_id =
    let s = get_or n.slots slot_id no_slot in
    let slots = erase_at n.slots slot_id in
    record n {
      space_used = (n.space_used + 2 ^ 16 - (length s.key + length s.payload)) % 2 ^ 16;
      slots = slots;
      hint = make_hint slots hint_count 0;
    }

-- `remove`.
unfoldable pub remove : Bool → Hints → BTreeNode → List ℕ → Bool × BTreeNode
unfolding lower_bound_exact remove_slot
remove heads hints n key = elim (lower_bound_exact heads hints n key) [
  | none ↦ (false, n)
  | some slot_id ↦ (true, remove_slot n slot_id)
]

-- `lookupInner`: the payload of a slot holds the child.
unfoldable pub lookup_inner : Bool → Hints → (List ℕ → ℕ) → BTreeNode → List ℕ → ℕ
unfolding lower_bound
lookup_inner heads hints child_of n key =
    let pos = (lower_bound heads hints n key).0 in
    if pos == length n.slots then n.upper else child_of (get_or n.slots pos no_slot).payload

-- `compareKeyWithBoundaries`: 1 below or at the lower fence, -1 above the upper one, 0 between.
pub data Boundary : Type 0 where
  within : Boundary
  at_or_below_lower : Boundary
  above_upper : Boundary

unfoldable pub compare_key_with_boundaries : BTreeNode → List ℕ → Boundary
compare_key_with_boundaries n key =
    let to_upper : Boundary = elim n.upper_fence [
      | none ↦ within
      | some fence ↦ elim (cmp_keys key fence) [ Ordering.gt ↦ above_upper | _ ↦ within ]
    ] in
    elim n.lower_fence [
      | none ↦ to_upper
      | some fence ↦ elim (cmp_keys key fence) [ Ordering.gt ↦ to_upper | _ ↦ at_or_below_lower ]
    ]
