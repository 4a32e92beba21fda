-- ===== src/BTree/Node/Tests.antt =====
-- The theorems on a node with two slots.
use re_mlcxl.Base.{ℕ, zero, suc, ◌*◌, ◌^◌, ◌<◌, ◌≡◌, refl, true, List, [], ◌∷◌, some, arith, get_or}
use Prim.Native.Nat.{Ordering}
use re_mlcxl.BTree.Keys.{cmp_keys, head, IsBytes}
use re_mlcxl.BTree.Node.{Slot, no_slot, BTreeNode, scalar, make_hint, lower_bound, remove}
use re_mlcxl.BTree.Node.Compare
use re_mlcxl.BTree.Node.Search.{key_at}
use re_mlcxl.BTree.Node.First.{IsValid, IsFirst, lower_bound-IsFirst}
use re_mlcxl.BTree.Node.Remove.{Removes, remove-Removes}

-- The second key differs from the first in its length and has the same head.
abbrev slots : List Slot
slots =
    record { key = 3 ∷ []; payload = 1 ∷ []; head = 3 * 2 ^ 24 }
    ∷ record { key = 3 ∷ 0 ∷ 0 ∷ 0 ∷ 9 ∷ []; payload = 2 ∷ []; head = 3 * 2 ^ 24 }
    ∷ []

abbrev node : BTreeNode
node = record {
  lower_fence = some (1 ∷ 2 ∷ 0 ∷ []);
  upper_fence = some (1 ∷ 2 ∷ 8 ∷ []);
  is_leaf = true;
  space_used = 14;
  prefix_length = 2;
  hint = make_hint slots 16 0;
  slots = slots;
  upper = 0;
}

slots-valid : (i : ℕ) → i < 2 → Compare.IsValid (get_or slots i no_slot)
unfolding head
slots-valid zero lt = record { bytes = (omega arith, tt); headed = refl }
slots-valid (suc zero) lt = record {
  bytes = (omega arith, (omega arith, (omega arith, (omega arith, (omega arith, tt)))));
  headed = refl;
}
slots-valid (suc (suc i)) lt = absurd (omega arith)

slots-ordered : (i j : ℕ) → i < j → j < 2 → cmp_keys (key_at slots j) (key_at slots i) ≡ Ordering.gt
unfolding cmp_keys
slots-ordered zero zero lt small = absurd (omega arith)
slots-ordered zero (suc zero) lt small = refl
slots-ordered (suc i) zero lt small = absurd (omega arith)
slots-ordered (suc i) (suc zero) lt small = absurd (omega arith)
slots-ordered i (suc (suc j)) lt small = absurd (omega arith)

node-IsValid : IsValid node
node-IsValid = record {
  sorted = record { valid = slots-valid; ordered = slots-ordered };
  hinted = refl;
  prefixed = refl;
}

abbrev wanted : List ℕ
wanted = 1 ∷ 2 ∷ 3 ∷ 0 ∷ []

wanted-IsBytes : IsBytes wanted
wanted-IsBytes = (omega arith, (omega arith, (omega arith, (omega arith, tt))))

lower_bound-IsFirst_example : IsFirst node wanted (lower_bound true scalar node wanted).0
lower_bound-IsFirst_example =
    lower_bound-IsFirst true scalar node wanted wanted-IsBytes node-IsValid

remove-Removes_example :
    IsValid (remove true scalar node wanted).1
    × Removes node wanted (remove true scalar node wanted)
remove-Removes_example = remove-Removes true scalar node wanted wanted-IsBytes node-IsValid
