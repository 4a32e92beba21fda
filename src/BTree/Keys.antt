-- ===== src/BTree/Keys.antt =====
-- BTreeNode.hpp: the order of keys and their heads. A key is the list of its bytes.
pub mod Order
pub mod Heads
use re_mlcxl.Base.{ℕ, ◌+◌, ◌*◌, ◌^◌, ◌<◌, List, [], ◌∷◌, All}
use Prim.Native.Nat.{compare, Ordering}

-- `cmpKeys` up to the sign of its result: the first bytes that differ decide, then the lengths.
unfoldable pub cmp_keys : List ℕ → List ℕ → Ordering
cmp_keys [] [] = Ordering.eq
cmp_keys [] (y ∷ b) = Ordering.lt
cmp_keys (x ∷ a) [] = Ordering.gt
cmp_keys (x ∷ a) (y ∷ b) =
    let rest = cmp_keys a b in
    elim (compare x y) [
      | Ordering.lt ↦ Ordering.lt
      | Ordering.gt ↦ Ordering.gt
      | Ordering.eq ↦ rest
    ]

-- `head`: the first four bytes as a big-endian number, padded with zeros.
unfoldable pub head : List ℕ → ℕ
head [] = 0
head (a ∷ []) = a * 2 ^ 24
head (a ∷ b ∷ []) = (a * 256 + b) * 2 ^ 16
head (a ∷ b ∷ c ∷ []) = (a * 256 + b) * 2 ^ 16 + c * 2 ^ 8
head (a ∷ b ∷ c ∷ d ∷ _) = a * 2 ^ 24 + b * 2 ^ 16 + c * 2 ^ 8 + d

-- Keys are bytes.
abbrev pub IsBytes : List ℕ → Type 0
IsBytes key = All (λ b. b < 256) key
