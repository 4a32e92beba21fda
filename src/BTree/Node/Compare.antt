-- ===== src/BTree/Node/Compare.antt =====
-- The comparison with a slot by its head, against the order of keys.
use re_mlcxl.Base.{
  ℕ, ◌≡◌, refl, sym, inl, inr, Bool, true, false, List, arith, length, leb, ltb, Bool-cases, ltb→lt,
  not-ltb→le, leb→le,
}
use re_mlcxl.BTree.Keys.{cmp_keys, head, IsBytes}
use re_mlcxl.BTree.Keys.Order.{cmp_keys-flip}
use re_mlcxl.BTree.Keys.Heads.{head-lt, head-length}
use re_mlcxl.BTree.Node.{Slot, compare_slot}

-- The key's bytes, and its head.
pub record IsValid (s : Slot) : Type 0 where
  pub bytes : IsBytes s.key
  pub headed : s.head ≡ head s.key

-- With or without `FLAGS_btree_heads`, the comparison of a key with a valid slot is the comparison with
-- the slot's key.
pub compare_slot-cmp_keys :
    (heads : Bool) (key : List ℕ) (s : Slot)
    → IsBytes key
    → IsValid s
    → compare_slot heads key s ≡ cmp_keys key s.key
unfolding compare_slot
compare_slot-cmp_keys false key s bytes v = refl
compare_slot-cmp_keys true key s bytes v =
    let same = v.headed in
    elim (Bool-cases (ltb (head key) s.head)) [
      | inl less ↦
          let lt = ltb→lt (head key) s.head less in
          rw (compare_slot, less) (sym (head-lt key s.key bytes v.bytes (omega (arith, lt, same))))
      | inr not_less ↦ elim (Bool-cases (ltb s.head (head key))) [
        | inl more ↦
            let lt = ltb→lt s.head (head key) more in
            rw (compare_slot, not_less, more)
              (sym (
                cmp_keys-flip s.key key
                  (head-lt s.key key v.bytes bytes (omega (arith, lt, same)))))
        | inr not_more ↦ elim (Bool-cases (leb (length s.key) 4)) [
          | inr long ↦ rw (compare_slot, not_less, not_more, long) refl
          | inl short ↦
              let a = not-ltb→le (head key) s.head not_less in
              let b = not-ltb→le s.head (head key) not_more in
              rw (compare_slot, not_less, not_more, short)
                (sym (
                  head-length key s.key bytes v.bytes (omega (arith, a, b, same))
                    (leb→le (length s.key) 4 short)))
        ]
      ]
    ]
