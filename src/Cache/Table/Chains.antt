-- ===== src/Cache/Table/Chains.antt =====
-- The chains of the hash table: what it means that they are well-formed, and the unlinking of an entry.
use re_mlcxl.Base.{
  ℕ, suc, ◌+◌, ◌≤◌, ◌<◌, ◌≡◌, ◌≢◌, refl, sym, ap, ◌∙◌, inl, inr, subst, arith, Bool, true, false,
  List, [], ◌∷◌, if◌then◌else◌, ltb, ◌==◌, Bool-cases, Option-cases, ==→eq, not-==→ne, ==-refl,
  ltb→lt, not-ltb→le, Sure,
}
use re_mlcxl.Cache.Entry.{
  is_removed, removed_from_hash_table_but_wait_for_physical_memory_deallocation,
}
use re_mlcxl.Cache.Table.{RecordCache, same_key, set_chain, set_type, unlink}
use re_mlcxl.Cache.Table.Promote.InFlight.{same_key-eq, same_key_refl}

-- How often an address stands in a chain.
unfoldable pub occurs : ℕ → List ℕ → ℕ
occurs p [] = 0
occurs p (q ∷ qs) = let rest = occurs p qs in if q == p then suc rest else rest

-- An entry stands in its own key's chain only, at most once, and not with the type of removed entries.
pub record Chained (c : RecordCache) : Type 0 where
  pub once : (k : List ℕ) (p : ℕ) → occurs p (c.hash_map k) ≤ 1
  pub own : (k : List ℕ) (p : ℕ) → 0 < occurs p (c.hash_map k) → k ≡ (c.entries p).key
  pub linked :
      (k : List ℕ) (p : ℕ)
      → 0 < occurs p (c.hash_map k)
      → is_removed (c.entries p).entry_type ≡ false

-- The address stands in no chain.
abbrev pub Unlinked : RecordCache → ℕ → Type 0
Unlinked c p = (k : List ℕ) → occurs p (c.hash_map k) ≡ 0

-- A chain after one address was taken out of it.
abbrev pub Without : ℕ → List ℕ → List ℕ → Type 0
Without p chain kept = (q : ℕ) → occurs q chain ≡ occurs q kept + (if p == q then 1 else 0)

pub unlink-Without : (p : ℕ) (chain : List ℕ) → Sure (Without p chain) (unlink p chain)
unfolding unlink occurs
unlink-Without p [] = tt
unlink-Without p (cur ∷ next) = elim (Bool-cases (cur == p)) [
  | inl here ↦ let e = ==→eq cur p here in rw (unlink, here) (λ q. rw e (head q (p == q)))
  | inr other ↦ elim (Option-cases (unlink p next)) [
    | inl missing ↦ rw (unlink, other, missing) tt
    | inr (kept, found) ↦
        let ih = subst (Sure (Without p next)) found (unlink-Without p next) in
        rw (unlink, other, found) (λ q. tail q kept (cur == q) (ih q))
  ]
]
  where
    head :
        (q : ℕ) (b : Bool)
        → (if b then suc (occurs q next) else occurs q next) ≡ occurs q next + (if b then 1 else 0)
    head q true = omega arith
    head q false = omega arith

    tail :
        (q : ℕ) (kept : List ℕ) (b : Bool)
        → occurs q next ≡ occurs q kept + (if p == q then 1 else 0)
        → (if b then suc (occurs q next) else occurs q next)
          ≡ (if b then suc (occurs q kept) else occurs q kept) + (if p == q then 1 else 0)
    tail q kept true e = omega (arith, e)
    tail q kept false e = e

-- The entry p taken out of its chain, which becomes `kept`, and marked as removed.
abbrev pub take_out : RecordCache → ℕ → List ℕ → RecordCache
take_out c p kept =
    set_type (record c { hash_map = set_chain c.hash_map (c.entries p).key kept }) p
      removed_from_hash_table_but_wait_for_physical_memory_deallocation

abbrev pub chain_of : RecordCache → ℕ → List ℕ
chain_of c p = c.hash_map (c.entries p).key

-- What one entry's removal does to the chains: it is in none, and the others stay where they are.
abbrev pub OnlyOut : RecordCache → ℕ → RecordCache → Type 0
OnlyOut c p d =
    Chained d
    × Unlinked d p
    × ((k : List ℕ) (q : ℕ) → q ≢ p → occurs q (d.hash_map k) ≡ occurs q (c.hash_map k))

module _ (c : RecordCache) (p : ℕ) (kept : List ℕ) (chained : Chained c)
    (without : Without p (chain_of c p) kept) (there : 0 < occurs p (chain_of c p)) where
  take_out-Unlinked : Unlinked (take_out c p kept) p
  take_out-Unlinked k = elim (Bool-cases (same_key k (c.entries p).key)) [
    | inl same ↦
        let one = chained.once (c.entries p).key p in
        let out = without p ∙ ap (λ b. occurs p kept + (if b then 1 else 0)) (==-refl p) in
        rw same (omega (arith, one, out))
    | inr differ ↦ elim (Bool-cases (ltb 0 (occurs p (c.hash_map k)))) [
      | inl linked ↦
          let e = chained.own k p (ltb→lt 0 (occurs p (c.hash_map k)) linked) in
          absurd
            (false-ne (sym differ ∙ ap (λ j. same_key j (c.entries p).key) e ∙ same_key_refl _))
      | inr free ↦
          let le = not-ltb→le 0 (occurs p (c.hash_map k)) free in rw differ (omega (arith, le))
    ]
  ]
    where
      false-ne : false ≢ true
      false-ne e = ground arith

  take_out-others :
      (k : List ℕ) (q : ℕ)
      → q ≢ p
      → occurs q ((take_out c p kept).hash_map k) ≡ occurs q (c.hash_map k)
  take_out-others k q ne = elim (Bool-cases (same_key k (c.entries p).key)) [
    | inl same ↦
        let e = same_key-eq k (c.entries p).key same in
        let other : (p == q) ≡ false = ground (arith, ne) in
        let out = without q ∙ ap (λ b. occurs q kept + (if b then 1 else 0)) other in
        rw same (omega (arith, out, ap (λ j. occurs q (c.hash_map j)) e))
    | inr differ ↦ rw differ refl
  ]

  -- An entry that is still linked is another one, which stood there before.
  stayed :
      (k : List ℕ) (q : ℕ)
      → 0 < occurs q ((take_out c p kept).hash_map k)
      → ((q == p) ≡ false) × (0 < occurs q (c.hash_map k))
  stayed k q linked = elim (Bool-cases (q == p)) [
    | inl same ↦
        let gone =
          ap (λ j. occurs j ((take_out c p kept).hash_map k)) (==→eq q p same)
          ∙ take_out-Unlinked k in
        absurd (omega (arith, linked, gone))
    | inr other ↦
        let before = take_out-others k q (not-==→ne q p other) in
        (other, omega (arith, linked, before))
  ]

  pub take_out-OnlyOut : OnlyOut c p (take_out c p kept)
  take_out-OnlyOut = (
    record {
      once = λ k q. elim (Bool-cases (q == p)) [
        | inl same ↦
            let gone =
              ap (λ j. occurs j ((take_out c p kept).hash_map k)) (==→eq q p same)
              ∙ take_out-Unlinked k in
            omega (arith, gone)
        | inr other ↦
            let before = take_out-others k q (not-==→ne q p other) in
            let one = chained.once k q in omega (arith, before, one)
      ];
      own = λ k q linked.
          let (other, before) = stayed k q linked in
          chained.own k q before
          ∙ ap
              (λ b.
                (if b
                  then record (c.entries q) {
                    entry_type = removed_from_hash_table_but_wait_for_physical_memory_deallocation;
                  }
                  else c.entries q).key)
              (sym other);
      linked = λ k q linked.
          let (other, before) = stayed k q linked in rw other (chained.linked k q before);
    },
    take_out-Unlinked,
    take_out-others,
  )
