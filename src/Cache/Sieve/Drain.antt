-- ===== src/Cache/Sieve/Drain.antt =====
-- Draining the entries that wait for deallocation, and nulling those of a slab.
use re_mlcxl.Base.{
  ℕ, zero, suc, ◌+◌, ◌≤◌, ◌<◌, ◌≡◌, refl, ap, sym, ◌⊎◌, inl, inr, Bool, List, [], ◌∷◌, Option, none,
  some, arith, length, ◌==◌, if◌then◌else◌, Bool-cases,
}
use re_mlcxl.Cache.Entry.{RecordCacheType, is_removed}
use re_mlcxl.Cache.Sieve.{
  SieveFifoQueue, drain_loop, drain_state_removed_only, wrap_hand, null_all,
  mark_slab_entries_as_null, evict_one_from_sieve_fifo,
}
use re_mlcxl.Cache.Sieve.Conserve.{copies, returned, HandInQueue, evict-keeps, wrap_hand_in}

abbrev pub take : ℕ → List ℕ → List ℕ
take zero xs = []
take (suc n) [] = []
take (suc n) (x ∷ xs) = x ∷ take n xs

take_nil : (limit : ℕ) → take limit [] ≡ []
take_nil zero = refl
take_nil (suc limit) = refl

-- How often a pointer stands among the victims.
abbrev pub among : ℕ → List ℕ → ℕ
among p [] = 0
among p (r ∷ rs) = (if r == p then 1 else 0) + among p rs

module _ (entry_type : ℕ → RecordCacheType) where
  -- The entries of the queue that wait for deallocation, in its order.
  abbrev pub removed_of : List (Option ℕ) → List ℕ
  removed_of [] = []
  removed_of (none ∷ q) = removed_of q
  removed_of (some p ∷ q) = if is_removed (entry_type p) then p ∷ removed_of q else removed_of q

  drain_loop_zero : (q : List (Option ℕ)) → (drain_loop entry_type 0 q).0 ≡ []
  unfolding drain_loop
  drain_loop_zero [] = refl
  drain_loop_zero (none ∷ q) = drain_loop_zero q
  drain_loop_zero (some p ∷ q) = drain_loop_zero q

  drain_loop-take :
      (limit : ℕ) (q : List (Option ℕ))
      → (drain_loop entry_type limit q).0 ≡ take limit (removed_of q)
  unfolding drain_loop
  drain_loop-take zero q = drain_loop_zero q
  drain_loop-take (suc limit) [] = refl
  drain_loop-take (suc limit) (none ∷ q) = drain_loop-take (suc limit) q
  drain_loop-take (suc limit) (some p ∷ q) = elim (Bool-cases (is_removed (entry_type p))) [
    | inl gone ↦ rw (gone, drain_loop) (ap (◌∷◌ p) (drain_loop-take limit q))
    | inr stays ↦ rw (stays, drain_loop) (drain_loop-take (suc limit) q)
  ]

  drain_loop-copies :
      (limit p : ℕ) (q : List (Option ℕ))
      → copies p (drain_loop entry_type limit q).1 + among p (drain_loop entry_type limit q).0
        ≡ copies p q
  unfolding drain_loop
  drain_loop-copies limit p [] = omega arith
  drain_loop-copies zero p (none ∷ q) = drain_loop-copies zero p q
  drain_loop-copies (suc limit) p (none ∷ q) = drain_loop-copies (suc limit) p q
  drain_loop-copies zero p (some r ∷ q) = omega (arith, drain_loop-copies zero p q)
  drain_loop-copies (suc limit) p (some r ∷ q) = elim (Bool-cases (is_removed (entry_type r))) [
    | inl gone ↦ rw (gone, drain_loop) (omega (arith, drain_loop-copies limit p q))
    | inr stays ↦ rw (stays, drain_loop) (omega (arith, drain_loop-copies (suc limit) p q))
  ]

  -- `drainStateRemovedOnly` returns the first `limit` entries that wait for deallocation, in the
  -- queue's order; every pointer stands among the victims and in the new queue as often as in the old
  -- queue; no visited bit changes, and the hand stays in the queue (or at 0).
  pub drain_lem :
      (limit p : ℕ) (s : SieveFifoQueue)
      → HandInQueue s
      → let (victims, t) = drain_state_removed_only entry_type limit s in
        (victims ≡ take limit (removed_of s.sieve_fifo_queue))
        × (copies p t.sieve_fifo_queue + among p victims ≡ copies p s.sieve_fifo_queue)
        × (t.visited ≡ s.visited)
        × HandInQueue t
  unfolding drain_state_removed_only
  drain_lem limit p s h = by_queue s.sieve_fifo_queue refl
    where
      Holds : List ℕ × SieveFifoQueue → Type 0
      Holds r =
          (r.0 ≡ take limit (removed_of s.sieve_fifo_queue))
          × (copies p r.1.sieve_fifo_queue + among p r.0 ≡ copies p s.sieve_fifo_queue)
          × (r.1.visited ≡ s.visited)
          × HandInQueue r.1

      by_queue :
          (q : List (Option ℕ))
          → s.sieve_fifo_queue ≡ q
          → Holds (elim q [
            | [] ↦ ([], s)
            | _ ∷ _ ↦ (
              (drain_loop entry_type limit s.sieve_fifo_queue).0,
              record s {
                sieve_fifo_queue = (drain_loop entry_type limit s.sieve_fifo_queue).1;
                hand_pointer =
                    wrap_hand (drain_loop entry_type limit s.sieve_fifo_queue).1 s.hand_pointer;
              },
            )
          ])
      by_queue [] e = (rw e (sym (take_nil limit)), omega arith, refl, h)
      by_queue (x ∷ q) e = (
        drain_loop-take limit s.sieve_fifo_queue,
        drain_loop-copies limit p s.sieve_fifo_queue,
        refl,
        wrap_hand_in (drain_loop entry_type limit s.sieve_fifo_queue).1 s.hand_pointer,
      )

IsWithin-null :
    (slab_base slab_end p : ℕ) (q : List (Option ℕ))
    → slab_base ≤ p
    → p < slab_end
    → copies p (null_all slab_base slab_end q) ≡ 0
unfolding null_all
IsWithin-null slab_base slab_end p [] lo hi = refl
IsWithin-null slab_base slab_end p (none ∷ q) lo hi = IsWithin-null slab_base slab_end p q lo hi
IsWithin-null slab_base slab_end p (some r ∷ q) lo hi =
    ground (arith, IsWithin-null slab_base slab_end p q lo hi)

copies-null_outside :
    (slab_base slab_end p : ℕ) (q : List (Option ℕ))
    → (p < slab_base) ⊎ (slab_end ≤ p)
    → copies p (null_all slab_base slab_end q) ≡ copies p q
unfolding null_all
copies-null_outside slab_base slab_end p [] out = refl
copies-null_outside slab_base slab_end p (none ∷ q) out =
    copies-null_outside slab_base slab_end p q out
copies-null_outside slab_base slab_end p (some r ∷ q) out =
    ground (arith, copies-null_outside slab_base slab_end p q out)

length-null_all :
    (slab_base slab_end : ℕ) (q : List (Option ℕ))
    → length (null_all slab_base slab_end q) ≡ length q
unfolding null_all
length-null_all slab_base slab_end [] = refl
length-null_all slab_base slab_end (x ∷ q) = ap suc (length-null_all slab_base slab_end q)

-- After `markSlabEntriesAsNull` no eviction returns an entry of the slab, whatever the callbacks; an
-- entry outside the slab stands in the queue as often as before the marking and the eviction, less
-- its return.
pub evict-mark :
    (try_mark_evictable should_force_evict : Option (ℕ → Bool)) (slab_base slab_end p : ℕ)
    (s : SieveFifoQueue)
    → HandInQueue s
    → let (r, t) =
        evict_one_from_sieve_fifo try_mark_evictable should_force_evict
          (mark_slab_entries_as_null slab_base slab_end s) in
      (slab_base ≤ p → p < slab_end → (copies p t.sieve_fifo_queue ≡ 0) × (returned p r ≡ 0))
      × ((p < slab_base) ⊎ (slab_end ≤ p)
          → copies p t.sieve_fifo_queue + returned p r ≡ copies p s.sieve_fifo_queue)
unfolding mark_slab_entries_as_null
evict-mark try_mark should_force slab_base slab_end p s h =
    let same = length-null_all slab_base slab_end s.sieve_fifo_queue in
    let h' : HandInQueue (mark_slab_entries_as_null slab_base slab_end s) = ground arith in
    let kept =
      (evict-keeps try_mark should_force p (mark_slab_entries_as_null slab_base slab_end s) h').0 in
    (
      λ lo hi.
          let gone = IsWithin-null slab_base slab_end p s.sieve_fifo_queue lo hi in
          (omega arith, omega arith),
      λ out.
          let outside = copies-null_outside slab_base slab_end p s.sieve_fifo_queue out in
          omega arith,
    )
