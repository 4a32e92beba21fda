-- ===== src/Cache/Sieve.antt =====
-- SIEVE_eviction/SieveFIFO.hpp and the callbacks of SIEVE_eviction/SIEVEEvictionThread.cpp. A pointer
-- is a number, `none` the null pointer; the visited bits of the entries are part of the state. The
-- callbacks read no visited bit, as those of the eviction thread do not, and `onVictimChosen` is
-- empty, as the thread passes it. Each method runs under the queue's mutex, so it is one step.
pub mod Conserve
pub mod Progress
pub mod Drain
use re_mlcxl.Base.{
  ℕ, zero, suc, ◌+◌, ◌*◌, ◌%◌, Bool, true, false, ◌&&◌, ◌||◌, not, List, [], ◌∷◌, ◌++◌, Option,
  none, some, length, get_or, erase_at, ltb, leb, ◌==◌, if◌then◌else◌,
}
use re_mlcxl.Cache.Entry.{RecordCacheType, is_read_only, is_removed}

-- `SieveFIFOQueue`, with the entries' visited bits.
pub record SieveFifoQueue : Type 0 where
  pub sieve_fifo_queue : List (Option ℕ)
  pub hand_pointer : ℕ
  pub visited : ℕ → Bool

abbrev pub set_visited : (ℕ → Bool) → ℕ → Bool → ℕ → Bool
set_visited visited p b q = if q == p then b else visited q

-- `InsertIntoSieveFIFO`; a null pointer is ignored.
unfoldable pub insert_into_sieve_fifo : SieveFifoQueue → Option ℕ → SieveFifoQueue
insert_into_sieve_fifo s none = s
insert_into_sieve_fifo s (some p) = record s {
  sieve_fifo_queue = s.sieve_fifo_queue ++ (some p ∷ []);
  visited = set_visited s.visited p false;
}

-- `ReInsertIntoSieveFIFO`.
unfoldable pub reinsert_into_sieve_fifo : SieveFifoQueue → Option ℕ → SieveFifoQueue
reinsert_into_sieve_fifo s none = s
reinsert_into_sieve_fifo s (some p) = record s {
  sieve_fifo_queue = s.sieve_fifo_queue ++ (some p ∷ []);
}

-- `OnSieveFIFOAccess`.
unfoldable pub on_sieve_fifo_access : SieveFifoQueue → Option ℕ → SieveFifoQueue
on_sieve_fifo_access s none = s
on_sieve_fifo_access s (some p) = record s { visited = set_visited s.visited p true }

-- The hand after an erasure: 0 when it points past the end.
abbrev pub wrap_hand : List (Option ℕ) → ℕ → ℕ
wrap_hand q hand = if ltb hand (length q) then hand else 0

-- `eraseElementAtHandPosition`, on a queue that is not empty.
abbrev pub erase_element_at_hand_position : SieveFifoQueue → SieveFifoQueue
erase_element_at_hand_position s =
    let rest = erase_at s.sieve_fifo_queue s.hand_pointer in
    record s { sieve_fifo_queue = rest; hand_pointer = wrap_hand rest s.hand_pointer }

-- `advanceHandPointer`, on a queue that is not empty.
abbrev pub advance_hand_pointer : SieveFifoQueue → SieveFifoQueue
advance_hand_pointer s = record s {
  hand_pointer = (s.hand_pointer + 1) % length s.sieve_fifo_queue;
}

-- An optional callback: `callback && callback(entry)`.
abbrev pub called : Option (ℕ → Bool) → ℕ → Bool
called none p = false
called (some f) p = f p

-- `tryMarkEvictable && !tryMarkEvictable(entry)`.
abbrev pub refused : Option (ℕ → Bool) → ℕ → Bool
refused none p = false
refused (some f) p = not (f p)

-- One round of the loop: it goes on, or it has chosen a victim.
pub data Round : Type 0 where
  go_on : SieveFifoQueue → Round
  victim : ℕ → SieveFifoQueue → Round

module _ (try_mark_evictable should_force_evict : Option (ℕ → Bool)) where
  -- The round at a pointer under the hand.
  unfoldable pub scan_entry : SieveFifoQueue → Option ℕ → Round
  scan_entry s none = go_on (erase_element_at_hand_position s)
  scan_entry s (some current_entry) =
      let force_evict = called should_force_evict current_entry in
      let was_visited = s.visited current_entry in
      let cleared = record s { visited = set_visited s.visited current_entry false } in
      let erased = erase_element_at_hand_position cleared in
      if was_visited && not force_evict
      then go_on (advance_hand_pointer cleared)
      else if refused try_mark_evictable current_entry
      then go_on (record erased {
        sieve_fifo_queue = erased.sieve_fifo_queue ++ (some current_entry ∷ []);
      })
      else victim current_entry erased

  -- The round with its first test, which puts the hand back into the queue.
  unfoldable pub scan : SieveFifoQueue → Round
  unfolding scan_entry
  scan s =
      let hand = wrap_hand s.sieve_fifo_queue s.hand_pointer in
      scan_entry (record s { hand_pointer = hand }) (get_or s.sieve_fifo_queue hand none)

  -- The loop; every round counts towards the limit.
  unfoldable pub evict_loop : ℕ → SieveFifoQueue → Option ℕ × SieveFifoQueue
  evict_loop zero s = (none, s)
  evict_loop (suc rounds) s = elim s.sieve_fifo_queue [
    | [] ↦ (none, s)
    | _ ∷ _ ↦ elim (scan s) [ go_on t ↦ evict_loop rounds t | victim p t ↦ (some p, t) ]
  ]

  -- `evictOneFromSieveFIFO`.
  unfoldable pub evict_one_from_sieve_fifo : SieveFifoQueue → Option ℕ × SieveFifoQueue
  evict_one_from_sieve_fifo s = evict_loop (length s.sieve_fifo_queue * 2) s

-- The loop of `drainStateRemovedOnly`: the victims and the kept pointers, in order.
unfoldable pub drain_loop : (ℕ → RecordCacheType) → ℕ → List (Option ℕ) → List ℕ × List (Option ℕ)
drain_loop entry_type limit [] = ([], [])
drain_loop entry_type limit (none ∷ rest) = drain_loop entry_type limit rest
drain_loop entry_type zero (some p ∷ rest) =
    let (victims, kept) = drain_loop entry_type zero rest in (victims, some p ∷ kept)
drain_loop entry_type (suc left) (some p ∷ rest) = elim (is_removed (entry_type p)) [
  | true ↦ let (victims, kept) = drain_loop entry_type left rest in (p ∷ victims, kept)
  | false ↦ let (victims, kept) = drain_loop entry_type (suc left) rest in (victims, some p ∷ kept)
]

-- `drainStateRemovedOnly`, with the victims that it appends.
unfoldable pub drain_state_removed_only :
    (ℕ → RecordCacheType) → ℕ → SieveFifoQueue → List ℕ × SieveFifoQueue
unfolding drain_loop
drain_state_removed_only entry_type limit s = elim s.sieve_fifo_queue [
  | [] ↦ ([], s)
  | _ ∷ _ ↦
      let (victims, kept) = drain_loop entry_type limit s.sieve_fifo_queue in
      (victims, record s { sieve_fifo_queue = kept; hand_pointer = wrap_hand kept s.hand_pointer })
]

abbrev pub null_within : ℕ → ℕ → Option ℕ → Option ℕ
null_within slab_base slab_end none = none
null_within slab_base slab_end (some p) = if leb slab_base p && ltb p slab_end then none else some p

pub null_all : ℕ → ℕ → List (Option ℕ) → List (Option ℕ)
null_all slab_base slab_end [] = []
null_all slab_base slab_end (p ∷ rest) =
    null_within slab_base slab_end p ∷ null_all slab_base slab_end rest

-- `markSlabEntriesAsNull`.
unfoldable pub mark_slab_entries_as_null : ℕ → ℕ → SieveFifoQueue → SieveFifoQueue
unfolding null_all
mark_slab_entries_as_null slab_base slab_end s = record s {
  sieve_fifo_queue = null_all slab_base slab_end s.sieve_fifo_queue;
}

-- The callback `tryMarkEvictable` of `sieveEvictionThread`.
abbrev pub thread_try_mark_evictable : (ℕ → RecordCacheType) → ℕ → Bool
thread_try_mark_evictable entry_type p = is_read_only (entry_type p) || is_removed (entry_type p)
