-- ===== src/Cache/Sieve/Progress.antt =====
-- When an eviction finds a victim, and when it cannot.
use re_mlcxl.Base.{
  ℕ, zero, suc, ◌+◌, ◌*◌, ◌≤◌, ◌<◌, ◌≡◌, refl, ap, subst, inl, inr, Bool, true, false, ◌&&◌, not,
  List, [], ◌∷◌, ◌++◌, Option, none, some, arith, length, get_or, erase_at, if◌then◌else◌,
  Bool-cases, All,
}
use re_mlcxl.Cache.Sieve.{
  SieveFifoQueue, Round, go_on, victim, set_visited, wrap_hand, called, refused, scan_entry, scan,
  evict_loop, evict_one_from_sieve_fifo,
}
use re_mlcxl.Cache.Sieve.Conserve.{wrap_hand-lt, evict_loop_rule, after_round}

module _ (try_mark_evictable should_force_evict : Option (ℕ → Bool)) where
  -- The places where a round goes on: null pointers, and entries with a second chance.
  abbrev busy_place : (ℕ → Bool) → Option ℕ → ℕ
  busy_place visited none = 1
  busy_place visited (some p) = if visited p && not (called should_force_evict p) then 1 else 0

  abbrev busy : (ℕ → Bool) → List (Option ℕ) → ℕ
  busy visited [] = 0
  busy visited (e ∷ q) = busy_place visited e + busy visited q

  abbrev pub Accepted : Option ℕ → Type 0
  Accepted none = Unit {0}
  Accepted (some p) = refused try_mark_evictable p ≡ false

  abbrev pub live : List (Option ℕ) → ℕ
  live [] = 0
  live (none ∷ q) = live q
  live (some p ∷ q) = suc (live q)

  busy-le-length : (visited : ℕ → Bool) (q : List (Option ℕ)) → busy visited q ≤ length q
  busy-le-length visited [] = omega arith
  busy-le-length visited (none ∷ q) = omega (arith, busy-le-length visited q)
  busy-le-length visited (some p ∷ q) = ground (arith, busy-le-length visited q)

  busy-clear-le :
      (visited : ℕ → Bool) (c : ℕ) (q : List (Option ℕ))
      → busy (set_visited visited c false) q ≤ busy visited q
  busy-clear-le visited c [] = omega arith
  busy-clear-le visited c (none ∷ q) = omega (arith, busy-clear-le visited c q)
  busy-clear-le visited c (some p ∷ q) = ground (arith, busy-clear-le visited c q)

  -- Clearing the bit of a second-chance entry leaves fewer busy places.
  busy-clear-lt :
      (visited : ℕ → Bool) (c : ℕ) (q : List (Option ℕ)) (i : ℕ)
      → get_or q i none ≡ some c
      → (visited c && not (called should_force_evict c)) ≡ true
      → busy (set_visited visited c false) q < busy visited q
  busy-clear-lt visited c [] i at b = absurd (cc at)
  busy-clear-lt visited c (none ∷ q) zero at b = absurd (cc at)
  busy-clear-lt visited c (some p ∷ q) zero at b =
      let same : p ≡ c = ground arith in ground (arith, busy-clear-le visited c q)
  busy-clear-lt visited c (none ∷ q) (suc i) at b = omega (arith, busy-clear-lt visited c q i at b)
  busy-clear-lt visited c (some p ∷ q) (suc i) at b =
      ground (arith, busy-clear-lt visited c q i at b)

  busy-erase_null :
      (visited : ℕ → Bool) (q : List (Option ℕ)) (i : ℕ)
      → i < length q
      → get_or q i none ≡ none
      → (busy visited (erase_at q i) + 1 ≡ busy visited q) × (live (erase_at q i) ≡ live q)
  busy-erase_null visited [] i lt at = elim lt [ ]
  busy-erase_null visited (none ∷ q) zero lt at = (omega arith, refl)
  busy-erase_null visited (some p ∷ q) zero lt at = absurd (cc at)
  busy-erase_null visited (none ∷ q) (suc i) lt at =
      let (b, l) = busy-erase_null visited q i (omega arith) at in (omega arith, l)
  busy-erase_null visited (some p ∷ q) (suc i) lt at =
      let (b, l) = busy-erase_null visited q i (omega arith) at in (omega arith, ap suc l)

  All-erase_at : (q : List (Option ℕ)) (i : ℕ) → All Accepted q → All Accepted (erase_at q i)
  All-erase_at [] i h = tt
  All-erase_at (x ∷ q) zero h = h.1
  All-erase_at (x ∷ q) (suc i) h = (h.0, All-erase_at q i h.1)

  Accepted-at :
      (q : List (Option ℕ)) (i : ℕ) (c : ℕ)
      → All Accepted q
      → get_or q i none ≡ some c
      → refused try_mark_evictable c ≡ false
  Accepted-at [] i c h at = absurd (cc at)
  Accepted-at (x ∷ q) zero c h at = subst Accepted at h.0
  Accepted-at (x ∷ q) (suc i) c h at = Accepted-at q i c h.1 at

  live-le-length : (q : List (Option ℕ)) → live q ≤ length q
  live-le-length [] = omega arith
  live-le-length (none ∷ q) = omega (arith, live-le-length q)
  live-le-length (some p ∷ q) = omega (arith, live-le-length q)

  -- A round finds a victim, or leaves fewer busy places and the same entries.
  abbrev Advances : SieveFifoQueue → Round → Type 0
  Advances s (go_on t) =
      (busy t.visited t.sieve_fifo_queue < busy s.visited s.sieve_fifo_queue)
      × All Accepted t.sieve_fifo_queue
      × (0 < live t.sieve_fifo_queue)
  Advances s (victim v t) = Unit {0}

  scan_entry-Advances :
      (s : SieveFifoQueue) (e : Option ℕ)
      → s.hand_pointer < length s.sieve_fifo_queue
      → get_or s.sieve_fifo_queue s.hand_pointer none ≡ e
      → All Accepted s.sieve_fifo_queue
      → 0 < live s.sieve_fifo_queue
      → Advances s (scan_entry try_mark_evictable should_force_evict s e)
  unfolding scan_entry
  scan_entry-Advances s none lt at acc pos =
      let (b, l) = busy-erase_null s.visited s.sieve_fifo_queue s.hand_pointer lt at in
      (omega arith, All-erase_at s.sieve_fifo_queue s.hand_pointer acc, omega arith)
  scan_entry-Advances s (some c) lt at acc pos =
      elim (Bool-cases (s.visited c && not (called should_force_evict c))) [
        | inl second ↦
            rw second
              (busy-clear-lt s.visited c s.sieve_fifo_queue s.hand_pointer at second, acc, pos)
        | inr first ↦ rw (first, Accepted-at s.sieve_fifo_queue s.hand_pointer c acc at) tt
      ]

  scan-Advances :
      (s : SieveFifoQueue)
      → 0 < length s.sieve_fifo_queue
      → All Accepted s.sieve_fifo_queue
      → 0 < live s.sieve_fifo_queue
      → Advances s (scan try_mark_evictable should_force_evict s)
  unfolding scan
  scan-Advances s some_place acc pos =
      scan_entry-Advances (record s { hand_pointer = wrap_hand s.sieve_fifo_queue s.hand_pointer })
        _ (wrap_hand-lt s.sieve_fifo_queue s.hand_pointer some_place) refl acc pos

  abbrev IsFound : Option ℕ × SieveFifoQueue → Type 0
  IsFound r = (v : ℕ) × (r.0 ≡ some v)

  evict_loop-IsFound :
      (rounds : ℕ) (s : SieveFifoQueue)
      → busy s.visited s.sieve_fifo_queue < rounds
      → All Accepted s.sieve_fifo_queue
      → 0 < live s.sieve_fifo_queue
      → IsFound (evict_loop try_mark_evictable should_force_evict rounds s)
  evict_loop-IsFound zero s b acc pos = absurd (omega arith)
  evict_loop-IsFound (suc rounds) s b acc pos =
      evict_loop_rule try_mark_evictable should_force_evict IsFound rounds s
        (λ e. absurd (omega (arith, live-le-length s.sieve_fifo_queue)))
        (λ some_place.
          scan_result (scan try_mark_evictable should_force_evict s)
            (scan-Advances s some_place acc pos) (evict_loop-IsFound rounds))
    where
      scan_result :
          (r : Round)
          → Advances s r
          → ((t : SieveFifoQueue)
              → busy t.visited t.sieve_fifo_queue < rounds
              → All Accepted t.sieve_fifo_queue
              → 0 < live t.sieve_fifo_queue
              → IsFound (evict_loop try_mark_evictable should_force_evict rounds t))
          → IsFound (after_round try_mark_evictable should_force_evict rounds r)
      scan_result (go_on t) k ih = ih t (omega arith) k.1 k.2
      scan_result (victim v t) k ih = (v, refl)

  -- `evictOneFromSieveFIFO` finds a victim in its two passes whenever the queue holds an entry and
  -- `tryMarkEvictable` refuses none of the queue's entries, whatever the visited bits and however
  -- many null pointers stand between.
  pub evict-IsFound :
      (s : SieveFifoQueue)
      → All Accepted s.sieve_fifo_queue
      → 0 < live s.sieve_fifo_queue
      → (v : ℕ) × ((evict_one_from_sieve_fifo try_mark_evictable should_force_evict s).0 ≡ some v)
  unfolding evict_one_from_sieve_fifo
  evict-IsFound s acc pos =
      evict_loop-IsFound (length s.sieve_fifo_queue * 2) s
        (omega
          (arith, busy-le-length s.visited s.sieve_fifo_queue, live-le-length s.sieve_fifo_queue))
        acc pos

  -- A place that a round turns down for good: refused by the callback, with no second chance left.
  abbrev pub IsStuck : (ℕ → Bool) → Option ℕ → Type 0
  IsStuck visited none = ⊥
  IsStuck visited (some p) =
      (refused try_mark_evictable p ≡ true)
      × ((visited p && not (called should_force_evict p)) ≡ false)

  -- From the hand on, the queue holds two stuck entries or more, and nothing else.
  pub data Starved (pre : List (Option ℕ)) (s : SieveFifoQueue) : Type 0 where
    starved :
        (rs : List (Option ℕ))
        → s.sieve_fifo_queue ≡ pre ++ rs
        → s.hand_pointer ≡ length pre
        → 1 < length rs
        → All (IsStuck s.visited) rs
        → Starved pre s

  abbrev GoesOn : List (Option ℕ) → Round → Type 0
  GoesOn pre (go_on t) = Starved pre t
  GoesOn pre (victim v t) = ⊥

module _ (try_mark_evictable should_force_evict : Option (ℕ → Bool)) where
  abbrev FindsNone : List (Option ℕ) → Option ℕ × SieveFifoQueue → Type 0
  FindsNone pre r = (r.0 ≡ none) × Starved try_mark_evictable should_force_evict pre r.1
