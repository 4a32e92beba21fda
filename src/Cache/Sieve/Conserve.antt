-- ===== src/Cache/Sieve/Conserve.antt =====
-- No operation of the queue loses or duplicates an entry, and the hand stays in the queue.
use native.Mathlib.Nat.{mod-lt}
use re_mlcxl.Base.{
  ℕ, zero, suc, ◌+◌, ◌*◌, ◌<◌, ◌≡◌, refl, ap, subst, ◌∙◌, ◌⊎◌, inl, inr, Bool, false, ◌&&◌, not,
  List, [], ◌∷◌, ◌++◌, Option, none, some, arith, length, get_or, erase_at, ltb, ◌==◌,
  if◌then◌else◌, Bool-cases, length-append, ltb→lt,
}
use re_mlcxl.Cache.Sieve.{
  SieveFifoQueue, Round, go_on, victim, wrap_hand, called, refused, scan_entry, scan, evict_loop,
  evict_one_from_sieve_fifo,
}

-- How often a pointer stands in the queue.
abbrev pub copies : ℕ → List (Option ℕ) → ℕ
copies p [] = 0
copies p (none ∷ q) = copies p q
copies p (some r ∷ q) = (if r == p then 1 else 0) + copies p q

-- How often a pointer is what an eviction returned.
abbrev pub returned : ℕ → Option ℕ → ℕ
returned p none = 0
returned p (some r) = if r == p then 1 else 0

abbrev pub HandInQueue : SieveFifoQueue → Type 0
HandInQueue s = (s.hand_pointer < length s.sieve_fifo_queue) ⊎ (s.hand_pointer ≡ 0)

pub copies-append : (p : ℕ) (q r : List (Option ℕ)) → copies p (q ++ r) ≡ copies p q + copies p r
copies-append p [] r = omega arith
copies-append p (none ∷ q) r = copies-append p q r
copies-append p (some x ∷ q) r = omega (arith, copies-append p q r)

copies-erase_at :
    (p : ℕ) (q : List (Option ℕ)) (i : ℕ)
    → i < length q
    → copies p (erase_at q i) + returned p (get_or q i none) ≡ copies p q
copies-erase_at p [] i h = elim h [ ]
copies-erase_at p (none ∷ q) zero h = omega arith
copies-erase_at p (some x ∷ q) zero h = omega arith
copies-erase_at p (none ∷ q) (suc i) h = copies-erase_at p q i (omega arith)
copies-erase_at p (some x ∷ q) (suc i) h = omega (arith, copies-erase_at p q i (omega arith))

pub wrap_hand_in :
    (q : List (Option ℕ)) (hand : ℕ) → (wrap_hand q hand < length q) ⊎ (wrap_hand q hand ≡ 0)
wrap_hand_in q hand = elim (Bool-cases (ltb hand (length q))) [
  | inl inside ↦ rw inside (inl (ltb→lt hand (length q) inside))
  | inr outside ↦ rw outside (inr refl)
]

pub wrap_hand-lt : (q : List (Option ℕ)) (hand : ℕ) → 0 < length q → wrap_hand q hand < length q
wrap_hand-lt q hand h = ground arith

module _ (try_mark_evictable should_force_evict : Option (ℕ → Bool)) where
  -- What the loop does with a round's outcome.
  abbrev pub after_round : ℕ → Round → Option ℕ × SieveFifoQueue
  after_round rounds (go_on t) = evict_loop try_mark_evictable should_force_evict rounds t
  after_round rounds (victim v t) = (some v, t)

  -- A round of the loop is a scan, unless the queue is empty.
  pub evict_loop_rule {ℓ} :
      (P : Option ℕ × SieveFifoQueue → Type ℓ) (rounds : ℕ) (s : SieveFifoQueue)
      → (length s.sieve_fifo_queue ≡ 0 → P (none, s))
      → (0 < length s.sieve_fifo_queue
          → P (after_round rounds (scan try_mark_evictable should_force_evict s)))
      → P (evict_loop try_mark_evictable should_force_evict (suc rounds) s)
  unfolding evict_loop
  evict_loop_rule P rounds s empty scanned = by_queue s.sieve_fifo_queue refl
    where
      same :
          (r : Round)
          → P (after_round rounds r)
          → P (elim r [
            | go_on t ↦ evict_loop try_mark_evictable should_force_evict rounds t
            | victim v t ↦ (some v, t)
          ])
      same (go_on t) k = k
      same (victim v t) k = k

      by_queue :
          (q : List (Option ℕ))
          → s.sieve_fifo_queue ≡ q
          → P (elim q [
            | [] ↦ (none, s)
            | _ ∷ _ ↦ elim (scan try_mark_evictable should_force_evict s) [
              | go_on t ↦ evict_loop try_mark_evictable should_force_evict rounds t
              | victim v t ↦ (some v, t)
            ]
          ])
      by_queue [] e = empty (ap length e)
      by_queue (x ∷ q) e =
          same (scan try_mark_evictable should_force_evict s) (scanned (omega (arith, ap length e)))

  abbrev RoundKeeps : ℕ → SieveFifoQueue → Round → Type 0
  RoundKeeps p s (go_on t) =
      (copies p t.sieve_fifo_queue ≡ copies p s.sieve_fifo_queue) × HandInQueue t
  RoundKeeps p s (victim v t) =
      (copies p t.sieve_fifo_queue + returned p (some v) ≡ copies p s.sieve_fifo_queue)
      × HandInQueue t
      × (refused try_mark_evictable v ≡ false)
      × (t.visited v ≡ false)

  scan_entry-keeps :
      (p : ℕ) (s : SieveFifoQueue) (e : Option ℕ)
      → s.hand_pointer < length s.sieve_fifo_queue
      → get_or s.sieve_fifo_queue s.hand_pointer none ≡ e
      → RoundKeeps p s (scan_entry try_mark_evictable should_force_evict s e)
  unfolding scan_entry
  scan_entry-keeps p s none lt at =
      let lost = copies-erase_at p s.sieve_fifo_queue s.hand_pointer lt in
      let lost' : copies p rest + returned p none ≡ copies p s.sieve_fifo_queue =
        subst (λ e. copies p rest + returned p e ≡ copies p s.sieve_fifo_queue) at lost in
      (omega arith, wrap_hand_in rest s.hand_pointer)
    where
      rest : List (Option ℕ)
      rest = erase_at s.sieve_fifo_queue s.hand_pointer
  scan_entry-keeps p s (some c) lt at =
      elim (Bool-cases (s.visited c && not (called should_force_evict c))) [
        | inl second ↦ rw second (refl, inl (mod-lt (s.hand_pointer + 1) (omega arith)))
        | inr first ↦ elim (Bool-cases (refused try_mark_evictable c)) [
          | inl kept ↦
              rw (first, kept)
                (
                  omega (arith, copies-append p rest (some c ∷ []), lost),
                  elim (wrap_hand_in rest s.hand_pointer) [
                    | inl inside ↦ inl (omega (arith, length-append {0} rest (some c ∷ [])))
                    | inr start ↦ inr start
                  ],
                )
          | inr chosen ↦
              rw (first, chosen) (lost, wrap_hand_in rest s.hand_pointer, chosen, ground arith)
        ]
      ]
    where
      rest : List (Option ℕ)
      rest = erase_at s.sieve_fifo_queue s.hand_pointer

      lost : copies p rest + returned p (some c) ≡ copies p s.sieve_fifo_queue
      lost =
          subst (λ e. copies p rest + returned p e ≡ copies p s.sieve_fifo_queue) at
            (copies-erase_at p s.sieve_fifo_queue s.hand_pointer lt)

  scan-keeps :
      (p : ℕ) (s : SieveFifoQueue)
      → 0 < length s.sieve_fifo_queue
      → RoundKeeps p s (scan try_mark_evictable should_force_evict s)
  unfolding scan
  scan-keeps p s h =
      scan_entry-keeps p (record s { hand_pointer = wrap_hand s.sieve_fifo_queue s.hand_pointer }) _
        (wrap_hand-lt s.sieve_fifo_queue s.hand_pointer h) refl

  abbrev ResultKeeps : ℕ → SieveFifoQueue → Option ℕ × SieveFifoQueue → Type 0
  ResultKeeps p s (none, t) =
      (copies p t.sieve_fifo_queue ≡ copies p s.sieve_fifo_queue) × HandInQueue t
  ResultKeeps p s (some v, t) =
      (copies p t.sieve_fifo_queue + returned p (some v) ≡ copies p s.sieve_fifo_queue)
      × HandInQueue t
      × (refused try_mark_evictable v ≡ false)
      × (t.visited v ≡ false)

  ResultKeeps-trans :
      (p : ℕ) (s t : SieveFifoQueue) (r : Option ℕ × SieveFifoQueue)
      → copies p t.sieve_fifo_queue ≡ copies p s.sieve_fifo_queue
      → ResultKeeps p t r
      → ResultKeeps p s r
  ResultKeeps-trans p s t (none, u) e (c, h) = (c ∙ e, h)
  ResultKeeps-trans p s t (some v, u) e (c, h, a, b) = (c ∙ e, h, a, b)

  evict_loop-keeps :
      (p rounds : ℕ) (s : SieveFifoQueue)
      → HandInQueue s
      → ResultKeeps p s (evict_loop try_mark_evictable should_force_evict rounds s)
  unfolding evict_loop
  evict_loop-keeps p zero s h = (refl, h)
  evict_loop-keeps p (suc rounds) s h =
      evict_loop_rule (ResultKeeps p s) rounds s (λ _. (refl, h))
        (λ pos.
          scan_result (scan try_mark_evictable should_force_evict s) (scan-keeps p s pos)
            (evict_loop-keeps p rounds))
    where
      scan_result :
          (r : Round)
          → RoundKeeps p s r
          → ((t : SieveFifoQueue)
              → HandInQueue t
              → ResultKeeps p t (evict_loop try_mark_evictable should_force_evict rounds t))
          → ResultKeeps p s (after_round rounds r)
      scan_result (go_on t) k ih = ResultKeeps-trans p s t _ k.0 (ih t k.1)
      scan_result (victim v t) k ih = k

  -- `evictOneFromSieveFIFO` loses and duplicates no entry: a returned victim leaves the queue once,
  -- and every other pointer stands in the queue as often as before. The hand stays in the queue (or at
  -- 0). A victim was not refused by `tryMarkEvictable`, and its visited bit is clear.
  pub evict-keeps :
      (p : ℕ) (s : SieveFifoQueue)
      → HandInQueue s
      → let (r, t) = evict_one_from_sieve_fifo try_mark_evictable should_force_evict s in
        (copies p t.sieve_fifo_queue + returned p r ≡ copies p s.sieve_fifo_queue)
        × HandInQueue t
        × ((v : ℕ) → r ≡ some v → (refused try_mark_evictable v ≡ false) × (t.visited v ≡ false))
  unfolding evict_one_from_sieve_fifo
  evict-keeps p s h =
      by_result (evict_loop try_mark_evictable should_force_evict (length s.sieve_fifo_queue * 2) s)
        (evict_loop-keeps p (length s.sieve_fifo_queue * 2) s h)
    where
      by_result :
          (r : Option ℕ × SieveFifoQueue)
          → ResultKeeps p s r
          → (copies p r.1.sieve_fifo_queue + returned p r.0 ≡ copies p s.sieve_fifo_queue)
            × HandInQueue r.1
            × ((v : ℕ)
                → r.0 ≡ some v
                → (refused try_mark_evictable v ≡ false) × (r.1.visited v ≡ false))
      by_result (none, t) k = (omega (arith, k.0), k.1, λ v e. absurd (cc e))
      by_result (some w, t) k = (
        k.0,
        k.1,
        λ v e.
            let same : w ≡ v = ground arith in
            subst (λ x. (refused try_mark_evictable x ≡ false) × (t.visited x ≡ false)) same
              (k.2, k.3),
      )
