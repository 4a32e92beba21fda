-- ===== src/Cache/Table/Promote/InFlight.antt =====
-- What the queue of promote requests keeps.
use re_mlcxl.Base.{
  ℕ, suc, ◌+◌, ◌≤◌, ◌<◌, ◌≡◌, refl, inl, inr, subst, arith, ◌==◌, ==→eq, ==-refl, not-leb→lt,
  Bool-cases, length-append, Bool, true, false, ◌&&◌, List, [], ◌∷◌, ◌++◌, length, leb,
  if◌then◌else◌,
}
use re_mlcxl.Cache.Table.{same_key, build_prefixed_key}
use re_mlcxl.Cache.Table.Promote.{
  PromoteRequestMessage, promote_queue_depth_soft_limit, PromoteQueue, has_key, erase_key,
  promote_request, signal_promote_thread, signal_direct_update_promote,
}

-- The queue is bounded, its keys are in flight, and no key is queued twice.
unfoldable pub queued : List PromoteRequestMessage → List ℕ → ℕ
queued [] key = 0
queued (m ∷ rest) key =
    let others = queued rest key in if same_key m.key key then suc others else others

abbrev pub IsValid : PromoteQueue → Type 0
IsValid q =
    (length q.promote_request_message_queue ≤ promote_queue_depth_soft_limit)
    × ((key : List ℕ)
        → queued q.promote_request_message_queue key
          ≤ (if has_key q.inflight_promote_keys key then 1 else 0))

pub queued-append :
    (ms : List PromoteRequestMessage) (m : PromoteRequestMessage) (key : List ℕ)
    → queued (ms ++ (m ∷ [])) key ≡ queued ms key + (if same_key m.key key then 1 else 0)
unfolding queued
queued-append [] m key = elim (Bool-cases (same_key m.key key)) [
  | inl same ↦ rw same refl
  | inr differ ↦ rw differ refl
]
queued-append (x ∷ ms) m key =
    let ih = queued-append ms m key in
    elim (Bool-cases (same_key x.key key)) [
      | inl same ↦ rw same (omega (arith, ih))
      | inr differ ↦ rw differ ih
    ]

both : (a b : Bool) → (a && b) ≡ true → (a ≡ true) × (b ≡ true)
both true true h = (refl, refl)
both true false h = absurd (ground arith)
both false b h = absurd (ground arith)

pub same_key-eq : (a b : List ℕ) → same_key a b ≡ true → a ≡ b
unfolding same_key
same_key-eq [] [] h = refl
same_key-eq [] (y ∷ ys) h = absurd (ground arith)
same_key-eq (x ∷ xs) [] h = absurd (ground arith)
same_key-eq (x ∷ xs) (y ∷ ys) h =
    let parts : ((x == y) ≡ true) × (same_key xs ys ≡ true) = both (x == y) (same_key xs ys) h in
    rw (==→eq x y parts.0, same_key-eq xs ys parts.1) refl

-- A message whose key is not in flight is queued and put in flight.
enqueue-IsValid :
    (q : PromoteQueue) (m : PromoteRequestMessage)
    → length q.promote_request_message_queue < promote_queue_depth_soft_limit
    → has_key q.inflight_promote_keys m.key ≡ false
    → IsValid q
    → IsValid (record q {
      inflight_promote_keys = m.key ∷ q.inflight_promote_keys;
      promote_request_message_queue = q.promote_request_message_queue ++ (m ∷ []);
    })
unfolding has_key
enqueue-IsValid q m room fresh valid = (
  omega (arith, length-append q.promote_request_message_queue (m ∷ [])),
  λ key. elim (Bool-cases (same_key m.key key)) [
    | inl same ↦
        let e = same_key-eq m.key key same in
        let none_queued : queued q.promote_request_message_queue key ≤ 0 =
          subst (λ k. queued q.promote_request_message_queue k ≤ 0) e
            (subst (λ b. queued q.promote_request_message_queue m.key ≤ (if b then 1 else 0)) fresh
              (valid.1 m.key)) in
        rw (queued-append q.promote_request_message_queue m key, same) (omega arith)
    | inr differ ↦
        let old = valid.1 key in
        rw (queued-append q.promote_request_message_queue m key, differ) (omega arith)
  ],
)

-- `signalPromoteThread` keeps the queue within its limit, with every queued key in flight and queued once.
pub signal_promote_thread-IsValid :
    (skip_prefix : Bool) (q : PromoteQueue) (dt_id : ℕ) (key : List ℕ)
    (bf pid slot_id value_length : ℕ) (is_urgent : Bool)
    → IsValid q
    → IsValid
        (signal_promote_thread skip_prefix q dt_id key bf pid slot_id value_length is_urgent).1
unfolding signal_promote_thread
signal_promote_thread-IsValid skip_prefix q dt_id key bf pid slot_id value_length is_urgent valid =
    let k = build_prefixed_key skip_prefix dt_id key in
    elim (Bool-cases
      (leb promote_queue_depth_soft_limit (length q.promote_request_message_queue))) [
        | inl full ↦ rw (full, signal_promote_thread) valid
        | inr room ↦ elim (Bool-cases (has_key q.inflight_promote_keys k)) [
          | inl inflight ↦ rw (room, inflight, signal_promote_thread) valid
          | inr fresh ↦
              rw (room, fresh, signal_promote_thread)
                (enqueue-IsValid q (promote_request k bf pid slot_id value_length is_urgent false)
                  (not-leb→lt promote_queue_depth_soft_limit
                    (length q.promote_request_message_queue) room)
                  fresh valid)
        ]
      ]

pub same_key_refl : (k : List ℕ) → same_key k k ≡ true
unfolding same_key
same_key_refl [] = refl
same_key_refl (x ∷ xs) = rw (==-refl x) (same_key_refl xs)

pub has_key-erase_key :
    (keys : List (List ℕ)) (erased key : List ℕ)
    → same_key erased key ≡ false
    → has_key (erase_key keys erased) key ≡ has_key keys key
unfolding has_key erase_key
has_key-erase_key [] erased key differ = refl
has_key-erase_key (k ∷ keys) erased key differ =
    let ih = has_key-erase_key keys erased key differ in
    elim (Bool-cases (same_key k erased)) [
      | inl same ↦ let e = same_key-eq k erased same in rw (same, e, differ) ih
      | inr other ↦ elim (Bool-cases (same_key k key)) [
        | inl here ↦ rw (other, here) refl
        | inr there ↦ rw (other, there) ih
      ]
    ]

-- A call of `signalDirectUpdatePromote` keeps the queue valid in the same sense.
pub signal_direct_update_promote-IsValid :
    (skip_prefix : Bool) (q : PromoteQueue) (dt_id : ℕ) (key : List ℕ)
    (bf pid slot_id value_length : ℕ)
    → IsValid q
    → IsValid (signal_direct_update_promote skip_prefix q dt_id key bf pid slot_id value_length).1
unfolding signal_direct_update_promote
signal_direct_update_promote-IsValid skip_prefix q dt_id key bf pid slot_id value_length valid =
    let k = build_prefixed_key skip_prefix dt_id key in
    elim (Bool-cases
      (leb promote_queue_depth_soft_limit (length q.promote_request_message_queue))) [
        | inl full ↦ rw (full, signal_direct_update_promote) valid
        | inr room ↦ elim (Bool-cases (has_key q.inflight_promote_keys k)) [
          | inl inflight ↦ rw (room, inflight, signal_direct_update_promote) valid
          | inr fresh ↦
              rw (room, fresh, signal_direct_update_promote)
                (enqueue-IsValid q (promote_request k bf pid slot_id value_length true true)
                  (not-leb→lt promote_queue_depth_soft_limit
                    (length q.promote_request_message_queue) room)
                  fresh valid)
        ]
      ]
