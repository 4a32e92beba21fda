-- ===== src/Cache/Table/Promote/Lifecycle.antt =====
-- The queue of promote requests over the calls of the workers and of the promote threads, of which
-- there may be several: a request stays in process between its taking and its end, while the others go on.
use re_mlcxl.Base.{
  Sure, ◌⊎◌, ℕ, ◌+◌, ◌≤◌, ◌<◌, ◌≡◌, refl, sym, ap, ◌∙◌, inl, inr, subst, arith, not-leb→lt,
  Bool-cases, length-append, Bool, true, false, List, [], ◌∷◌, ◌++◌, some, length, leb,
  if◌then◌else◌,
}
use re_mlcxl.Cache.Table.{same_key, build_prefixed_key}
use re_mlcxl.Cache.Table.Promote.{
  PromoteRequestMessage, promote_queue_depth_soft_limit, PromoteQueue, has_key, erase_key,
  promote_request, signal_promote_thread, signal_direct_update_promote, take_request,
  finish_request,
}
use re_mlcxl.Cache.Table.Promote.InFlight.{queued, queued-append, same_key-eq, has_key-erase_key}

-- The queue, and the requests that the promote threads process.
pub record Promoting : Type 0 where
  pub queue : PromoteQueue
  pub processed : List PromoteRequestMessage

-- Calls that hold `promote_request_queue_mutex`. Any of the processed requests ends.
pub data Call (skip_prefix : Bool) (s : Promoting) : Promoting → Type 0 where
  signal :
      (dt_id : ℕ) (key : List ℕ) (bf pid slot_id value_length : ℕ) (is_urgent : Bool)
      → Call skip_prefix s (record s {
        queue =
            (signal_promote_thread skip_prefix s.queue dt_id key bf pid slot_id value_length
              is_urgent).1;
      })
  direct_update :
      (dt_id : ℕ) (key : List ℕ) (bf pid slot_id value_length : ℕ)
      → Call skip_prefix s (record s {
        queue =
            (signal_direct_update_promote skip_prefix s.queue dt_id key bf pid slot_id
              value_length).1;
      })
  take :
      (request : PromoteRequestMessage) (q : PromoteQueue)
      → take_request s.queue ≡ some (request, q)
      → Call skip_prefix s (record { queue = q; processed = request ∷ s.processed })
  finish :
      (before after : List PromoteRequestMessage) (request : PromoteRequestMessage)
      → s.processed ≡ before ++ (request ∷ after)
      → Call skip_prefix s
          (record { queue = finish_request s.queue request; processed = before ++ after })

pub data Calls (skip_prefix : Bool) (s : Promoting) : Promoting → Type 0 where
  here : Calls skip_prefix s s
  next : {t u : Promoting} → Calls skip_prefix s t → Call skip_prefix t u → Calls skip_prefix s u

abbrev flag : Bool → ℕ
flag b = if b then 1 else 0

-- The queue is bounded, and a key is in flight exactly when one request for it is queued or in process.
pub record IsExact (s : Promoting) : Type 0 where
  pub bounded : length s.queue.promote_request_message_queue ≤ promote_queue_depth_soft_limit
  pub counted :
      (key : List ℕ)
      → queued s.queue.promote_request_message_queue key + queued s.processed key
        ≡ (if has_key s.queue.inflight_promote_keys key then 1 else 0)

enqueue-IsExact :
    (q : PromoteQueue) (processed : List PromoteRequestMessage) (m : PromoteRequestMessage)
    → length q.promote_request_message_queue < promote_queue_depth_soft_limit
    → has_key q.inflight_promote_keys m.key ≡ false
    → IsExact (record { queue = q; processed = processed })
    → IsExact (record {
      queue = record q {
        inflight_promote_keys = m.key ∷ q.inflight_promote_keys;
        promote_request_message_queue = q.promote_request_message_queue ++ (m ∷ []);
      };
      processed = processed;
    })
unfolding has_key
enqueue-IsExact q processed m room fresh exact = record {
  bounded = omega (arith, length-append q.promote_request_message_queue (m ∷ []));
  counted = λ key.
      let old = exact.counted key in
      elim (Bool-cases (same_key m.key key)) [
        | inl same ↦
            let e = same_key-eq m.key key same in
            let none_before : queued q.promote_request_message_queue key + queued processed key
                ≡ 0 =
              old ∙ ap flag (subst (λ k. has_key q.inflight_promote_keys k ≡ false) e fresh) in
            rw (queued-append q.promote_request_message_queue m key, same)
              (omega (arith, none_before))
        | inr differ ↦
            rw (queued-append q.promote_request_message_queue m key, differ) (omega (arith, old))
      ];
}

queued_middle :
    (before after : List PromoteRequestMessage) (m : PromoteRequestMessage) (key : List ℕ)
    → queued (before ++ (m ∷ after)) key ≡ queued (before ++ after) key + flag (same_key m.key key)
unfolding queued
queued_middle [] after m key = elim (Bool-cases (same_key m.key key)) [
  | inl same ↦ rw same (omega arith)
  | inr differ ↦ rw differ (omega arith)
]
queued_middle (x ∷ before) after m key =
    let ih = queued_middle before after m key in
    elim (Bool-cases (same_key x.key key)) [
      | inl same ↦ rw same (omega (arith, ih))
      | inr differ ↦ rw differ ih
    ]

has_key-erase_self :
    (keys : List (List ℕ)) (key : List ℕ) → has_key (erase_key keys key) key ≡ false
unfolding has_key erase_key
has_key-erase_self [] key = refl
has_key-erase_self (k ∷ keys) key =
    let ih = has_key-erase_self keys key in
    elim (Bool-cases (same_key k key)) [
      | inl same ↦ rw same ih
      | inr differ ↦ rw (differ, differ) ih
    ]

signal-IsExact :
    (skip_prefix : Bool) (s : Promoting) (dt_id : ℕ) (key : List ℕ)
    (bf pid slot_id value_length : ℕ) (is_urgent : Bool)
    → IsExact s
    → IsExact (record s {
      queue =
          (signal_promote_thread skip_prefix s.queue dt_id key bf pid slot_id value_length
            is_urgent).1;
    })
unfolding signal_promote_thread
signal-IsExact skip_prefix s dt_id key bf pid slot_id value_length is_urgent exact =
    let q = s.queue in
    let k = build_prefixed_key skip_prefix dt_id key in
    elim (Bool-cases
      (leb promote_queue_depth_soft_limit (length q.promote_request_message_queue))) [
        | inl full ↦
            rw (full, signal_promote_thread)
              (record { bounded = exact.bounded; counted = exact.counted })
        | inr room ↦ elim (Bool-cases (has_key q.inflight_promote_keys k)) [
          | inl inflight ↦
              rw (room, inflight, signal_promote_thread)
                (record { bounded = exact.bounded; counted = exact.counted })
          | inr fresh ↦
              rw (room, fresh, signal_promote_thread)
                (enqueue-IsExact q s.processed
                  (promote_request k bf pid slot_id value_length is_urgent false)
                  (not-leb→lt promote_queue_depth_soft_limit
                    (length q.promote_request_message_queue) room)
                  fresh exact)
        ]
      ]

direct_update-IsExact :
    (skip_prefix : Bool) (s : Promoting) (dt_id : ℕ) (key : List ℕ)
    (bf pid slot_id value_length : ℕ)
    → IsExact s
    → IsExact (record s {
      queue =
          (signal_direct_update_promote skip_prefix s.queue dt_id key bf pid slot_id
            value_length).1;
    })
unfolding signal_direct_update_promote
direct_update-IsExact skip_prefix s dt_id key bf pid slot_id value_length exact =
    let q = s.queue in
    let k = build_prefixed_key skip_prefix dt_id key in
    elim (Bool-cases
      (leb promote_queue_depth_soft_limit (length q.promote_request_message_queue))) [
        | inl full ↦
            rw (full, signal_direct_update_promote)
              (record { bounded = exact.bounded; counted = exact.counted })
        | inr room ↦ elim (Bool-cases (has_key q.inflight_promote_keys k)) [
          | inl inflight ↦
              rw (room, inflight, signal_direct_update_promote)
                (record { bounded = exact.bounded; counted = exact.counted })
          | inr fresh ↦
              let added =
                enqueue-IsExact q s.processed
                  (promote_request k bf pid slot_id value_length true true)
                  (not-leb→lt promote_queue_depth_soft_limit
                    (length q.promote_request_message_queue) room)
                  fresh exact in
              rw (room, fresh, signal_direct_update_promote)
                (record { bounded = added.bounded; counted = added.counted })
        ]
      ]

flag-le : (b : Bool) → flag b ≤ 1
flag-le true = omega arith
flag-le false = omega arith

messages_cases :
    (ms : List PromoteRequestMessage)
    → (ms ≡ [])
      ⊎ ((m : PromoteRequestMessage) × (rest : List PromoteRequestMessage) × (ms ≡ m ∷ rest))
messages_cases [] = inl refl
messages_cases (m ∷ rest) = inr (m, rest, refl)

take-IsExact :
    (s : Promoting)
    → IsExact s
    → Sure
        (λ r. IsExact (record { queue = r.1; processed = r.0 ∷ s.processed }))
        (take_request s.queue)
unfolding take_request queued
take-IsExact s exact = elim (messages_cases s.queue.promote_request_message_queue) [
  | inl empty ↦ rw (take_request, empty) tt
  | inr (m, rest, front) ↦
      rw (take_request, front)
        (record {
          bounded =
              let len = ap length front in let room = exact.bounded in omega (arith, room, len);
          counted = λ key.
              let old =
                ap (λ l. queued l key + queued s.processed key) (sym front) ∙ exact.counted key in
              moved m rest key (Bool-cases (same_key m.key key)) old;
        })
]
  where
    moved :
        (m : PromoteRequestMessage) (rest : List PromoteRequestMessage) (key : List ℕ)
        → (same_key m.key key ≡ true) ⊎ (same_key m.key key ≡ false)
        → queued (m ∷ rest) key + queued s.processed key
          ≡ (if has_key s.queue.inflight_promote_keys key then 1 else 0)
        → queued rest key + queued (m ∷ s.processed) key
          ≡ (if has_key s.queue.inflight_promote_keys key then 1 else 0)
    moved m rest key (inl same) old = rw same (omega (arith, rw same at old))
    moved m rest key (inr differ) old = rw differ (rw differ at old)

finish-IsExact :
    (s : Promoting) (before after : List PromoteRequestMessage) (request : PromoteRequestMessage)
    → s.processed ≡ before ++ (request ∷ after)
    → IsExact s
    → IsExact (record { queue = finish_request s.queue request; processed = before ++ after })
unfolding finish_request
finish-IsExact s before after request split exact = record {
  bounded = exact.bounded;
  counted = λ key.
      let old = exact.counted key in
      let ms = s.queue.promote_request_message_queue in
      let keys = s.queue.inflight_promote_keys in
      let parts = ap (λ l. queued l key) split ∙ queued_middle before after request key in
      elim (Bool-cases (same_key request.key key)) [
        | inr differ ↦
            rw (has_key-erase_key keys request.key key differ)
              (omega (arith, old, parts, ap flag differ))
        | inl same ↦
            let e = same_key-eq request.key key same in
            let gone =
              subst (λ k. has_key (erase_key keys request.key) k ≡ false) e
                (has_key-erase_self keys request.key) in
            rw gone (omega (arith, old, parts, ap flag same, flag-le (has_key keys key)))
      ];
}

Call-IsExact : (skip_prefix : Bool) {s t : Promoting} → Call skip_prefix s t → IsExact s → IsExact t
Call-IsExact skip_prefix (signal dt_id key bf pid slot_id value_length is_urgent) exact =
    signal-IsExact skip_prefix _ dt_id key bf pid slot_id value_length is_urgent exact
Call-IsExact skip_prefix (direct_update dt_id key bf pid slot_id value_length) exact =
    direct_update-IsExact skip_prefix _ dt_id key bf pid slot_id value_length exact
Call-IsExact skip_prefix {s} (take request q e) exact =
    subst (Sure (λ r. IsExact (record { queue = r.1; processed = r.0 ∷ s.processed }))) e
      (take-IsExact s exact)
Call-IsExact skip_prefix (finish before after request split) exact =
    finish-IsExact _ before after request split exact

-- From a state in which the queue is within its limit, and a key is in flight exactly when one request
-- for it is queued or in process, every sequence of signals, takings and ends of requests, in whatever
-- order and with several requests in process, leads to such a state. So no key is queued or processed
-- twice at a time, and none stays in flight when its request has ended.
pub Calls-IsExact :
    (skip_prefix : Bool) {s t : Promoting} → IsExact s → Calls skip_prefix s t → IsExact t
Calls-IsExact skip_prefix exact here = exact
Calls-IsExact skip_prefix exact (next calls call) =
    Call-IsExact skip_prefix call (Calls-IsExact skip_prefix exact calls)
