-- ===== src/Cache/Table/Promote.antt =====
-- RecordCache.hpp and Promote/PromoteThread.cpp: the queue of promote requests.
pub mod InFlight
pub mod Lifecycle
use re_mlcxl.Base.{
  ℕ, suc, ◌+◌, ◌%◌, ◌≤◌, ◌<◌, ◌≡◌, refl, inl, inr, subst, arith, ◌==◌, ==→eq, ==-refl, not-leb→lt,
  Bool-cases, length-append, Bool, true, false, ◌&&◌, List, [], ◌∷◌, ◌++◌, Option, none, some,
  length, leb, if◌then◌else◌,
}
use re_mlcxl.Cache.Table.{same_key, build_prefixed_key}

pub record PromoteRequestMessage : Type 0 where
  pub key : List ℕ
  pub bf : ℕ
  pub pid : ℕ
  pub slot_id : ℕ
  pub key_length : ℕ
  pub value_length : ℕ
  pub is_urgent : Bool
  pub is_direct_update : Bool

abbrev pub promote_queue_depth_soft_limit : ℕ
promote_queue_depth_soft_limit = 65536

-- The queue, the keys in flight and the counters under `promote_request_queue_mutex`.
pub record PromoteQueue : Type 0 where
  pub promote_request_message_queue : List PromoteRequestMessage
  pub inflight_promote_keys : List (List ℕ)
  pub promote_enqueue_skipped_queue_full : ℕ
  pub promote_enqueue_skipped_inflight : ℕ
  pub direct_update_skipped_queue_full : ℕ
  pub direct_update_skipped_inflight : ℕ
  pub direct_update_enqueued : ℕ

-- `inflight_promote_keys` holds the key.
unfoldable pub has_key : List (List ℕ) → List ℕ → Bool
has_key [] key = false
has_key (k ∷ keys) key = let rest = has_key keys key in if same_key k key then true else rest

-- `inflight_promote_keys.erase`.
unfoldable pub erase_key : List (List ℕ) → List ℕ → List (List ℕ)
erase_key [] key = []
erase_key (k ∷ keys) key =
    let rest = erase_key keys key in if same_key k key then rest else k ∷ rest

-- The message that the two signals build.
abbrev pub promote_request : List ℕ → ℕ → ℕ → ℕ → ℕ → Bool → Bool → PromoteRequestMessage
promote_request prefixed_key bf pid slot_id value_length is_urgent is_direct_update = record {
  key = prefixed_key;
  bf = bf;
  pid = pid;
  slot_id = slot_id;
  key_length = length prefixed_key % 65536;
  value_length = value_length;
  is_urgent = is_urgent;
  is_direct_update = is_direct_update;
}

-- `signalPromoteThread`; the first argument is `FLAGS_rc_skip_dt_id_prefix`.
unfoldable pub signal_promote_thread :
    Bool → PromoteQueue → ℕ → List ℕ → ℕ → ℕ → ℕ → ℕ → Bool → Bool × PromoteQueue
unfolding has_key build_prefixed_key
signal_promote_thread skip_prefix q dt_id key bf pid slot_id value_length is_urgent =
    let prefixed_key = build_prefixed_key skip_prefix dt_id key in
    if leb promote_queue_depth_soft_limit (length q.promote_request_message_queue)
    then (
      false,
      record q { promote_enqueue_skipped_queue_full = q.promote_enqueue_skipped_queue_full + 1 },
    )
    else if has_key q.inflight_promote_keys prefixed_key
    then (
      false,
      record q { promote_enqueue_skipped_inflight = q.promote_enqueue_skipped_inflight + 1 },
    )
    else (
      true,
      record q {
        inflight_promote_keys = prefixed_key ∷ q.inflight_promote_keys;
        promote_request_message_queue =
            q.promote_request_message_queue
            ++ (promote_request prefixed_key bf pid slot_id value_length is_urgent false ∷ []);
      },
    )

-- `signalDirectUpdatePromote`.
unfoldable pub signal_direct_update_promote :
    Bool → PromoteQueue → ℕ → List ℕ → ℕ → ℕ → ℕ → ℕ → Bool × PromoteQueue
unfolding has_key build_prefixed_key
signal_direct_update_promote skip_prefix q dt_id key bf pid slot_id value_length =
    let prefixed_key = build_prefixed_key skip_prefix dt_id key in
    if leb promote_queue_depth_soft_limit (length q.promote_request_message_queue)
    then (
      false,
      record q {
        promote_enqueue_skipped_queue_full = q.promote_enqueue_skipped_queue_full + 1;
        direct_update_skipped_queue_full = q.direct_update_skipped_queue_full + 1;
      },
    )
    else if has_key q.inflight_promote_keys prefixed_key
    then (
      false,
      record q {
        promote_enqueue_skipped_inflight = q.promote_enqueue_skipped_inflight + 1;
        direct_update_skipped_inflight = q.direct_update_skipped_inflight + 1;
      },
    )
    else (
      true,
      record q {
        inflight_promote_keys = prefixed_key ∷ q.inflight_promote_keys;
        promote_request_message_queue =
            q.promote_request_message_queue
            ++ (promote_request prefixed_key bf pid slot_id value_length true true ∷ []);
        direct_update_enqueued = q.direct_update_enqueued + 1;
      },
    )

-- `promoteThread`: the request at the front is taken.
unfoldable pub take_request : PromoteQueue → Option (PromoteRequestMessage × PromoteQueue)
take_request q = elim q.promote_request_message_queue [
  | [] ↦ none
  | request ∷ rest ↦ some (request, record q { promote_request_message_queue = rest })
]

-- `promoteThread`: the key of the processed request is no longer in flight.
unfoldable pub finish_request : PromoteQueue → PromoteRequestMessage → PromoteQueue
unfolding erase_key
finish_request q request = record q {
  inflight_promote_keys = erase_key q.inflight_promote_keys request.key;
}
