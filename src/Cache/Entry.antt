-- ===== src/Cache/Entry.antt =====
-- RecordCacheEntry.hpp: the header of a cached record and its state machine.
use re_mlcxl.Base.{ℕ, Bool, true, false}

pub data RecordCacheType : Type 0 where
  read_only_mode : RecordCacheType
  write_through_mode : RecordCacheType
  write_back_mode : RecordCacheType
  logically_deleted_but_still_in_hash_table : RecordCacheType
  removed_from_hash_table_but_wait_for_physical_memory_deallocation : RecordCacheType
  promote_thread_holding_the_position : RecordCacheType

-- The value of the enumerator.
abbrev pub code : RecordCacheType → ℕ
code read_only_mode = 0
code write_through_mode = 1
code write_back_mode = 2
code logically_deleted_but_still_in_hash_table = 3
code removed_from_hash_table_but_wait_for_physical_memory_deallocation = 4
code promote_thread_holding_the_position = 7

abbrev pub is_read_only : RecordCacheType → Bool
is_read_only read_only_mode = true
is_read_only _ = false

abbrev pub is_logically_deleted : RecordCacheType → Bool
is_logically_deleted logically_deleted_but_still_in_hash_table = true
is_logically_deleted _ = false

abbrev pub is_removed : RecordCacheType → Bool
is_removed removed_from_hash_table_but_wait_for_physical_memory_deallocation = true
is_removed _ = false

abbrev pub is_placeholder : RecordCacheType → Bool
is_placeholder promote_thread_holding_the_position = true
is_placeholder _ = false
