-- ===== src/Cache/Slab.antt =====
-- RecordCacheSlabAllocator.hpp. Addresses are numbers; a free list and its tail pointer are the list
-- of its blocks, the head first, and an array is a function of the index. A call of `do_allocate` or
-- `do_deallocate` runs under the mutex of its class, and is one step here. The diagnostic output is
-- left out.
pub mod Carve
pub mod Balance
use re_mlcxl.Base.{
  ℕ, zero, suc, ◌+◌, ◌-◌, ◌*◌, ◌/◌, Bool, true, false, ◌&&◌, ◌||◌, not, List, [], ◌∷◌, ◌++◌, Option,
  none, some, length, add64, sub64, ltb, leb, ◌==◌, if◌then◌else◌,
}

abbrev pub huge_page_size : ℕ
huge_page_size = 2097152

abbrev pub block_step : ℕ
block_step = 8

abbrev pub min_block_size : ℕ
min_block_size = 24

abbrev pub max_block_size : ℕ
max_block_size = 16384

abbrev pub num_classes : ℕ
num_classes = 2046

-- `drain_target_idx` is `none` for `SIZE_MAX`.
pub record SlabSizeClass : Type 0 where
  pub free_list : List ℕ
  pub block_size : ℕ
  pub slab_count : ℕ
  pub drain_target_idx : Option ℕ

pub record SlabMetadata : Type 0 where
  pub live_count : ℕ
  pub block_size : ℕ
  pub total_blocks : ℕ
  pub is_drain_target : Bool

-- `free_slab_pool` has the back of the vector first. `rescue_callback` is an argument of
-- `do_allocate`.
pub record RecordCacheSlabAllocator : Type 0 where
  pub classes : ℕ → SlabSizeClass
  pub base_ptr : ℕ
  pub current_ptr : ℕ
  pub end_ptr : ℕ
  pub total_capacity : ℕ
  pub bytes_in_use : ℕ
  pub max_slab_count : ℕ
  pub slab_metadata : ℕ → SlabMetadata
  pub free_slab_pool : List ℕ
  pub reclaimed_slab_total : ℕ
  pub sunk_to_tail_total : ℕ
  pub drain_target_switch_total : ℕ
  pub rescue_attempted_total : ℕ
  pub rescue_succeeded_total : ℕ

-- The constructor; `none` for `std::invalid_argument`.
unfoldable pub new_slab_allocator : ℕ → ℕ → Option RecordCacheSlabAllocator
new_slab_allocator base_ptr total_size =
    if (base_ptr == 0) || ltb total_size huge_page_size
    then none
    else some (record {
      classes = λ i. record {
        free_list = [];
        block_size = min_block_size + i * block_step;
        slab_count = 0;
        drain_target_idx = none;
      };
      base_ptr = base_ptr;
      current_ptr = base_ptr;
      end_ptr = base_ptr + total_size;
      total_capacity = total_size;
      bytes_in_use = 0;
      max_slab_count = total_size / huge_page_size;
      slab_metadata =
          λ _. record { live_count = 0; block_size = 0; total_blocks = 0; is_drain_target = false };
      free_slab_pool = [];
      reclaimed_slab_total = 0;
      sunk_to_tail_total = 0;
      drain_target_switch_total = 0;
      rescue_attempted_total = 0;
      rescue_succeeded_total = 0;
    })

-- A write to one element of an array.
abbrev pub update_at {ℓ} : {A : Type ℓ} → (ℕ → A) → ℕ → (A → A) → ℕ → A
update_at array i f = λ j. if j == i then f (array j) else array j

abbrev pub update_class :
    RecordCacheSlabAllocator → ℕ → (SlabSizeClass → SlabSizeClass) → RecordCacheSlabAllocator
update_class a c f = record a { classes = update_at a.classes c f }

abbrev pub update_slab :
    RecordCacheSlabAllocator → ℕ → (SlabMetadata → SlabMetadata) → RecordCacheSlabAllocator
update_slab a i f = record a { slab_metadata = update_at a.slab_metadata i f }

-- `(ptr - base_ptr) / huge_page_size`.
abbrev pub slab_of : ℕ → ℕ → ℕ
slab_of base_ptr p = (p - base_ptr) / huge_page_size

-- `isSlabUnderUtilized`.
unfoldable pub is_slab_under_utilized : RecordCacheSlabAllocator → ℕ → Bool
is_slab_under_utilized a p =
    let idx = slab_of a.base_ptr p in
    if ltb p a.base_ptr || leb a.end_ptr p
    then false
    else if leb a.max_slab_count idx
    then false
    else (a.slab_metadata idx).is_drain_target

-- `hasFreeSlab`.
unfoldable pub has_free_slab : RecordCacheSlabAllocator → Bool
has_free_slab a = elim a.free_slab_pool [ [] ↦ false | _ ∷ _ ↦ true ]

-- `getUsageRatio() >= 0.50`: exact in doubles for a capacity below 2 ^ 52.
abbrev pub half_used : RecordCacheSlabAllocator → Bool
half_used a = if a.total_capacity == 0 then false else leb a.total_capacity (2 * a.bytes_in_use)

-- `align_up`; the mask clears the low three bits.
unfoldable pub align_up : ℕ → ℕ
align_up size =
    if leb size min_block_size
    then min_block_size
    else (size + block_step - 1) / block_step * block_step

-- `GetClassIndex`.
unfoldable pub get_class_index : ℕ → ℕ
unfolding align_up
get_class_index size = (align_up size - min_block_size) / block_step

-- The cut of a slab into n blocks.
unfoldable pub carve : ℕ → ℕ → ℕ → List ℕ
carve start block_size zero = []
carve start block_size (suc n) = start ∷ carve (start + block_size) block_size n

-- The slab for `allocate_slab_for_class`: the back of the pool, else a fresh one, else none.
unfoldable pub take_slab : RecordCacheSlabAllocator → Option (ℕ × RecordCacheSlabAllocator)
take_slab a = elim a.free_slab_pool [
  | slab_idx ∷ rest ↦ some (slab_idx, record a { free_slab_pool = rest })
  | [] ↦
      if ltb a.end_ptr (a.current_ptr + huge_page_size)
      then none
      else some (
        slab_of a.base_ptr a.current_ptr,
        record a { current_ptr = a.current_ptr + huge_page_size },
      )
]

-- The rest of `allocate_slab_for_class`, on the slab that was found.
unfoldable pub assign_slab : RecordCacheSlabAllocator → ℕ → ℕ → RecordCacheSlabAllocator
unfolding carve
assign_slab a c slab_idx =
    let block_size = (a.classes c).block_size in
    let num_of_that_blocks = huge_page_size / block_size in
    let marked = update_slab a slab_idx (λ m. record m {
      block_size = block_size;
      total_blocks = num_of_that_blocks;
      live_count = 0;
    }) in
    update_class marked c (λ k. record k {
      slab_count = k.slab_count + 1;
      free_list = carve (a.base_ptr + slab_idx * huge_page_size) block_size num_of_that_blocks;
    })

-- `allocate_slab_for_class`; `none` for false.
unfoldable pub allocate_slab_for_class :
    RecordCacheSlabAllocator → ℕ → Option RecordCacheSlabAllocator
unfolding take_slab assign_slab
allocate_slab_for_class a c = elim (take_slab a) [
  | none ↦ none
  | some found ↦ some (assign_slab found.1 c found.0)
]

-- The result of `do_allocate`: a block, what `new_delete_resource` returns, or `std::bad_alloc`.
pub data Allocation : Type 0 where
  block : ℕ → Allocation
  from_new_delete_resource : Allocation
  bad_alloc : Allocation

-- The end of `do_allocate`: the head of the free list is taken.
unfoldable pub pop_block : RecordCacheSlabAllocator → ℕ → Allocation × RecordCacheSlabAllocator
pop_block a c = elim (a.classes c).free_list [
  | [] ↦ (bad_alloc, a)
  | node ∷ next ↦
      let popped = update_class a c (λ k. record k { free_list = next }) in
      let counted =
        update_slab popped (slab_of a.base_ptr node)
          (λ m. record m { live_count = add64 m.live_count 1 }) in
      (block node, record counted { bytes_in_use = add64 a.bytes_in_use (a.classes c).block_size })
]

-- A free list or, if it is empty, a slab.
abbrev pub ensure_blocks : RecordCacheSlabAllocator → ℕ → Option RecordCacheSlabAllocator
ensure_blocks a c = elim (a.classes c).free_list [
  | _ ∷ _ ↦ some a
  | [] ↦ allocate_slab_for_class a c
]

-- The call of the rescue callback, with its counters. `none` stands for no callback.
unfoldable pub rescue :
    Option (RecordCacheSlabAllocator → Bool × RecordCacheSlabAllocator)
    → RecordCacheSlabAllocator
    → RecordCacheSlabAllocator
rescue none a = a
rescue (some callback) a =
    let called = callback (record a { rescue_attempted_total = a.rescue_attempted_total + 1 }) in
    if called.0
    then record called.1 { rescue_succeeded_total = called.1.rescue_succeeded_total + 1 }
    else called.1

-- `do_allocate`.
unfoldable pub do_allocate :
    Option (RecordCacheSlabAllocator → Bool × RecordCacheSlabAllocator)
    → RecordCacheSlabAllocator
    → ℕ
    → Allocation × RecordCacheSlabAllocator
unfolding get_class_index allocate_slab_for_class pop_block rescue
do_allocate rescue_callback a bytes =
    let c = get_class_index bytes in
    if ltb max_block_size bytes then (from_new_delete_resource, a) else elim (ensure_blocks a c) [
      | some ready ↦ pop_block ready c
      | none ↦
          let rescued = rescue rescue_callback a in
          elim (ensure_blocks rescued c) [
            | some ready ↦ pop_block ready c
            | none ↦ (bad_alloc, rescued)
          ]
    ]

-- `tryReclaimSlab`: what stays of a free list.
unfoldable pub keep_off_slab : ℕ → ℕ → List ℕ → List ℕ
keep_off_slab slab_begin slab_end [] = []
keep_off_slab slab_begin slab_end (cur ∷ next) =
    let kept = keep_off_slab slab_begin slab_end next in
    if leb slab_begin cur && ltb cur slab_end then kept else cur ∷ kept

abbrev pub is_target : Option ℕ → ℕ → Bool
is_target none slab_idx = false
is_target (some cur_target) slab_idx = cur_target == slab_idx

-- `tryReclaimSlab`.
unfoldable pub try_reclaim_slab : RecordCacheSlabAllocator → ℕ → ℕ → RecordCacheSlabAllocator
unfolding keep_off_slab
try_reclaim_slab a slab_idx c =
    let slab_begin = a.base_ptr + slab_idx * huge_page_size in
    let partitioned = update_class a c (λ k. record k {
      free_list = keep_off_slab slab_begin (slab_begin + huge_page_size) k.free_list;
      drain_target_idx = if is_target k.drain_target_idx slab_idx then none else k.drain_target_idx;
      slab_count = sub64 k.slab_count 1;
    }) in
    let unassigned =
      update_slab partitioned slab_idx
        (λ m. record m { block_size = 0; total_blocks = 0; is_drain_target = false }) in
    record unassigned {
      free_slab_pool = slab_idx ∷ a.free_slab_pool;
      reclaimed_slab_total = a.reclaimed_slab_total + 1;
    }

-- `do_deallocate`: whether the slab of the freed block becomes the drain target of its class.
abbrev pub becomes_target : RecordCacheSlabAllocator → Option ℕ → ℕ → ℕ → Bool
becomes_target a none slab_idx live_after = true
becomes_target a (some cur_target) slab_idx live_after =
    if cur_target == slab_idx then false else ltb live_after (a.slab_metadata cur_target).live_count

-- The old drain target's flag is cleared.
abbrev pub clear_target : RecordCacheSlabAllocator → Option ℕ → ℕ → RecordCacheSlabAllocator
clear_target a none slab_idx = a
clear_target a (some cur_target) slab_idx =
    if cur_target == slab_idx
    then a
    else update_slab a cur_target (λ m. record m { is_drain_target = false })

-- The choice of the drain target, and whether the block sinks to the tail.
unfoldable pub choose_target :
    RecordCacheSlabAllocator → ℕ → ℕ → ℕ → Bool × RecordCacheSlabAllocator
choose_target a c slab_idx live_after =
    let cur_target = (a.classes c).drain_target_idx in
    let switched =
      record (update_slab
        (update_class (clear_target a cur_target slab_idx) c
          (λ k. record k { drain_target_idx = some slab_idx }))
        slab_idx (λ m. record m { is_drain_target = true })) {
          drain_target_switch_total = a.drain_target_switch_total + 1;
        } in
    if ltb 0 live_after && half_used a
    then (if becomes_target a cur_target slab_idx live_after
        then (true, switched)
        else (is_target cur_target slab_idx, a))
    else (false, a)

-- The push of the freed block, to the tail or to the head.
unfoldable pub push_block : RecordCacheSlabAllocator → ℕ → ℕ → Bool → RecordCacheSlabAllocator
push_block a c node sink_to_tail =
    if sink_to_tail
    then record (update_class a c (λ k. record k { free_list = k.free_list ++ (node ∷ []) })) {
      sunk_to_tail_total = a.sunk_to_tail_total + 1;
    }
    else update_class a c (λ k. record k { free_list = node ∷ k.free_list })

-- `do_deallocate`; the null pointer is 0.
unfoldable pub do_deallocate : RecordCacheSlabAllocator → ℕ → ℕ → RecordCacheSlabAllocator
unfolding get_class_index choose_target push_block try_reclaim_slab
do_deallocate a p bytes =
    let c = get_class_index bytes in
    let slab_idx = slab_of a.base_ptr p in
    let prev_live = (a.slab_metadata slab_idx).live_count in
    let live_after = if ltb 0 prev_live then prev_live - 1 else 0 in
    let counted =
      record (update_slab a slab_idx (λ m. record m { live_count = sub64 m.live_count 1 })) {
        bytes_in_use = sub64 a.bytes_in_use (a.classes c).block_size;
      } in
    let chosen = choose_target counted c slab_idx live_after in
    let pushed = push_block chosen.1 c p chosen.0 in
    if (p == 0) || ltb max_block_size bytes
    then a
    else if prev_live == 1
    then try_reclaim_slab pushed slab_idx c
    else pushed

-- `SlabRescueCandidate`, without the constant `slab_bytes`.
pub record SlabRescueCandidate : Type 0 where
  pub slab_idx : ℕ
  pub slab_base : ℕ
  pub block_size : ℕ
  pub live_count : ℕ

-- The loop of `findRescueCandidates`, with n slabs to go.
unfoldable pub collect_candidates : RecordCacheSlabAllocator → ℕ → ℕ → List SlabRescueCandidate
collect_candidates a zero i = []
collect_candidates a (suc n) i =
    let m = a.slab_metadata i in
    let out = collect_candidates a n (i + 1) in
    if (m.block_size == 0) || (m.live_count == 0)
    then out
    else record {
      slab_idx = i;
      slab_base = a.base_ptr + i * huge_page_size;
      block_size = m.block_size;
      live_count = m.live_count;
    }
      ∷ out

-- `std::sort` by the live count (the order of equal counts is open in the source).
pub insert_candidate : SlabRescueCandidate → List SlabRescueCandidate → List SlabRescueCandidate
insert_candidate x [] = x ∷ []
insert_candidate x (y ∷ out) =
    let rest = insert_candidate x out in
    if leb x.live_count y.live_count then x ∷ y ∷ out else y ∷ rest

pub sort_candidates : List SlabRescueCandidate → List SlabRescueCandidate
sort_candidates [] = []
sort_candidates (x ∷ out) = insert_candidate x (sort_candidates out)

abbrev pub take {ℓ} : {A : Type ℓ} → ℕ → List A → List A
take zero xs = []
take (suc n) [] = []
take (suc n) (x ∷ xs) = x ∷ take n xs

-- `findRescueCandidates`.
unfoldable pub find_rescue_candidates : RecordCacheSlabAllocator → ℕ → List SlabRescueCandidate
unfolding collect_candidates
find_rescue_candidates a max_results =
    take max_results (sort_candidates (collect_candidates a a.max_slab_count 0))
