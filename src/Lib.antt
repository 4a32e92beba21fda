-- ===== src/Lib.antt =====
-- ReMLCXL: the admission of pages and records to DRAM, the record cache, and the B-tree's nodes, of a
-- LeanStore on CXL memory. Paths are below backend/leanstore/storage.
--
-- Parts:
--   * Admission, two-level-admission-control: a worker's page access updates the count-min sketch
--     (CountMinSketch.hpp: Admission/Sketch, `CMSUpdate` as `cms_update`) and the sampling set
--     (DepulicateSetForPageSampling.hpp: Admission/SampleSet). From the sampled counts the
--     background thread builds the buckets (VisitCountBucket.hpp: Admission/Buckets) and two
--     thresholds (SampledVisitHistogram.hpp: Admission/Histogram), which decide on admission.
--     Admitted pages become candidates with bitmaps of slots (SkewRecordAdmission.hpp and .cpp:
--     Admission/Candidates), of which `CheckAndPromote` promotes records or whole pages
--     (Admission/Candidates/Check). TwoLevelAdmissionControl.hpp composes the parts
--     (Admission/Control); its modes `lru` and `page_only` use a recency list (Admission/Recency).
--   * Cache/Table, record-cache/RecordCache.hpp and RecordCache.cpp: the hash table of per-key
--     chains, lookups, updates, and Forward_epoch/ForwardEpochThread.cpp, which unlinks updated
--     entries; Cache/Table/Chains says when the chains are well-formed. Cache/Table/Promote has the
--     queue of promote requests, with the calls on it as a step relation in its child Lifecycle;
--     Cache/Promotion the locked phases of Promote/PromoteThread.cpp, and Cache/Entry the types of
--     an entry (RecordCacheEntry.hpp).
--   * Cache/Epoch, record-cache/Forward_epoch/EpochManager.hpp: the epochs that the unlinking waits
--     for, with each atomic access as a step of a thread.
--   * Cache/Sieve, record-cache/SIEVE_eviction/SieveFIFO.hpp: the queue that chooses victims;
--     Cache/Evict, SIEVEEvictionThread.cpp: what becomes of a victim.
--   * Cache/Slab, record-cache/RecordCacheSlabAllocator.hpp: the blocks of the entries, and what a
--     rescue unlinks (Cache/Rescue, RecordCache.cpp).
--   * BTree, btree/core/BTreeNode.hpp and BTreeNode.cpp: the order of keys and their heads
--     (BTree/Keys), and the slots of a node with the search and the removal (BTree/Node).
--
-- Base has the shared names, Boolean tests, lists and 64-bit words; the modules called Tests apply
-- the theorems to concrete inputs. State is a record, an operation a function from the old state to
-- the new one, a fault or a null result `none`. u64 counters that the theorems read wrap around;
-- diagnostic counters do not.
--
-- Bounds: the loop of `evictOneFromSieveFIFO` runs for twice the queue's length, as in the source;
-- the search in a node has the number of slots as its fuel, and halves a shorter interval. No other
-- loop needs fuel. The buckets are 1 to 63, since the source shifts 1 by the number of buckets.
--
-- Not modelled: the dynamic ceiling of the page visits and the sizing of the sketches, which are in
-- doubles; a promotion's allocation and its optimistic read of the page; threads' start and stop;
-- insertion into a B-tree node, its space and its splits, and the trees above the nodes; the buffer
-- manager, logging, profiling and the frontends; printing and sleeping. `std::hash`, the products
-- with ratios in doubles, the seeds, the DRAM ratio and `isVisibleForMe` are arguments. The source's
-- assertions on its arguments are not modelled.
pub mod Base
pub mod Admission
pub mod Cache
pub mod BTree
