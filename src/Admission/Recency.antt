-- ===== src/Admission/Recency.antt =====
-- TwoLevelAdmissionControl.hpp: the list of recent pages with its index, which the modes `lru` and
-- `page_only` each have one of. A node of the `std::list` has an id, which is what an iterator holds; a
-- new node gets the next id. The index is an association list from pages to ids.
pub mod Nodes
pub mod Refine
pub mod Drain
mod Tests
use re_mlcxl.Base.{
  ℕ, zero, suc, ◌+◌, Bool, true, false, List, [], ◌∷◌, Option, none, some, ◌==◌, if◌then◌else◌,
}
use re_mlcxl.Admission.Candidates.Check.{PromotionDecision}

-- `LRUCandidate`.
pub record LruCandidate : Type 0 where
  pub page_id : ℕ
  pub cxl_bf : ℕ

pub record RecencyList : Type 0 where
  pub candidates : List (ℕ × LruCandidate)
  pub index : List (ℕ × ℕ)
  pub next_node : ℕ

abbrev pub new_recency_list : RecencyList
new_recency_list = record { candidates = []; index = []; next_node = 0 }

-- `lru_index.find`, `lru_index.erase` and the insertion of a page that the index does not have.
unfoldable pub lookup : List (ℕ × ℕ) → ℕ → Option ℕ
lookup [] page_id = none
lookup ((k, it) ∷ rest) page_id =
    let later = lookup rest page_id in if k == page_id then some it else later

unfoldable pub erase_index : List (ℕ × ℕ) → ℕ → List (ℕ × ℕ)
erase_index [] page_id = []
erase_index ((k, it) ∷ rest) page_id =
    let later = erase_index rest page_id in if k == page_id then later else (k, it) ∷ later

-- The node of an iterator.
unfoldable pub node_at : List (ℕ × LruCandidate) → ℕ → Option LruCandidate
node_at [] it = none
node_at ((i, c) ∷ rest) it = let later = node_at rest it in if i == it then some c else later

unfoldable pub detach : List (ℕ × LruCandidate) → ℕ → List (ℕ × LruCandidate)
detach [] it = []
detach ((i, c) ∷ rest) it = let later = detach rest it in if i == it then rest else (i, c) ∷ later

-- `it->second->cxl_bf = cxl_bf`.
unfoldable pub set_frame : List (ℕ × LruCandidate) → ℕ → ℕ → List (ℕ × LruCandidate)
set_frame [] it cxl_bf = []
set_frame ((i, c) ∷ rest) it cxl_bf =
    let later = set_frame rest it cxl_bf in
    if i == it then (i, record c { cxl_bf = cxl_bf }) ∷ rest else (i, c) ∷ later

-- `splice` of a node of the list to its beginning; an iterator of no node does nothing.
unfoldable pub splice_to_front : List (ℕ × LruCandidate) → ℕ → List (ℕ × LruCandidate)
unfolding node_at detach
splice_to_front nodes it = elim (node_at nodes it) [
  | none ↦ nodes
  | some c ↦ (it, c) ∷ detach nodes it
]

-- The branch of a mode: an access to a page.
unfoldable pub touch : RecencyList → ℕ → ℕ → RecencyList
unfolding lookup set_frame splice_to_front
touch l page_id cxl_bf = elim (lookup l.index page_id) [
  | some it ↦ record l { candidates = splice_to_front (set_frame l.candidates it cxl_bf) it }
  | none ↦ record {
    candidates = (l.next_node, record { page_id = page_id; cxl_bf = cxl_bf }) ∷ l.candidates;
    index = (page_id, l.next_node) ∷ l.index;
    next_node = l.next_node + 1;
  }
]

abbrev pub full_page : LruCandidate → PromotionDecision
full_page c = record {
  page_id = c.page_id;
  cxl_bf = c.cxl_bf;
  promote_entire_page = true;
  hot_slot_ids = [];
  is_urgent = false;
}

-- The loop of `BackgroundRoutine`: it takes at most `batch` pages from the front.
unfoldable pub drain :
    ℕ → List (ℕ × LruCandidate) → List (ℕ × ℕ) → ℕ → List PromotionDecision × RecencyList
unfolding erase_index
drain zero nodes index next = ([], record { candidates = nodes; index = index; next_node = next })
drain (suc batch) [] index next = ([], record { candidates = []; index = index; next_node = next })
drain (suc batch) ((i, c) ∷ nodes) index next =
    let later = drain batch nodes (erase_index index c.page_id) next in
    (full_page c ∷ later.0, later.1)

unfoldable pub promote_batch : ℕ → RecencyList → List PromotionDecision × RecencyList
unfolding drain
promote_batch batch l = drain batch l.candidates l.index l.next_node
