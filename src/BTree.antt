-- ===== src/BTree.antt =====
-- The B-tree's nodes: backend/leanstore/storage/btree/core/BTreeNode.hpp and BTreeNode.cpp.
pub mod Keys
pub mod Node
