-- ===== src/LocHeap.antt =====
-- gps/utils/LocHeap.cpp: a heap of rankable objects as a tree of nodes that carry their sizes.
pub mod Node
pub mod Order
pub mod Push
pub mod Pop
pub mod Remove
pub mod Bag
pub mod Balance
