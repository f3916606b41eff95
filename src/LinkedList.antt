-- ===== src/LinkedList.antt =====
-- gps/utils/linked_list.c: a doubly linked list of data pointers over an explicit heap. An item is
-- added at the head and removed at the tail.
pub mod Memory
pub mod Ops
pub mod Spec
pub mod Chains
pub mod Outcome
pub mod Add
pub mod Remove
pub mod Flush
pub mod Unlink
pub mod Search
