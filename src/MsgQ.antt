-- ===== src/MsgQ.antt =====
-- gps/utils/msg_q.c: a message queue between threads, over the list of gps/utils/linked_list.c.
pub mod Ops
pub mod Spec
pub mod Init
pub mod Send
pub mod Receive
pub mod Wait
pub mod Fifo
