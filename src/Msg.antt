-- ===== src/Msg.antt =====
-- subsys/msg: the aggregation of data into messages, and the kernel objects that it uses.
pub mod Mask
pub mod Kernel
pub mod Aggregation
pub mod Typed
mod Tests
