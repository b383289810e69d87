-- ===== src/Crt.antt =====
-- crt/: the runtime helpers that the kernel modules and the tools share.
pub mod Hex
pub mod NetPkt
pub mod ObjId
pub mod Random
mod Tests
