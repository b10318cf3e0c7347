-- ===== src/Creator.antt =====
-- The planning that comes before any recovery data is computed: src/par2creator.cpp and
-- `ComputeRecoveryFileCount` of src/libpar2.cpp.
pub mod FileCount
pub mod RecoveryCount
pub mod BlockSize
pub mod Allocation
pub mod Sizes
pub mod Chunks
