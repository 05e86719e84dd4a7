-- ===== src/Utils.antt =====
-- utils.cpp and utils.h.
pub mod Half
pub mod Sizes
pub mod Pools
