-- ===== src/PvcCopy.antt =====
-- internal/pvccopy: the copy of a volume's file tree between two claims.
pub mod Plan
pub mod Archive
pub mod Controllers
pub mod Executor
pub mod Local
pub mod Fence
pub mod Quantity
