-- ===== src/Algebra.antt =====
-- The linear algebra that the matrices and the coder rest on, over any field of characteristic two.
pub mod Field
pub mod Sum
pub mod Kernel
pub mod Inverse
pub mod Roots
