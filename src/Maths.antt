-- ===== src/Maths.antt =====
-- The numbers of a17/maths: angles, comparisons of `float`s, polynomials and small matrices, over any
-- type of `double`.
pub mod Exact
pub mod Sums
pub mod Floats
pub mod Angles
pub mod Roots
pub mod Whole
pub mod Polynomial
pub mod Matrices
pub mod Quaternions
pub mod CrossProduct
