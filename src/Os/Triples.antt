-- ===== src/Os/Triples.antt =====
-- Contracts over the monad: what a call needs and what it leaves, where it returns, fails or waits.
mod Basic
mod Derived
pub use Basic.*
pub use Derived.*
