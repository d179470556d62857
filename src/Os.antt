-- ===== src/Os.antt =====
-- What the client meets outside its own code: the connection, the files, memory, and its output.
pub mod World
pub mod Program
pub mod Steps
pub mod Triples
pub mod Heap
pub mod Files
pub mod Lookup
pub mod Paths
pub mod Tracking
pub mod Resources
pub mod Untouched
pub mod Calm
