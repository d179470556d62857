-- ===== src/Transfer.antt =====
-- c/transfer.c: partial files, GET and PUT.
pub mod Path
pub mod Partial
pub mod Get
pub mod Put
pub mod Tracked
pub mod GetTracked
pub mod PutTracked
pub mod Requests
pub mod Token
pub mod Resuming
