-- ===== src/Conversation.antt =====
-- A whole exchange with a server that keeps the protocol: what is sent, printed and stored.
pub mod Frames
pub mod Hello
pub mod Local
pub mod Upload
pub mod Offset
pub mod Put
pub mod List
pub mod Search
pub mod Download
pub mod Publishing
pub mod Saving
pub mod Finish
pub mod Asked
pub mod Get
pub mod Fresh
pub mod Errors
pub mod AnySearch
pub mod Mismatch
pub mod Rejected
pub mod Refused
