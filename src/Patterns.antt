-- ===== src/Patterns.antt =====
-- src/rsb/patterns: calls of methods of remote and local servers by requests and replies.
pub mod Calls
pub mod Local
pub mod Methods
pub mod Settling
pub mod Futures
pub mod Correlation
pub mod RequestReply
pub mod Interleaving
pub mod Callbacks
pub mod Completion
pub mod Examples
