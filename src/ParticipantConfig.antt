-- ===== src/ParticipantConfig.antt =====
-- src/rsb/ParticipantConfig.cpp and src/rsb/QualityOfServiceSpec.cpp: the configuration of a
-- participant, and the options from files and the environment that are applied to it.
mod Library
mod Transports
mod Defs
pub mod Errors
mod Examples
pub mod Frame
pub mod Undefined
pub use Library.*
unfoldable pub use Transports.*
unfoldable pub use Defs.*
