-- ===== src/Participation.antt =====
-- The ends of the bus: src/rsb/Informer.cpp, which publishes events, and the filters and handlers of
-- src/rsb/filter and src/rsb/eventprocessing/DirectEventReceivingStrategy.cpp, which receive them.
pub mod Filters
pub mod Receiving
pub mod Informer
pub mod EndToEnd
mod Examples
