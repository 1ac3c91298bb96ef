-- ===== src/Drainer.antt =====
-- internal/kubernetes/drainer.go and failure_cause.go: evicting the pods of a node, cleaning up
-- their volumes, and the condition that a drain leaves on its node. Logs, traces and events are
-- left out.
pub mod Errors
pub mod Poll
pub mod Volumes
pub mod Sequence
pub mod Endpoint
pub mod Node
mod Replacement
pub mod Marks
mod Tests
