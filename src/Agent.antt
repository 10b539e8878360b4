-- ===== src/Agent.antt =====
-- The agent's run: one executor that alternates model calls and tool calls.
pub mod Messages
pub mod State
pub mod Action
pub mod Steps
pub mod Drive
pub mod Events
pub mod Keeps
pub mod Rules
pub mod Soundness
pub mod Tools
pub mod Driving
pub mod Ended
pub mod Between
pub mod Tests
