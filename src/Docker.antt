-- ===== src/Docker.antt =====
-- runtime/docker/docker.go: sandboxes as Docker containers.
pub mod Commands
pub mod Agent
pub mod Backend
pub mod Daemon
pub mod Containers
pub mod Outcomes
pub mod Waiting
pub mod Tracking
pub mod Agreement
pub mod Paused
pub mod Answers
mod Tests
