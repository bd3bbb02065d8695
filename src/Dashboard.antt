-- ===== src/Dashboard.antt =====
-- ella-core/ue-phones/app: the dashboard of the simulated phones (server.go, phone_gnb.go).
pub mod State
pub mod Number
pub mod Messages
pub mod Steps
pub mod Invariant
pub mod Safety
pub mod Caps
pub mod History
