-- ===== src/Browse.antt =====
-- ella-core/ue-phones/app/browse.go: which destinations a UE's web client may reach.
pub mod Address
pub mod Client
pub mod Reader
pub mod Outline
pub mod Handler
