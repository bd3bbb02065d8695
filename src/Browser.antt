-- ===== src/Browser.antt =====
-- ella-core/ue-phones/app/browser.go: the remote browser.
pub mod Navigation
pub mod Egress
pub mod Viewer
