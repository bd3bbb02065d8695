-- ===== src/Tests.antt =====
-- Concrete runs of the models, on which the theorems of the development are tried.
pub mod Fixtures
pub mod Phones
pub mod Handlers
pub mod Browsing
pub mod Forwards
pub mod Remote
pub mod Startup
pub mod Processes
pub mod Sockets
