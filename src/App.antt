-- ===== src/App.antt =====
-- pkg/app: responses, and the handlers that run at shutdown.
pub mod Response
pub mod Answers
pub mod Shutdown
pub mod Instance
pub mod Requests
