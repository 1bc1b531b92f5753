-- ===== src/Upload.antt =====
-- pkg/upload: the validation of uploads, the manager, and the URLs of stored files.
pub mod Validator
pub mod Manager
pub mod Local
pub mod Escape
pub mod Oss
