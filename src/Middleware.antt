-- ===== src/Middleware.antt =====
-- pkg/middleware: the Gin middlewares that decide about a request.
pub mod RateLimiter
pub mod Cors
pub mod Auth
pub mod Chain
