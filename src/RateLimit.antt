-- ===== src/RateLimit.antt =====
-- src/collectmind/ratelimit: the token bucket, the middleware and the configuration it reads.
pub mod TokenBucket
pub mod Paths
pub mod Middleware
pub mod Listener
mod Examples
