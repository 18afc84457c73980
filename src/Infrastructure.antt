-- ===== src/Infrastructure.antt =====
-- backend/app/infrastructure: what the database sessions share.
pub mod Retry
