-- ===== src/Storage.antt =====
-- internal/store: how documents and tenants are named in the database.
pub mod Uuid
