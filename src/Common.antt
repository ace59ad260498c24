-- ===== src/Common.antt =====
-- common: helpers that the services share.
pub mod Pagination
pub mod Tenant
