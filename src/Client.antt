-- ===== src/Client.antt =====
-- The registration of the one client: src/app_clientinfo.cc.
pub mod ClientInfo
mod Tests
