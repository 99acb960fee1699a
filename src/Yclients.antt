-- ===== src/Yclients.antt =====
-- The client of the YClients API, and what the tenants do with the branches that it lists.
pub mod Paging
