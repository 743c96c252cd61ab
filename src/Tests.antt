-- ===== src/Tests.antt =====
-- Runs on concrete inputs, and the theorems at inputs that meet their hypotheses.
mod HashTables
mod ReadyLists
mod Programs
mod Servers
mod Clients
mod Chats
mod Https
mod Stale
mod Exchanges
mod Pipes
