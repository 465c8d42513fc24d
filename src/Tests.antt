-- ===== src/Tests.antt =====
-- Concrete runs: each theorem with hypotheses is applied where they hold.
mod Chunks
mod Caches
mod Requests
mod Stretches
mod Servers
mod Ingests
mod Orphans
mod Hubs
mod Clients
mod Scenes
mod Archives
