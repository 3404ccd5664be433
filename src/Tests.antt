-- ===== src/Tests.antt =====
-- The theorems at concrete inputs.
mod Sets
mod Wire
mod Packets
mod Stats
mod Coordination
mod Levels
mod Maps
mod Accounts
mod Things
mod Inventories
mod Transports
