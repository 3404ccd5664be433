-- ===== src/Map.antt =====
-- src/channel/map.c: the structures behind the maps of a channel.
pub mod Controllers
pub mod Objects
