-- ===== src/Topology.antt =====
-- The plugin TopologyConfig (plugins/TopologyConfig.cxx): the properties of sockets, the channels that
-- it writes to the registry, the links between them, and the addresses of the peers.
pub mod Property
pub mod Channel
pub mod Link
pub mod Address
pub mod Resolve
pub mod Sockets
pub mod ChannelConfig
pub mod Announcements
pub mod Peers
pub mod Start
pub mod Waiting
pub mod Lookup
