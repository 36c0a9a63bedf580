-- ===== src/Torrent.antt =====
-- learntorrent: the UDP tracker, the DHT server and the peer server of a torrent client's test setup.
pub mod Util
pub mod Tracker
pub mod Life
pub mod Dht
pub mod Peer
pub mod DhtLife
pub mod PeerLife
pub mod Tests
