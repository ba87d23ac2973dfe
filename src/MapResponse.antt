-- ===== src/MapResponse.antt =====
-- The map response that the control server sends: components/tailscale/map_response_parser.cpp,
-- the parser that fills fixed buffers without building a JSON tree.
pub mod Extract
pub mod Address
pub mod Peers
pub mod Parse
pub mod Tests
