-- ===== src/Http2.antt =====
-- components/tailscale/http2_session.cpp and http2_session.h: the HTTP/2 client that carries the
-- control protocol.
pub mod Frame
pub mod Hpack
pub mod Complete
pub mod Session
mod Tests
