-- ===== src/Wire.antt =====
-- internal/frame: the framing of messages on a socket.
pub mod Frame
