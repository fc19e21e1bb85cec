-- ===== src/Collab.antt =====
-- internal/collab: the real-time editing engine, its autosaver and its WebSocket handler.
mod Tests
pub mod Types
pub mod Transform
pub mod Channels
pub mod Engine
pub mod Saver
pub mod Handler
