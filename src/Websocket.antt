-- ===== src/Websocket.antt =====
-- The WebSocket protocol of the sync socket (server/internal/realtime/websocket.go).
pub mod Wire
pub mod Text
pub mod Frames
pub mod Rounds
pub mod Ends
pub mod Written
mod Tests
