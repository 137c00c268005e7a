-- ===== src/Notifications.antt =====
-- The WebSocket client of packages/js/client/src/ws/notification-client.ts.
pub mod Phoenix
pub mod Client
pub mod Connection
pub mod Steps
mod Tests
