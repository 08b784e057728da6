-- ===== src/Notify.antt =====
-- The package notify: the event centre of msg_notify_center.go, and the file watchers of
-- watch_file_center.go.
pub mod Events
pub mod Publisher
pub mod Files
pub mod Center
mod Examples
