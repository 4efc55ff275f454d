-- ===== src/Signal.antt =====
-- fb_signal: fb_signal/include/fb.
pub mod Ring
pub mod Slots
pub mod Emit
pub mod Connections
pub mod Storage
mod Tests
