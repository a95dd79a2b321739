-- ===== src/Ui.antt =====
-- ui/src: the logic behind the views, without their markup.
pub mod Tunnels
pub mod Bandwidth
pub mod Select
pub mod Forms
mod Tests
