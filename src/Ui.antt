-- ===== src/Ui.antt =====
-- ui/simple: the box that text is typed into.
pub mod EditBox
