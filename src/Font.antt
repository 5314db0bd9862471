-- ===== src/Font.antt =====
-- gx/font: the codes in a text.
pub mod QuotedCode
