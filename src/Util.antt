-- ===== src/Util.antt =====
-- libutil: strings.
pub mod Text
