-- ===== src/Crypt.antt =====
-- libcrypt: identifiers from the clock and the machine.
pub mod Snowflake
