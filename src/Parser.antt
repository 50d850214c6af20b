-- ===== src/Parser.antt =====
-- libparser: the parsers of length-prefixed strings, of JSON documents and of INI files.
pub mod Tvl
pub mod Json
pub mod Ini
