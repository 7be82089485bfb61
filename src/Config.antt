-- ===== src/Config.antt =====
-- parse_config.c: the configuration, from a parsed JSON value. The parser is that of json.c, a copy of
-- a library: here it is a function that the reader of a file takes.
pub mod Json
pub mod Params
pub mod Muxes
