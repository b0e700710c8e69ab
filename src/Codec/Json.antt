-- ===== src/Codec/Json.antt =====
-- src/80s/lua_codec.c: JSON, `json_decode`.
pub mod Mode
pub mod Api
pub mod Machine
pub mod Decode
pub mod Tests
