-- ===== src/Codec.antt =====
-- src/80s/lua_codec.c: the text codecs that Lua scripts call.
mod Tests
pub mod Lua
pub mod Emit
pub mod Hex
pub mod Url
pub mod Escape
pub mod Json
pub mod Encode
