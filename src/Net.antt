-- ===== src/Net.antt =====
-- src/80s/lua_net.c: the network functions that Lua calls.
pub mod Headers
pub mod Inotify
pub mod Mail
pub mod Partscan
pub mod Readfile
