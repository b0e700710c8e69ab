-- ===== src/Codec/Json/Mode.antt =====
-- src/80s/lua_codec.c: `enum state` of `json_decode`.
pub data Mode : Type 0 where
  none in_object in_array read_key read_value read_num read_real read_text : Mode
