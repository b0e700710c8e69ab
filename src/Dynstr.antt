-- ===== src/Dynstr.antt =====
-- src/80s/dynstr.c: the growing byte buffer that the codecs and the crypto functions write to.
pub mod Growth
pub mod Format
mod Tests
use s.Common.{
  ltb, leb, if◌then◌else◌, length, take, drop, size_mod, sub_size, ℕ, ◌+◌, ◌/◌, ◌%◌, Bool, true,
  false, not, ◌&&◌, List, [], ◌∷◌, ◌++◌,
}

-- `struct dynstr_`. `ptr` holds the bytes written so far to the storage that the C pointer names;
-- what lies behind them up to `size` is unspecified. `is_null` is `ptr == 0`.
pub record Dynstr : Type 0 where
  pub ok : Bool
  pub on_stack : Bool
  pub size : ℕ
  pub length : ℕ
  pub is_null : Bool
  pub ptr : List ℕ

-- What `calloc` and `realloc` answer to a request of so many bytes: `false` is a null pointer.
pub record Allocator : Type 0 where
  pub calloc : ℕ → Bool
  pub realloc : ℕ → Bool

-- `ptr[offset .. offset + len)` overwritten by `len` bytes.
abbrev pub write_at : List ℕ → ℕ → List ℕ → List ℕ
write_at p offset bytes = take offset p ++ (bytes ++ drop (offset + length bytes) p)

-- The text that the string holds.
abbrev pub contents : Dynstr → List ℕ
contents d = take d.length d.ptr

abbrev pub grown_size : Dynstr → ℕ → ℕ
grown_size d space = (d.size + space + d.size / 2 + 65536) % size_mod

unfoldable pub check : Allocator → Dynstr → ℕ → Dynstr × Bool
check a self space =
    if leb self.size ((self.length + space) % size_mod)
    then (if self.on_stack
        then (if a.calloc (grown_size self space)
            then (
              record self {
                on_stack = false;
                is_null = false;
                ptr = take self.length self.ptr;
                size = grown_size self space;
              },
              true,
            )
            else (record self { ok = false }, false))
        else (if a.realloc (grown_size self space)
            then (record self { is_null = false; size = grown_size self space }, true)
            else (record self { ok = false }, false)))
    else (self, true)

-- `putc` and `puts` after a successful `check`.
abbrev put_checked : List ℕ → Dynstr × Bool → Dynstr × Bool
put_checked bytes (self, true) = (
  record self {
    ptr = write_at self.ptr self.length bytes;
    length = (self.length + length bytes) % size_mod;
  },
  true,
)
put_checked bytes (self, false) = (self, false)

unfoldable pub putc : Allocator → Dynstr → ℕ → Dynstr × Bool
unfolding check
putc a self c = put_checked (c ∷ []) (check a self 1)

unfoldable pub puts : Allocator → Dynstr → List ℕ → Dynstr × Bool
unfolding check
puts a self bytes = put_checked bytes (check a self (length bytes))

-- `dynstr_init` on storage of the caller, and on a null pointer.
unfoldable pub init : Bool → ℕ → Dynstr
init given size = record {
  ok = true;
  on_stack = given;
  size = if given then size else 0;
  length = 0;
  is_null = not given;
  ptr = [];
}

-- The flag tells whether `free` was called.
unfoldable pub release : Dynstr → Dynstr × Bool
release self =
    if not self.on_stack && not self.is_null
    then (record self { is_null = true; ptr = [] }, true)
    else (self, false)

-- `dynstr_putg` and `dynstr_putfmt`: `text` is what `snprintf` formats. Where it does not fit
-- behind the text, `snprintf` writes a part of it there, which is not text yet, and is called
-- again.
unfoldable pub put_formatted : Allocator → Dynstr → List ℕ → Dynstr × Bool
unfolding check
put_formatted a self text =
    if ltb (length text) (sub_size self.size self.length)
    then put_checked text (self, true)
    else put_checked text (check a self (length text))
