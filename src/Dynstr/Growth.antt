-- ===== src/Dynstr/Growth.antt =====
-- src/80s/dynstr.c: capacity and contents under `check`, `putc` and `puts`.
use s.Common.{
  ltb, if◌then◌else◌, ◌||◌, length, take, drop, length-append, length-take, take-append, take-take,
  size_mod, ℕ, ◌+◌, ◌/◌, ◌^◌, ◌≤◌, ◌<◌, ◌≡◌, refl, ap, ◌∙◌, Bool, true, false, List, [], ◌∷◌, ◌++◌,
  append_assoc, arith,
}
use s.Dynstr.{Dynstr, Allocator, contents, check, putc, puts, put_checked, write_at, grown_size}

-- The written bytes reach `length` and lie within the storage.
pub record IsValid (d : Dynstr) : Type 0 where
  pub written : d.length ≤ length d.ptr
  pub fits : d.length ≤ d.size

-- No `size_t` sum of a call for `space` more bytes wraps.
abbrev pub HasRoom : Dynstr → ℕ → Type 0
HasRoom d space = d.size + space + d.size / 2 + 65536 < size_mod

module _ (a : Allocator) (d : Dynstr) (space : ℕ) (v : IsValid d) (room : HasRoom d space) where
  pub check-IsValid : IsValid (check a d space).0
  unfolding check
  check-IsValid = ground (arith, length-take d.length d.ptr)

  pub check-room : (check a d space).1 ≡ true → d.length + space < (check a d space).0.size
  unfolding check
  check-room h = ground arith

  pub contents-check : contents (check a d space).0 ≡ contents d
  unfolding check
  contents-check = ground (arith, take-take d.length d.ptr)

  pub length-check : (check a d space).0.length ≡ d.length
  unfolding check
  length-check = ground arith

take-drop_lem :
    (d : ℕ) (p bytes : List ℕ)
    → d ≤ length p
    → take (d + length bytes) (write_at p d bytes) ≡ take d p ++ bytes
take-drop_lem d p bytes h = rw (← append_assoc) (
    take-append (d + length bytes) (take d p ++ bytes) (drop (d + length bytes) p)
      (omega (arith, length-append (take d p) bytes, length-take d p)))

length-write_at :
    (d : ℕ) (p bytes : List ℕ) → d ≤ length p → d + length bytes ≤ length (write_at p d bytes)
length-write_at d p bytes h = omega (
  arith,
  length-append (take d p) (bytes ++ drop (d + length bytes) p),
  length-append bytes (drop (d + length bytes) p),
  length-take d p,
)

-- Whether `n` more bytes find room: in the storage with one byte to spare, or because the
-- allocator grants larger storage, for which a string on the stack asks `calloc` and another one
-- `realloc`.
abbrev pub finds_room : Allocator → Dynstr → ℕ → Bool
finds_room a d n =
    ltb (d.length + n) d.size
    || (if d.on_stack
        then a.calloc (d.size + n + d.size / 2 + 65536)
        else a.realloc (d.size + n + d.size / 2 + 65536))

-- What a call that appends `bytes` does: it succeeds just where they find room; then the contents
-- grow by exactly these bytes, and `ok` stays; else `ok` is cleared and the contents stay. The
-- string stays valid.
pub record Appends (a : Allocator) (d : Dynstr) (bytes : List ℕ) (r : Dynstr × Bool) : Type 0 where
  pub succeeds : r.1 ≡ finds_room a d (length bytes)
  pub still_ok : r.1 ≡ true → r.0.ok ≡ d.ok
  pub valid : IsValid r.0
  pub written : r.1 ≡ true → contents r.0 ≡ contents d ++ bytes
  pub grows : r.1 ≡ true → r.0.length ≡ d.length + length bytes
  pub refused : r.1 ≡ false → (contents r.0 ≡ contents d) × (r.0.ok ≡ false)

check-flag :
    (a : Allocator) (d : Dynstr) (space : ℕ)
    → (check a d space).1 ≡ false
    → (check a d space).0.ok ≡ false
unfolding check
check-flag a d space h = ground arith

check-finds_room :
    (a : Allocator) (d : Dynstr) (space : ℕ)
    → HasRoom d space
    → IsValid d
    → (check a d space).1 ≡ finds_room a d space
unfolding check
check-finds_room a d space room v = ground arith

check-ok :
    (a : Allocator) (d : Dynstr) (space : ℕ)
    → (check a d space).1 ≡ true
    → (check a d space).0.ok ≡ d.ok
unfolding check
check-ok a d space h = ground arith

put_checked-Appends :
    (a : Allocator) (d : Dynstr) (bytes : List ℕ) (r : Dynstr × Bool)
    → r.1 ≡ finds_room a d (length bytes)
    → (r.1 ≡ true → r.0.ok ≡ d.ok)
    → IsValid r.0
    → contents r.0 ≡ contents d
    → r.0.length ≡ d.length
    → (r.1 ≡ true → d.length + length bytes < r.0.size)
    → (r.1 ≡ false → r.0.ok ≡ false)
    → d.length + length bytes < size_mod
    → Appends a d bytes (put_checked bytes r)
put_checked-Appends a d bytes (r, true) found keeps v same len room bad small = record {
  succeeds = found;
  still_ok = keeps;
  valid = record {
    written = omega (arith, length-write_at r.length r.ptr bytes v.written);
    fits = ground arith;
  };
  written =
      λ _. ground (arith, ap (λ t. t ++ bytes) same, take-drop_lem r.length r.ptr bytes v.written);
  grows = λ _. ground arith;
  refused = λ h. cc;
}
put_checked-Appends a d bytes (r, false) found keeps v same len room bad small = record {
  succeeds = found;
  still_ok = λ h. cc;
  valid = v;
  written = λ h. cc;
  grows = λ h. cc;
  refused = λ h. (same, bad h);
}

-- The bounds under which no size wraps: storage up to 2 ^ 62 bytes, text up to 2 ^ 60.
abbrev pub max_size : ℕ
max_size = 2 ^ 62

abbrev pub max_length : ℕ
max_length = 2 ^ 60

pub check-small :
    (a : Allocator) (d : Dynstr) (space : ℕ)
    → d.size ≤ max_size
    → d.length + space ≤ max_length
    → (check a d space).0.size ≤ max_size
unfolding check
check-small a d space h k = ground arith

size-put_checked : (bytes : List ℕ) (r : Dynstr × Bool) → (put_checked bytes r).0.size ≡ r.0.size
size-put_checked bytes (r, true) = refl
size-put_checked bytes (r, false) = refl

module _ (a : Allocator) (d : Dynstr) (bytes : List ℕ) (v : IsValid d) (h : d.size ≤ max_size)
    (k : d.length + length bytes ≤ max_length) where
  -- `dynstr_puts` on a valid string of at most 2 ^ 62 bytes of storage, with at most 2 ^ 60
  -- bytes of text behind it: it succeeds just where the bytes fit with one byte to spare, or
  -- else the allocator (`calloc` for a string on the stack, `realloc` for another) grants the
  -- storage and half of it, the bytes and 65536; then the text grows by exactly its bytes;
  -- else the text is as before and `ok` is cleared. The text stays inside the storage.
  pub puts-Appends : Appends a d bytes (puts a d bytes)
  unfolding puts
  puts-Appends =
      let room : HasRoom d (length bytes) = omega arith in
      put_checked-Appends a d bytes (check a d (length bytes))
        (check-finds_room a d (length bytes) room v) (check-ok a d (length bytes))
        (check-IsValid a d (length bytes) v room) (contents-check a d (length bytes) v room)
        (length-check a d (length bytes) v room) (check-room a d (length bytes) v room)
        (check-flag a d (length bytes)) (omega arith)

  pub puts-small : (puts a d bytes).0.size ≤ max_size
  unfolding puts
  puts-small =
      rw (size-put_checked bytes (check a d (length bytes))) (check-small a d (length bytes) h k)

-- An allocator that never refuses.
pub record Grants (a : Allocator) : Type 0 where
  pub calloc_grants : (n : ℕ) → a.calloc n ≡ true
  pub realloc_grants : (n : ℕ) → a.realloc n ≡ true

pub check-granted : (a : Allocator) (d : Dynstr) (space : ℕ) → Grants a → (check a d space).1 ≡ true
unfolding check
check-granted a d space g =
    ground (arith, g.calloc_grants (grown_size d space), g.realloc_grants (grown_size d space))

put_checked-flag : (bytes : List ℕ) (r : Dynstr × Bool) → (put_checked bytes r).1 ≡ r.1
put_checked-flag bytes (r, true) = refl
put_checked-flag bytes (r, false) = refl

pub puts-granted :
    (a : Allocator) (d : Dynstr) (bytes : List ℕ) → Grants a → (puts a d bytes).1 ≡ true
unfolding puts
puts-granted a d bytes g =
    put_checked-flag bytes (check a d (length bytes)) ∙ check-granted a d (length bytes) g

pub putc-puts : (a : Allocator) (d : Dynstr) (c : ℕ) → putc a d c ≡ puts a d (c ∷ [])
unfolding putc puts
putc-puts a d c = refl
