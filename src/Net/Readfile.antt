-- ===== src/Net/Readfile.antt =====
-- src/80s/lua_net.c: `l_net_readfile`, which gives a script the bytes of a file.
mod Tests
use s.Common.{
  leb, if◌then◌else◌, Bool-cases, length, take, take_all, size_mod, ℕ, ◌+◌, ◌/◌, ◌%◌, ◌^◌, ◌≤◌, ◌<◌,
  min, ◌≡◌, refl, sym, inl, inr, Bool, true, false, ◌&&◌, Option, none, some, List, arith,
}
use s.Dynstr.{Dynstr, Allocator, check, init, release}

-- What `fopen` opened: the answer of `ftell` at the end, as a `size_t`, and the bytes that
-- `fread` can read.
pub record File : Type 0 where
  pub size : ℕ
  pub content : List ℕ

-- What the script gets, none where nothing is returned, and whether storage on the heap was freed.
pub record Answer : Type 0 where
  pub text : Option (List ℕ)
  pub freed : Bool

-- `char buf[10000]`
abbrev pub buf_size : ℕ
buf_size = 10000

-- `fread` and `lua_pushlstring`: `none` where the bytes do not fit into the storage, or where
-- fewer are read than are given to the script.
unfoldable pub give_text : Dynstr → File → Option Answer
give_text dyn f =
    if leb (min f.size (length f.content)) dyn.size && leb f.size (length f.content)
    then some (record { text = some (take f.size f.content); freed = (release dyn).1 })
    else none

unfoldable pub l_net_readfile : Allocator → Option File → Option Answer
unfolding give_text
l_net_readfile a none = some (record { text = none; freed = false })
l_net_readfile a (some f) =
    let checked = check a (init true buf_size) ((f.size + 1) % size_mod) in
    if checked.1 then give_text checked.0 f else some (record { text = none; freed = false })

give_text-whole :
    (dyn : Dynstr) (content : List ℕ)
    → length content ≤ dyn.size
    → give_text dyn (record { size = length content; content = content })
      ≡ some (record { text = some content; freed = (release dyn).1 })
unfolding give_text
give_text-whole dyn content fits =
    let room : leb (min (length content) (length content)) dyn.size ≡ true = ground (arith, fits) in
    let read : leb (length content) (length content) ≡ true = ground arith in
    rw (room, read, take_all (length content) content (omega arith)) refl

-- The storage for so many bytes and one more.
record Storage (n : ℕ) (checked : Dynstr × Bool) : Type 0 where
  granted : checked.1 ≡ true
  room : n ≤ checked.0.size
  heap : (release checked.0).1 ≡ leb buf_size (n + 1)

check-Storage :
    (a : Allocator) (n : ℕ)
    → ((n : ℕ) → a.calloc n ≡ true)
    → n < 2 ^ 62
    → Storage n (check a (init true buf_size) ((n + 1) % size_mod))
unfolding check init release
check-Storage a n g small =
    let size : (n + 1) % size_mod ≡ n + 1 = omega arith in
    let sum : (0 + (n + 1)) % size_mod ≡ n + 1 = omega arith in
    let granted = g ((buf_size + (n + 1) + buf_size / 2 + 65536) % size_mod) in
    elim (Bool-cases (leb buf_size (n + 1))) [
      | inl heap ↦
          rw (size, sum, heap, granted)
            (record { granted = refl; room = omega arith; heap = sym heap })
      | inr stack ↦
          rw (size, sum, stack)
            (record { granted = refl; room = ground (arith, stack); heap = sym stack })
    ]

-- A file below 2 ^ 62 bytes whose size `ftell` gives, where memory is granted: the script gets
-- all of it, and storage on the heap, which there is just where the file and one byte more do not
-- fit below the size of `buf`, is freed.
pub whole_file_read :
    (a : Allocator) (content : List ℕ)
    → ((n : ℕ) → a.calloc n ≡ true)
    → length content < 2 ^ 62
    → l_net_readfile a (some (record { size = length content; content = content }))
      ≡ some (record { text = some content; freed = leb buf_size (length content + 1) })
unfolding l_net_readfile
whole_file_read a content g small =
    let n = length content in
    let stored = check-Storage a n g small in
    rw
      (
        stored.granted,
        give_text-whole (check a (init true buf_size) ((n + 1) % size_mod)).0 content stored.room,
        stored.heap,
      )
      refl
