-- ===== src/Net/Inotify.antt =====
-- src/80s/lua_net.c: `l_net_inotify_read`, which takes what was read from an inotify descriptor
-- apart, on a machine with the least byte of a number first.
pub mod Read
mod Tests
use s.Common.{
  ltb, leb, ◌==◌, if◌then◌else◌, length, get_or, drop, ◌>>=◌, c_string, ℕ, zero, suc, ◌+◌, ◌*◌, ◌/◌,
  ◌%◌, ◌^◌, Bool, ◌&&◌, Option, none, some, List, [], ◌∷◌,
}

-- The table for an event; `clock` is the same in all of them and left out.
pub record Entry : Type 0 where
  pub name : List ℕ
  pub wd : ℕ
  pub dir : Bool
  pub modify : Bool
  pub delete : Bool
  pub create : Bool

-- Four bytes of a `struct inotify_event`.
abbrev pub field_at : List ℕ → ℕ → ℕ
field_at d i =
    get_or d i 0
    + 256 * get_or d (i + 1) 0
    + 65536 * get_or d (i + 2) 0
    + 16777216 * get_or d (i + 3) 0

-- `(evt->mask & bit) != 0`, for one of the bits below.
abbrev pub has : ℕ → ℕ → Bool
has mask bit = mask / bit % 2 == 1

abbrev pub in_modify : ℕ
in_modify = 2

abbrev pub in_create : ℕ
in_create = 256

abbrev pub in_delete : ℕ
in_delete = 512

abbrev pub in_isdir : ℕ
in_isdir = 2 ^ 30

abbrev pub entry_of : List ℕ → Entry
entry_of evt = record {
  name = c_string (drop 16 evt);
  wd = field_at evt 0;
  dir = has (field_at evt 4) in_isdir;
  modify = has (field_at evt 4) in_modify;
  delete = has (field_at evt 4) in_delete;
  create = has (field_at evt 4) in_create;
}

-- `evt->len && (i + evt->len + (sizeof(struct inotify_event))) <= length`
abbrev pub is_whole : List ℕ → Bool
is_whole evt = ltb 0 (field_at evt 12) && leb (field_at evt 12 + 16) (length evt)

-- `while (i < length)`, for the bytes from `i` on, with fuel for its rounds. `none` is a read
-- behind the string: there are fewer bytes left than the event's fields have.
unfoldable pub read_events : ℕ → List ℕ → Option (List Entry)
read_events zero [] = some []
read_events zero (b ∷ bs) = none
read_events (suc fuel) [] = some []
read_events (suc fuel) (b ∷ bs) =
    let evt = b ∷ bs in
    let later = read_events fuel (drop (field_at evt 12) (drop 16 evt)) in
    if ltb (length evt) 16
    then none
    else later >>= λ es. some (if is_whole evt then entry_of evt ∷ es else es)

-- A round takes sixteen bytes or more.
unfoldable pub l_net_inotify_read : List ℕ → Option (List Entry)
unfolding read_events
l_net_inotify_read text = read_events (length text) text
