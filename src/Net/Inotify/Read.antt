-- ===== src/Net/Inotify/Read.antt =====
-- src/80s/lua_net.c: `l_net_inotify_read` gives back the events that inotify(7) says the kernel
-- writes.
use s.Common.{
  ltb, leb, if◌then◌else◌, Bool-cases, length, drop, replicate, All, length-append,
  length-replicate, ◌>>=◌, c_string, HasNoNul, c_string-append, ℕ, zero, suc, ◌+◌, ◌*◌, ◌/◌, ◌%◌,
  ◌^◌, ◌≤◌, ◌<◌, ◌≡◌, refl, ◌∙◌, inl, inr, Bool, true, false, ◌&&◌, some, List, [], ◌∷◌, ◌++◌,
  append_assoc, arith,
}
use s.Net.Inotify.{
  Entry, field_at, has, in_modify, in_create, in_delete, in_isdir, read_events, l_net_inotify_read,
}

-- An event, with the number of NUL bytes behind its name.
pub record Event : Type 0 where
  pub wd : ℕ
  pub mask : ℕ
  pub cookie : ℕ
  pub name : List ℕ
  pub pad : ℕ

abbrev pub bytes : ℕ → List ℕ → List ℕ
bytes w rest = w % 256 ∷ w / 256 % 256 ∷ w / 65536 % 256 ∷ w / 16777216 % 256 ∷ rest

abbrev pub len : Event → ℕ
len e = length e.name + e.pad

-- What the kernel writes, in front of `rest`.
abbrev pub encode_event : Event → List ℕ → List ℕ
encode_event e rest =
    bytes e.wd
      (bytes e.mask (bytes e.cookie (bytes (len e) (e.name ++ (replicate e.pad 0 ++ rest)))))

abbrev pub encode_all : List Event → List ℕ
encode_all [] = []
encode_all (e ∷ es) = encode_event e (encode_all es)

-- The event has a name: it is about a file in the directory that is watched.
abbrev pub named : Event → Bool
named e = ltb 0 (length e.name)

abbrev pub entry : Event → Entry
entry e = record {
  name = e.name;
  wd = e.wd;
  dir = has e.mask in_isdir;
  modify = has e.mask in_modify;
  delete = has e.mask in_delete;
  create = has e.mask in_create;
}

abbrev pub entries : List Event → List Entry
entries [] = []
entries (e ∷ es) = if named e then entry e ∷ entries es else entries es

-- The fields have 32 bits; a name has no NUL in it and one or more behind it.
pub record IsEvent (e : Event) : Type 0 where
  pub wd_fits : e.wd < 2 ^ 32
  pub mask_fits : e.mask < 2 ^ 32
  pub len_fits : len e < 2 ^ 32
  pub no_nul : HasNoNul e.name
  pub ended : ltb 0 e.pad ≡ named e

bytes_lem :
    (w : ℕ)
    → w < 2 ^ 32
    → w % 256 + 256 * (w / 256 % 256) + 65536 * (w / 65536 % 256) + 16777216 * (w / 16777216 % 256)
      ≡ w
bytes_lem w h = omega arith

c_string-name :
    (name : List ℕ) (pad : ℕ) (rest : List ℕ)
    → HasNoNul name
    → 0 < pad
    → c_string (name ++ (replicate pad 0 ++ rest)) ≡ name
c_string-name name zero rest h p = absurd (omega arith)
c_string-name name (suc pad) rest h p = c_string-append name (replicate pad 0 ++ rest) h

drop-append : (n : ℕ) (xs ys : List ℕ) → n ≡ length xs → drop n (xs ++ ys) ≡ ys
drop-append zero [] ys e = refl
drop-append zero (x ∷ xs) ys e = absurd (omega arith)
drop-append (suc n) [] ys e = absurd (omega arith)
drop-append (suc n) (x ∷ xs) ys e = drop-append n xs ys (omega arith)

-- Behind the fields.
abbrev tail : Event → List ℕ → List ℕ
tail e rest = e.name ++ (replicate e.pad 0 ++ rest)

length-tail : (e : Event) (rest : List ℕ) → length (tail e rest) ≡ len e + length rest
length-tail e rest = omega (
  arith,
  length-append e.name (replicate e.pad 0 ++ rest),
  length-append (replicate e.pad 0) rest,
  length-replicate {A = ℕ} e.pad 0,
)

drop-tail : (e : Event) (rest : List ℕ) → drop (len e) (tail e rest) ≡ rest
drop-tail e rest = rw (← append_assoc e.name (replicate e.pad 0) rest) (
    drop-append (len e) (e.name ++ replicate e.pad 0) rest
      (omega (arith, length-append e.name (replicate e.pad 0), length-replicate {A = ℕ} e.pad 0)))

abbrev add_entry : Event → List Entry → List Entry
add_entry e es = if named e then entry e ∷ es else es

-- One round, with what it reads at the fields.
round :
    (fuel : ℕ) (e : Event) (rest : List ℕ)
    → IsEvent e
    → field_at (encode_event e rest) 0 ≡ e.wd
    → field_at (encode_event e rest) 4 ≡ e.mask
    → field_at (encode_event e rest) 12 ≡ len e
    → read_events (suc fuel) (encode_event e rest)
      ≡ (read_events fuel rest >>= λ es. some (add_entry e es))
unfolding read_events
round fuel e rest v w0 w4 w12 =
    let long : ltb (length (encode_event e rest)) 16 ≡ false = ground arith in
    elim (Bool-cases (named e)) [
      | inl y ↦
          let padded : ltb 0 e.pad ≡ true = v.ended ∙ y in
          let whole : (ltb 0 (len e) && leb (len e + 16) (length (encode_event e rest))) ≡ true =
            ground (arith, y, length-tail e rest) in
          let name : c_string (drop 16 (encode_event e rest)) ≡ e.name =
            c_string-name e.name e.pad rest v.no_nul (ground (arith, padded)) in
          rw (long, w0, w4, w12, drop-tail e rest, whole, y, name) refl
      | inr n ↦
          let unpadded : ltb 0 e.pad ≡ false = v.ended ∙ n in
          let empty : ltb 0 (len e) ≡ false = ground (arith, n, unpadded) in
          rw (long, w0, w4, w12, drop-tail e rest, empty, n) refl
    ]

read_events-encode_event :
    (es : List Event) (fuel : ℕ)
    → All IsEvent es
    → length es ≤ fuel
    → read_events fuel (encode_all es) ≡ some (entries es)
unfolding read_events
read_events-encode_event [] zero v h = refl
read_events-encode_event [] (suc fuel) v h = refl
read_events-encode_event (e ∷ es) zero v h = absurd (omega arith)
read_events-encode_event (e ∷ es) (suc fuel) v h =
    round fuel e (encode_all es) v.0 (bytes_lem e.wd v.0.wd_fits) (bytes_lem e.mask v.0.mask_fits)
      (bytes_lem (len e) v.0.len_fits)
    ∙ rw (read_events-encode_event es fuel v.1 (omega arith)) refl

rounds_enough : (es : List Event) → length es ≤ length (encode_all es)
rounds_enough [] = omega arith
rounds_enough (e ∷ es) = omega (arith, rounds_enough es, length-tail e (encode_all es))

-- What inotify(7) says the kernel writes for some events: the tables are those of the events with
-- a name, in order, with the name up to its NUL bytes, the watch, and the bits of the mask.
pub inotify_events_read :
    (es : List Event) → All IsEvent es → l_net_inotify_read (encode_all es) ≡ some (entries es)
unfolding l_net_inotify_read
inotify_events_read es v = read_events-encode_event es (length (encode_all es)) v (rounds_enough es)
