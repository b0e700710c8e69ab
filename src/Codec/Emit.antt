-- ===== src/Codec/Emit.antt =====
-- The loops of src/80s/lua_codec.c that append a piece of text for each byte of the input.
use s.Common.{
  length, length-append, ℕ, ◌+◌, ◌≤◌, ◌≡◌, refl, List, [], ◌∷◌, ◌++◌, append-nil, append_assoc,
  arith,
}
use s.Dynstr.{Dynstr, Allocator, contents, puts}
use s.Dynstr.Growth.{IsValid, Grants, max_size, max_length, puts-Appends, puts-small, puts-granted}

-- The text that the loop means to write.
abbrev pub expand : (ℕ → List ℕ) → List ℕ → List ℕ
expand piece [] = []
expand piece (c ∷ cs) = piece c ++ expand piece cs

-- `for (i = 0; i < len; i++)` with one `dynstr_puts` or `dynstr_putc` a round; its result is not
-- looked at.
unfoldable pub put_each : Allocator → (ℕ → List ℕ) → Dynstr → List ℕ → Dynstr
put_each a piece self [] = self
put_each a piece self (c ∷ cs) = put_each a piece (puts a self (piece c)).0 cs

pub expand-append :
    (f : ℕ → List ℕ) (xs ys : List ℕ) → expand f (xs ++ ys) ≡ expand f xs ++ expand f ys
expand-append f [] ys = refl
expand-append f (x ∷ xs) ys = rw (expand-append f xs ys, append_assoc)

-- What the loop leaves behind.
pub record Emitted (d : Dynstr) (out : List ℕ) (r : Dynstr) : Type 0 where
  pub valid : IsValid r
  pub small : r.size ≤ max_size
  pub holds : contents r ≡ contents d ++ out
  pub counts : r.length ≡ d.length + length out

pub puts-Emitted :
    (a : Allocator) (d : Dynstr) (bytes : List ℕ)
    → Grants a
    → IsValid d
    → d.size ≤ max_size
    → d.length + length bytes ≤ max_length
    → Emitted d bytes (puts a d bytes).0
puts-Emitted a d bytes g v h k =
    let done = puts-granted a d bytes g in
    let ap' = puts-Appends a d bytes v h k in
    record {
      valid = ap'.valid;
      small = puts-small a d bytes v h k;
      holds = ap'.written done;
      counts = ap'.grows done;
    }

pub Emitted-trans :
    {d e r : Dynstr} (xs ys : List ℕ) → Emitted d xs e → Emitted e ys r → Emitted d (xs ++ ys) r
Emitted-trans xs ys p q = record {
  valid = q.valid;
  small = q.small;
  holds = rw (q.holds, p.holds, append_assoc);
  counts = omega (arith, p.counts, q.counts, length-append xs ys);
}

-- With memory granted, the loop appends the pieces in order.
pub put_each-Emitted :
    (a : Allocator) (f : ℕ → List ℕ) (d : Dynstr) (cs : List ℕ)
    → Grants a
    → IsValid d
    → d.size ≤ max_size
    → d.length + length (expand f cs) ≤ max_length
    → Emitted d (expand f cs) (put_each a f d cs)
unfolding put_each
put_each-Emitted a f d [] g v h k = record {
  valid = v;
  small = h;
  holds = rw append-nil;
  counts = omega arith;
}
put_each-Emitted a f d (c ∷ cs) g v h k =
    let len = length-append (f c) (expand f cs) in
    let first = puts-Emitted a d (f c) g v h (omega arith) in
    Emitted-trans (f c) (expand f cs) first (
      put_each-Emitted a f (puts a d (f c)).0 cs g first.valid first.small
        (omega (arith, first.counts)))
