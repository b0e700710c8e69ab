-- ===== src/Dynstr/Tests.antt =====
-- src/80s/dynstr.c: runs on small inputs.
use s.Common.{◌≡◌, refl, true, false, [], ◌∷◌, arith}
use s.Dynstr.{Dynstr, Allocator, contents, puts, release}
use s.Dynstr.Growth.{IsValid, Appends, puts-Appends}

abbrev refusing : Allocator
refusing = record { calloc = λ _. false; realloc = λ _. false }

abbrev granting : Allocator
granting = record { calloc = λ _. true; realloc = λ _. true }

-- Four bytes of caller's storage, two of them used.
abbrev small : Dynstr
small = record {
  ok = true;
  on_stack = true;
  size = 4;
  length = 2;
  is_null = false;
  ptr = b'h' ∷ b'e' ∷ [];
}

small-IsValid : IsValid small
small-IsValid = omega arith

puts_in_place : contents (puts refusing small (b'y' ∷ [])).0 ≡ b'h' ∷ b'e' ∷ b'y' ∷ []
unfolding puts
puts_in_place = refl

puts_moves :
    let d = (puts granting small (b'y' ∷ b'o' ∷ [])).0 in
    (contents d ≡ b'h' ∷ b'e' ∷ b'y' ∷ b'o' ∷ []) × (d.size ≡ 65544) × (d.on_stack ≡ false)
unfolding puts
puts_moves = (refl, refl, refl)

release_frees : (release (puts granting small (b'y' ∷ b'o' ∷ [])).0).1 ≡ true
unfolding puts release
release_frees = refl

puts-Appends_example :
    Appends refusing small (b'y' ∷ b'o' ∷ []) (puts refusing small (b'y' ∷ b'o' ∷ []))
puts-Appends_example =
    puts-Appends refusing small (b'y' ∷ b'o' ∷ []) small-IsValid (omega arith) (omega arith)
