-- ===== src/Dynstr/Format.antt =====
-- src/80s/dynstr.c: formatting into the string does what `dynstr_puts` of the formatted text does.
use s.Common.{
  ltb, leb, Bool-cases, length, size_mod, sub_size, ℕ, ◌+◌, ◌%◌, ◌≤◌, ◌≡◌, refl, inl, inr, true,
  false, List, arith,
}
use s.Dynstr.{Dynstr, Allocator, check, puts, put_formatted}
use s.Dynstr.Growth.{IsValid, max_size, max_length}

-- For a valid string within the bounds, `dynstr_putg` and `dynstr_putfmt` are `dynstr_puts` of
-- the text that `snprintf` formats: the same text, the same storage, the same answer, memory
-- refused or not.
pub put_formatted-puts :
    (a : Allocator) (d : Dynstr) (text : List ℕ)
    → IsValid d
    → d.size ≤ max_size
    → d.length + length text ≤ max_length
    → put_formatted a d text ≡ puts a d text
unfolding put_formatted puts
put_formatted-puts a d text v h k =
    elim (Bool-cases (ltb (length text) (sub_size d.size d.length))) [
      | inl fits ↦
          let e : check a d (length text) ≡ (d, true) =
            unfold check in
            (let q : leb d.size ((d.length + length text) % size_mod) ≡ false =
                ground (arith, v.fits) in
              rw q refl) in
          rw (fits, e) refl
      | inr tight ↦ rw tight refl
    ]
