-- ===== src/Codec/Encode/Wrote.antt =====
-- Text written by several calls of src/80s/dynstr.c, where memory is granted.
use s.Common.{
  length, set, take, length-append, length-set, size_mod, ℕ, zero, suc, ◌+◌, ◌-◌, ◌/◌, ◌%◌, ◌≤◌,
  ◌≡◌, refl, sym, ap, ap₂, subst, ◌∙◌, true, List, [], ◌∷◌, ◌++◌, append-nil, append_assoc, arith,
}
use s.Dynstr.{Dynstr, Allocator, contents, check, puts}
use s.Dynstr.Growth.{IsValid, Grants, max_size, max_length}
use s.Codec.Emit.{Emitted, puts-Emitted, Emitted-trans}
use s.Codec.Encode.{put_all, set_last}
use s.Codec.Encode.Print.{flatten}

-- A string that can be written to.
pub record IsGood (d : Dynstr) : Type 0 where
  pub valid : IsValid d
  pub small : d.size ≤ max_size
  pub fine : d.ok ≡ true

-- From `d` on just this text has been written, and no call has failed.
pub record Wrote (d : Dynstr) (out : List ℕ) (r : Dynstr) : Type 0 where
  pub emitted : Emitted d out r
  pub fine : r.ok ≡ true

pub Wrote-IsGood : {d r : Dynstr} {out : List ℕ} → Wrote d out r → IsGood r
Wrote-IsGood w = record { valid = w.emitted.valid; small = w.emitted.small; fine = w.fine }

pub Wrote-trans :
    {d e r : Dynstr} (xs ys : List ℕ) → Wrote d xs e → Wrote e ys r → Wrote d (xs ++ ys) r
Wrote-trans xs ys p q = record { emitted = Emitted-trans xs ys p.emitted q.emitted; fine = q.fine }

pub Wrote-nil : (d : Dynstr) → IsGood d → Wrote d [] d
Wrote-nil d g = record {
  emitted = record {
    valid = g.valid;
    small = g.small;
    holds = sym (append-nil (contents d));
    counts = omega arith;
  };
  fine = g.fine;
}

-- The last byte of a text, replaced.
set_last_lem :
    (n : ℕ) (p ys : List ℕ) (x c : ℕ)
    → take (suc n) p ≡ ys ++ x ∷ []
    → suc n ≤ length p
    → take (suc n) (set p n c) ≡ ys ++ c ∷ []
set_last_lem n [] ys x c e h = absurd (omega arith)
set_last_lem zero (y ∷ p) [] x c e h = refl
set_last_lem zero (y ∷ p) (z ∷ ys) x c e h =
    absurd (omega (arith, ap length e, length-append ys (x ∷ [])))
set_last_lem (suc n) (y ∷ []) ys x c e h = absurd (omega arith)
set_last_lem (suc n) (y ∷ w ∷ p) [] x c e h = absurd (omega (arith, ap length e))
set_last_lem (suc n) (y ∷ w ∷ p) (z ∷ ys) x c e h =
    let q : y ≡ z = cc in
    let r : take (suc n) (w ∷ p) ≡ ys ++ x ∷ [] = cc in
    ap₂ (λ u v. u ∷ v) q (set_last_lem n (w ∷ p) ys x c r (omega arith))

length-set_last : (xs : List ℕ) (x c : ℕ) → length (xs ++ x ∷ []) ≡ length (xs ++ c ∷ [])
length-set_last xs x c = omega (arith, length-append xs (x ∷ []), length-append xs (c ∷ []))

pub set_last-Wrote :
    {d r : Dynstr} (xs : List ℕ) (x c : ℕ)
    → Wrote d (xs ++ x ∷ []) r
    → Wrote d (xs ++ c ∷ []) (set_last r c)
set_last-Wrote {d} {r} xs x c w =
    let e = w.emitted in
    let pos : r.length ≡ suc (r.length - 1) = omega (arith, e.counts, length-append xs (x ∷ [])) in
    record {
      emitted = record {
        valid = record {
          written = omega (arith, e.valid.written, length-set r.ptr (r.length - 1) c);
          fits = e.valid.fits;
        };
        small = e.small;
        holds =
            let h : take (suc (r.length - 1)) r.ptr ≡ (contents d ++ xs) ++ x ∷ [] =
              subst (λ n. take n r.ptr ≡ (contents d ++ xs) ++ x ∷ []) pos
                (e.holds ∙ sym (append_assoc (contents d) xs (x ∷ []))) in
            subst (λ n. take n (set r.ptr (r.length - 1) c) ≡ contents d ++ (xs ++ c ∷ []))
              (sym pos)
              (set_last_lem (r.length - 1) r.ptr (contents d ++ xs) x c h
                  (omega (arith, e.valid.written))
                ∙ append_assoc (contents d) xs (c ∷ []));
        counts = omega (arith, e.counts, length-set_last xs x c);
      };
      fine = w.fine;
    }

module _ (a : Allocator) (g : Grants a) where
  ok-puts : (d : Dynstr) (bytes : List ℕ) → d.ok ≡ true → (puts a d bytes).0.ok ≡ true
  unfolding puts check
  ok-puts d bytes h = ground (
    arith,
    g.calloc_grants ((d.size + length bytes + d.size / 2 + 65536) % size_mod),
    g.realloc_grants ((d.size + length bytes + d.size / 2 + 65536) % size_mod),
  )

  pub puts-Wrote :
      (d : Dynstr) (bytes : List ℕ)
      → IsGood d
      → d.length + length bytes ≤ max_length
      → Wrote d bytes (puts a d bytes).0
  puts-Wrote d bytes v h = record {
    emitted = puts-Emitted a d bytes g v.valid v.small h;
    fine = ok-puts d bytes v.fine;
  }

  pub put_all-Wrote :
      (d : Dynstr) (ps : List (List ℕ))
      → IsGood d
      → d.length + length (flatten ps) ≤ max_length
      → Wrote d (flatten ps) (put_all a d ps)
  unfolding put_all
  put_all-Wrote d [] v h = Wrote-nil d v
  put_all-Wrote d (p ∷ ps) v h =
      let first = puts-Wrote d p v (omega (arith, length-append p (flatten ps))) in
      Wrote-trans p (flatten ps) first (
        put_all-Wrote (puts a d p).0 ps (Wrote-IsGood first)
          (omega (arith, length-append p (flatten ps), first.emitted.counts)))
