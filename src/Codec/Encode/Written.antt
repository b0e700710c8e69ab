-- ===== src/Codec/Encode/Written.antt =====
-- src/80s/lua_codec.c: `json_encode` and `lua_encode` write the text that a value stands for.
use s.Common.{
  ltb, if◌then◌else◌, lt→ltb, length, length-append, ℕ, ◌+◌, ◌≤◌, ◌≡◌, refl, sym, ap, subst, Bool,
  true, false, List, [], ◌∷◌, ◌++◌, append-nil, append_assoc, arith,
}
use s.Dynstr.{Dynstr, Allocator, puts}
use s.Dynstr.Growth.{Grants, max_length}
use s.Codec.Encode.{
  Key, Value, nil, other, boolean, digits, text, table, Entries, end, entry, Dialect, json, lua,
  all_calls, quote, encode_string, set_last, is_number, key_text, encode_key, true_text, false_text,
  nil_text, open_array, close_bracket, close_table, empty_open, empty_close, close_empty, comma,
  start_entry, unless_failed, encode_value, encode_table, encode_entries,
}
use s.Codec.Encode.Print.{
  flatten, print_string, print_key, open_bracket, print, print_table, print_rest,
}
use s.Codec.Encode.Wrote.{
  IsGood, Wrote, Wrote-IsGood, Wrote-trans, Wrote-nil, set_last-Wrote, puts-Wrote, put_all-Wrote,
}

Wrote-eq : {d r : Dynstr} {xs ys : List ℕ} → xs ≡ ys → Wrote d xs r → Wrote d ys r
Wrote-eq {d} {r} e = subst (λ t. Wrote d t r) e

pub flatten-append : (ps qs : List (List ℕ)) → flatten (ps ++ qs) ≡ flatten ps ++ flatten qs
flatten-append [] qs = refl
flatten-append (p ∷ ps) qs = rw (flatten-append ps qs, append_assoc)

-- A text that grows by a comma, an item and the rest.
regroup :
    (xs item rest : List ℕ) → ((xs ++ b',' ∷ []) ++ item) ++ rest ≡ xs ++ b',' ∷ (item ++ rest)
regroup xs item rest = simp append_assoc

flatten_string : (t : List ℕ) → flatten (quote ∷ (all_calls t ++ quote ∷ [])) ≡ print_string t
flatten_string t = rw (flatten-append (all_calls t) (quote ∷ []))

module _ (a : Allocator) (g : Grants a) where
  pub encode_string-Wrote :
      (t : List ℕ) (d : Dynstr)
      → IsGood d
      → d.length + length (print_string t) ≤ max_length
      → Wrote d (print_string t) (encode_string a t d)
  unfolding encode_string
  encode_string-Wrote t d v h = Wrote-eq (flatten_string t) (
      put_all-Wrote a g d (quote ∷ (all_calls t ++ quote ∷ [])) v
        (omega (arith, ap length (flatten_string t))))

  start_entry-Wrote :
      (dialect : Dialect) (is_array : Bool) (k : Key) (d : Dynstr)
      → IsGood d
      → d.length + length (print_key dialect is_array k) ≤ max_length
      → Wrote d (print_key dialect is_array k) (start_entry a dialect is_array k d)
  unfolding encode_key
  start_entry-Wrote dialect true k d v h = Wrote-nil d v
  start_entry-Wrote json false k d v h =
      let t = print_string (key_text k) in
      let s = encode_string-Wrote (key_text k) d v (omega (arith, length-append t (b':' ∷ []))) in
      Wrote-trans t (b':' ∷ []) s (
        puts-Wrote a g (encode_string a (key_text k) d) (b':' ∷ []) (Wrote-IsGood s)
          (omega (arith, s.emitted.counts, length-append t (b':' ∷ []))))
  start_entry-Wrote lua false k d v h =
      let t = print_string (key_text k) in
      let o = puts-Wrote a g d (b'[' ∷ []) v (omega arith) in
      let d1 = (puts a d (b'[' ∷ [])).0 in
      let len = length-append t (b']' ∷ b'=' ∷ []) in
      let s =
        encode_string-Wrote (key_text k) d1 (Wrote-IsGood o)
          (omega (arith, len, o.emitted.counts)) in
      Wrote-trans (b'[' ∷ []) (t ++ b']' ∷ b'=' ∷ []) o (
        Wrote-trans t (b']' ∷ b'=' ∷ []) s (
          puts-Wrote a g (encode_string a (key_text k) d1) (b']' ∷ b'=' ∷ []) (Wrote-IsGood s)
            (omega (arith, len, o.emitted.counts, s.emitted.counts))))

  open_array-Wrote :
      (dialect : Dialect) (is_array : Bool) {d r : Dynstr}
      → Wrote d (b'{' ∷ []) r
      → Wrote d (open_bracket dialect is_array ∷ []) (open_array dialect is_array r)
  open_array-Wrote json true w = set_last-Wrote [] b'{' b'[' w
  open_array-Wrote json false w = w
  open_array-Wrote lua true w = w
  open_array-Wrote lua false w = w

  close_table-Wrote :
      (dialect : Dialect) (is_array : Bool) {d r : Dynstr} (xs : List ℕ)
      → Wrote d (xs ++ b',' ∷ []) r
      → Wrote d (xs ++ close_bracket dialect is_array ∷ []) (close_table a dialect is_array r)
  close_table-Wrote dialect is_array {d} {r} xs w =
      let pos : ltb 0 r.length ≡ true =
        lt→ltb _ _ (omega (arith, w.emitted.counts, length-append xs (b',' ∷ []))) in
      rw pos (set_last-Wrote xs b',' (close_bracket dialect is_array) w)

  close_empty-Wrote :
      (dialect : Dialect) {d r : Dynstr}
      → Wrote d (b'{' ∷ []) r
      → d.length + 2 ≤ max_length
      → Wrote d (empty_open dialect ∷ empty_close dialect ∷ []) (close_empty a dialect r)
  close_empty-Wrote dialect {d} {r} w h =
      let pos : ltb 0 r.length ≡ true = lt→ltb _ _ (omega (arith, w.emitted.counts)) in
      let o = set_last-Wrote [] b'{' (empty_open dialect) w in
      rw pos (
        Wrote-trans (empty_open dialect ∷ []) (empty_close dialect ∷ []) o (
          puts-Wrote a g (set_last r (empty_open dialect)) (empty_close dialect ∷ [])
            (Wrote-IsGood o) (omega (arith, w.emitted.counts))))

  -- An entry and its comma, behind what has been written since `d`.
  entry-Wrote :
      (dialect : Dialect) (is_array : Bool) (k : Key) (v : Value) {d r : Dynstr} (xs : List ℕ)
      → Wrote d xs r
      → d.length + length (xs ++ ((print_key dialect is_array k ++ print dialect v) ++ b',' ∷ []))
        ≤ max_length
      → ((o : Dynstr)
          → IsGood o
          → o.length + length (print dialect v) ≤ max_length
          → Wrote o (print dialect v) (encode_value a dialect v o))
      → Wrote d (xs ++ ((print_key dialect is_array k ++ print dialect v) ++ b',' ∷ [])) (
          unless_failed
            (start_entry a dialect is_array k r)
            (comma a (encode_value a dialect v (start_entry a dialect is_array k r))))
  entry-Wrote dialect is_array k v {d} {r} xs w h ih =
      let key = print_key dialect is_array k in
      let val = print dialect v in
      let len1 = length-append xs ((key ++ val) ++ b',' ∷ []) in
      let len2 = length-append (key ++ val) (b',' ∷ []) in
      let len3 = length-append key val in
      let keyed = start_entry a dialect is_array k r in
      let p =
        start_entry-Wrote dialect is_array k r (Wrote-IsGood w)
          (omega (arith, w.emitted.counts, len1, len2, len3)) in
      let q =
        ih keyed (Wrote-IsGood p)
          (omega (arith, w.emitted.counts, p.emitted.counts, len1, len2, len3)) in
      let c =
        puts-Wrote a g (encode_value a dialect v keyed) (b',' ∷ []) (Wrote-IsGood q)
          (omega (arith, w.emitted.counts, p.emitted.counts, q.emitted.counts, len1, len2, len3)) in
      rw (p.fine) (
        Wrote-trans xs ((key ++ val) ++ b',' ∷ []) w
          (Wrote-trans (key ++ val) (b',' ∷ []) (Wrote-trans key val p q) c))

  module _ (dialect : Dialect) where
    mutual
      unfolding print encode_value

      value-Wrote :
          (v : Value) (d : Dynstr)
          → IsGood d
          → d.length + length (print dialect v) ≤ max_length
          → Wrote d (print dialect v) (encode_value a dialect v d)
      value-Wrote nil d good h = puts-Wrote a g d (nil_text dialect) good h
      value-Wrote other d good h = Wrote-nil d good
      value-Wrote (boolean b) d good h =
          puts-Wrote a g d (if b then true_text else false_text) good h
      value-Wrote (digits t) d good h = puts-Wrote a g d t good h
      value-Wrote (text t) d good h = encode_string-Wrote t d good h
      value-Wrote (table es) d good h =
          table-Wrote es d (puts a d (b'{' ∷ [])).0 h (λ le. puts-Wrote a g d (b'{' ∷ []) good le)

      table-Wrote :
          (es : Entries) (d r : Dynstr)
          → d.length + length (print_table dialect es) ≤ max_length
          → (d.length + 1 ≤ max_length → Wrote d (b'{' ∷ []) r)
          → Wrote d (print_table dialect es) (encode_table a dialect es r)
      table-Wrote end d r h w = close_empty-Wrote dialect (w (omega arith)) (omega arith)
      table-Wrote (entry k v es) d r h w =
          let is_array = is_number k in
          let key = print_key dialect is_array k in
          let item = key ++ print dialect v in
          let rest = print_rest dialect is_array es in
          let open' = open_bracket dialect is_array ∷ [] in
          let len1 = length-append item (rest ++ close_bracket dialect is_array ∷ []) in
          let len2 = length-append rest (close_bracket dialect is_array ∷ []) in
          let o = open_array-Wrote dialect is_array (w (omega arith)) in
          let first =
            entry-Wrote dialect is_array k v open' o
              (omega (arith, len1, len2, length-append item (b',' ∷ []))) (value-Wrote v) in
          let all =
            entries-Wrote is_array es (open' ++ item) d _
              (omega (
                arith,
                len1,
                len2,
                length-append (item) rest,
                length-append (item ++ rest) (b',' ∷ []),
              ))
              (Wrote-eq (sym (append_assoc open' item (b',' ∷ []))) first) in
          Wrote-eq
            (ap (λ t. open_bracket dialect is_array ∷ t)
              (append_assoc item rest (close_bracket dialect is_array ∷ [])))
            (close_table-Wrote dialect is_array ((open' ++ item) ++ rest) all)

      entries-Wrote :
          (is_array : Bool) (es : Entries) (xs : List ℕ) (d r : Dynstr)
          → d.length + length ((xs ++ print_rest dialect is_array es) ++ b',' ∷ []) ≤ max_length
          → Wrote d (xs ++ b',' ∷ []) r
          → Wrote d
              ((xs ++ print_rest dialect is_array es) ++ b',' ∷ [])
              (encode_entries a dialect is_array es r)
      entries-Wrote is_array end xs d r h w =
          Wrote-eq (ap (λ t. t ++ b',' ∷ []) (sym (append-nil xs))) w
      entries-Wrote is_array (entry k v es) xs d r h w =
          let item = print_key dialect is_array k ++ print dialect v in
          let rest = print_rest dialect is_array es in
          let before = xs ++ b',' ∷ [] in
          let grown = regroup xs item rest in
          let len1 = length-append ((before ++ item) ++ rest) (b',' ∷ []) in
          let len2 = length-append (xs ++ print_rest dialect is_array (entry k v es)) (b',' ∷ []) in
          let len3 = ap length grown in
          let first =
            entry-Wrote dialect is_array k v before w
              (omega (
                arith,
                len1,
                len2,
                len3,
                length-append (before ++ item) rest,
                length-append before item,
                length-append before (item ++ b',' ∷ []),
                length-append item (b',' ∷ []),
              ))
              (value-Wrote v) in
          let all =
            entries-Wrote is_array es (before ++ item) d _ (omega (arith, len1, len2, len3))
              (Wrote-eq (sym (append_assoc before item (b',' ∷ []))) first) in
          Wrote-eq (ap (λ t. t ++ b',' ∷ []) grown) all
