-- ===== src/Codec/Encode/Print.antt =====
-- The text that src/80s/lua_codec.c means to write for a Lua value, by itself.
use s.Common.{if◌then◌else◌, ℕ, Bool, true, false, List, [], ◌∷◌, ◌++◌}
use s.Codec.Encode.{
  Key, Value, nil, other, boolean, digits, text, table, Entries, end, entry, Dialect, json, lua,
  all_calls, quote, key_text, is_number, true_text, false_text, nil_text, close_bracket, empty_open,
  empty_close,
}

abbrev pub flatten : List (List ℕ) → List ℕ
flatten [] = []
flatten (p ∷ ps) = p ++ flatten ps

abbrev pub print_string : List ℕ → List ℕ
print_string t = quote ++ (flatten (all_calls t) ++ quote)

abbrev pub print_key : Dialect → Bool → Key → List ℕ
print_key d true k = []
print_key json false k = print_string (key_text k) ++ b':' ∷ []
print_key lua false k = b'[' ∷ (print_string (key_text k) ++ b']' ∷ b'=' ∷ [])

abbrev pub open_bracket : Dialect → Bool → ℕ
open_bracket json true = b'['
open_bracket _ _ = b'{'

-- A table is its entries between brackets, with commas between them; the first key tells whether
-- it is an array, of which the keys are left out.
unfoldable mutual
  pub print : Dialect → Value → List ℕ
  print d (table es) = print_table d es
  print d nil = nil_text d
  print d other = []
  print d (boolean b) = if b then true_text else false_text
  print d (digits t) = t
  print d (text t) = print_string t

  pub print_table : Dialect → Entries → List ℕ
  print_table d end = empty_open d ∷ empty_close d ∷ []
  print_table d (entry k v es) =
      open_bracket d (is_number k)
      ∷ ((print_key d (is_number k) k ++ print d v)
          ++ (print_rest d (is_number k) es ++ close_bracket d (is_number k) ∷ []))

  pub print_rest : Dialect → Bool → Entries → List ℕ
  print_rest d is_array end = []
  print_rest d is_array (entry k v es) =
      b',' ∷ ((print_key d is_array k ++ print d v) ++ print_rest d is_array es)
