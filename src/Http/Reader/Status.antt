-- ===== src/Http/Reader/Status.antt =====
-- strtoll in base 10, as runtime/sprout_runtime.c uses it on a status code.
use sprout_lang.Prelude.{
  ℕ, suc, ◌+◌, ◌-◌, ◌*◌, Bool, true, false, ◌||◌, ◌&&◌, ltb, leb, ◌==◌, if◌then◌else◌, List, [],
  ◌∷◌, length, min,
}
use sprout_lang.Prelude.Int.{ℤ, pos, negsuc}
use sprout_lang.Http.Scan.{take_while, drop_while}
use sprout_lang.Http.Headers.{is_digit, no_bytes}

abbrev pub is_c_space : ℕ → Bool
is_c_space c = c == b' ' || leb 9 c && leb c 13

unfoldable pub digits_value : ℕ → List ℕ → ℕ
digits_value value [] = value
digits_value value (c ∷ s) = digits_value (value * 10 + (c - b'0')) s

-- The number of a sign and digits, with the bytes up to its end; it stays in a long long.
abbrev pub number : ℕ → Bool → List ℕ → ℤ × ℕ
number before negative digits =
    let value = digits_value 0 digits in
    if no_bytes digits then (pos 0, 0) else (
      (if negative && ltb 0 value
          then negsuc (min value 9223372036854775808 - 1)
          else pos (min value 9223372036854775807)),
      before + length digits,
    )

abbrev pub signed : ℕ → List ℕ → ℤ × ℕ
signed before [] = (pos 0, 0)
signed before (c ∷ s) =
    if c == b'-'
    then number (suc before) true (take_while is_digit s)
    else if c == b'+'
    then number (suc before) false (take_while is_digit s)
    else number before false (take_while is_digit (c ∷ s))

-- The value, and how many bytes it took: none when there is no number.
unfoldable pub strtoll : List ℕ → ℤ × ℕ
strtoll s = signed (length (take_while is_c_space s)) (drop_while is_c_space s)
