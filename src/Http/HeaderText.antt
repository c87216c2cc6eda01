-- ===== src/Http/HeaderText.antt =====
-- runtime/sprout_runtime.c: http_headers_fill, the text of a header block.
use Prim.Native.Nat.{bit_and, bit_or}
use sprout_lang.Prelude.{
  ℕ, zero, suc, ◌/◌, ◌^◌, Bool, true, false, ltb, if◌then◌else◌, List, [], ◌∷◌, ◌++◌, length,
}
use sprout_lang.Text.{Verdict, valid, invalid, utf8_validate}
use sprout_lang.Http.Scan.{take_while, drop_while}
use sprout_lang.Http.Chunked.{in_line}

abbrev pub is_valid : Verdict → Bool
is_valid valid = true
is_valid (invalid reason) = false

unfoldable pub utf8_valid : List ℕ → Bool
utf8_valid bytes = is_valid (utf8_validate bytes)

-- A byte read as ISO-8859-1.
unfoldable pub latin_1 : ℕ → List ℕ
latin_1 b =
    if ltb b 0x80 then b ∷ [] else bit_or 0xC0 (b / 2 ^ 6) ∷ bit_or 0x80 (bit_and b 0x3F) ∷ []

unfoldable pub latin_1_all : List ℕ → List ℕ
latin_1_all [] = []
latin_1_all (b ∷ s) = latin_1 b ++ latin_1_all s

-- A line, and what is taken of the block: the line, and its newline if there is one.
unfoldable pub fill_line : List ℕ → List ℕ → List ℕ
fill_line line taken = if utf8_valid line then taken else latin_1_all taken

abbrev pub fill_next : (List ℕ → List ℕ) → List ℕ → List ℕ → List ℕ
fill_next go line [] = fill_line line line
fill_next go line (newline ∷ rest) = fill_line line (line ++ (newline ∷ [])) ++ go rest

-- A round takes a byte at least.
unfoldable pub fill_lines : ℕ → List ℕ → List ℕ
fill_lines zero src = []
fill_lines (suc fuel) [] = []
fill_lines (suc fuel) (c ∷ s) =
    fill_next (fill_lines fuel) (take_while in_line (c ∷ s)) (drop_while in_line (c ∷ s))

unfoldable pub http_headers_fill : List ℕ → List ℕ
http_headers_fill src = fill_lines (length src) src
