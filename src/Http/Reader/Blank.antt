-- ===== src/Http/Reader/Blank.antt =====
-- The scan of http_reader_step for the blank line, when more bytes follow.
use mathlib.Core.List.{append_assoc}
use sprout_lang.Prelude.{
  ℕ, zero, suc, ◌+◌, ◌≤◌, ◌<◌, Bool, true, false, ◌&&◌, ltb, if◌then◌else◌, List, [], ◌∷◌, ◌++◌,
  ◌≡◌, refl, sym, ap, ◌∙◌, inl, inr, length, length-append, drop, Bool-cases, arith,
}
use sprout_lang.Http.Scan.{
  All, Scanned, whole, stops, scan-Scanned, drop_while-whole, take_while-stops, drop_while-stops,
  length-stops,
}
use sprout_lang.Http.Chunked.{in_line}
use sprout_lang.Http.Headers.{no_bytes}
use sprout_lang.Http.Reader.{drop_cr, HeadEnd, unfinished, blank, find_blank}

-- Behind a line.
rest_of :
    (front : List ℕ) (c : ℕ) (rest : List ℕ)
    → drop (suc (length front)) (front ++ (c ∷ rest)) ≡ rest
rest_of [] c rest = refl
rest_of (d ∷ front) c rest = rest_of front c rest

-- A scan with one line in front of it.
find_line :
    (fuel scan lines c : ℕ) (s front rest : List ℕ)
    → s ≡ front ++ (c ∷ rest)
    → All in_line front
    → in_line c ≡ false
    → find_blank (suc fuel) scan lines s ≡ (
        if ltb 0 lines && no_bytes (drop_cr front)
        then blank lines scan (scan + length front + 1)
        else find_blank fuel (scan + length front + 1) (suc lines) rest)
unfolding find_blank
find_line fuel scan lines c s front rest e a stop =
    let behind : drop (suc (length front)) s ≡ rest =
      ap (drop (suc (length front))) e ∙ rest_of front c rest in
    rw (
      take_while-stops in_line s front rest c e a stop,
      drop_while-stops in_line s front rest c e a stop,
      behind,
    )

find_rest :
    (fuel scan lines : ℕ) (s : List ℕ)
    → All in_line s
    → find_blank fuel scan lines s ≡ unfinished scan lines
unfolding find_blank
find_rest zero scan lines s a = refl
find_rest (suc fuel) scan lines s a = rw (drop_while-whole in_line s a)

same_choice :
    {A : Type 0} (b : Bool) (x y z : A) → y ≡ z → (if b then x else y) ≡ (if b then x else z)
same_choice true x y z e = refl
same_choice false x y z e = e

-- Any two sufficient fuels find the same.
same_scan :
    (fuel fuel' scan lines : ℕ) (s : List ℕ)
    → length s < fuel
    → length s < fuel'
    → Scanned in_line s
    → find_blank fuel scan lines s ≡ find_blank fuel' scan lines s
same_scan zero fuel' scan lines s h h' sc = absurd (omega arith)
same_scan (suc fuel) zero scan lines s h h' sc = absurd (omega arith)
same_scan (suc fuel) (suc fuel') scan lines s h h' (whole a) =
    find_rest (suc fuel) scan lines s a ∙ sym (find_rest (suc fuel') scan lines s a)
same_scan (suc fuel) (suc fuel') scan lines s h h' (stops front c rest e a stop) =
    let size = length-stops in_line s front rest c e a stop in
    find_line fuel scan lines c s front rest e a stop
    ∙ (same_choice (ltb 0 lines && no_bytes (drop_cr front))
          (blank lines scan (scan + length front + 1))
          (find_blank fuel (scan + length front + 1) (suc lines) rest)
          (find_blank fuel' (scan + length front + 1) (suc lines) rest)
          (same_scan fuel fuel' (scan + length front + 1) (suc lines) rest (omega (arith, size))
            (omega (arith, size)) (scan-Scanned in_line rest))
        ∙ sym (find_line fuel' scan lines c s front rest e a stop))

-- What a scan has found, and what the scan on more bytes finds.
pub data Resumed (fuel fuel' scan lines : ℕ) (s more : List ℕ) : Type 0 where
  found :
      (lines' start body : ℕ)
      → find_blank fuel scan lines s ≡ blank lines' start body
      → find_blank fuel' scan lines (s ++ more) ≡ blank lines' start body
      → start < scan + length s
      → Resumed fuel fuel' scan lines s more
  resumes :
      (seen lines' : ℕ)
      → find_blank fuel scan lines s ≡ unfinished (scan + seen) lines'
      → seen ≤ length s
      → ((fuel'' : ℕ)
          → length (drop seen s ++ more) < fuel''
          → find_blank fuel' scan lines (s ++ more)
            ≡ find_blank fuel'' (scan + seen) lines' (drop seen s ++ more))
      → Resumed fuel fuel' scan lines s more

drop-nothing : (n : ℕ) → drop {A = ℕ} n [] ≡ []
drop-nothing zero = refl
drop-nothing (suc n) = refl

pub drop-add : (m n : ℕ) (s : List ℕ) → drop (m + n) s ≡ drop n (drop m s)
drop-add zero n s = ap (λ k. drop k s) (omega arith)
drop-add (suc m) n [] = drop-nothing (suc m + n) ∙ sym (drop-nothing n)
drop-add (suc m) n (c ∷ s) =
    let count : suc m + n ≡ suc (m + n) = omega arith in
    ap (λ k. drop k (c ∷ s)) count ∙ drop-add m n s

line_choice : (b : Bool) (x y : HeadEnd) → b ≡ true → (if b then x else y) ≡ x
line_choice b x y e = rw e

line_other : (b : Bool) (x y : HeadEnd) → b ≡ false → (if b then x else y) ≡ y
line_other b x y e = rw e

-- A line in front of a scan.
module _ (fuel fuel' scan lines c : ℕ) (s front rest more : List ℕ) (e : s ≡ front ++ (c ∷ rest))
    (a : All in_line front) (stop : in_line c ≡ false) where
  e_more : s ++ more ≡ front ++ (c ∷ (rest ++ more))
  e_more = ap (λ t. t ++ more) e ∙ append_assoc front (c ∷ rest) more

  size_lem : length s ≡ length front + suc (length rest)
  size_lem = ap length e ∙ length-append front (c ∷ rest)

  behind_lem : (seen : ℕ) → drop (suc (length front) + seen) s ≡ drop seen rest
  behind_lem seen =
      drop-add (suc (length front)) seen s
      ∙ ap (drop seen) (ap (drop (suc (length front))) e ∙ rest_of front c rest)

  is_blank_line : Bool
  is_blank_line = ltb 0 lines && no_bytes (drop_cr front)

  next : ℕ
  next = scan + length front + 1

  blank-Resumed : is_blank_line ≡ true → Resumed (suc fuel) (suc fuel') scan lines s more
  unfolding is_blank_line next
  blank-Resumed b =
      found lines scan next
        (find_line fuel scan lines c s front rest e a stop
          ∙ line_choice is_blank_line (blank lines scan next)
              (find_blank fuel next (suc lines) rest) b)
        (find_line fuel' scan lines c (s ++ more) front (rest ++ more) e_more a stop
          ∙ line_choice is_blank_line (blank lines scan next)
              (find_blank fuel' next (suc lines) (rest ++ more)) b)
        (omega (arith, size_lem))

  past_line :
      (k : ℕ) (t rest' : List ℕ)
      → t ≡ front ++ (c ∷ rest')
      → is_blank_line ≡ false
      → find_blank (suc k) scan lines t ≡ find_blank k next (suc lines) rest'
  unfolding is_blank_line next
  past_line k t rest' e' b =
      find_line k scan lines c t front rest' e' a stop
      ∙ line_other is_blank_line (blank lines scan next) (find_blank k next (suc lines) rest') b

  later-Resumed :
      is_blank_line ≡ false
      → Resumed fuel fuel' next (suc lines) rest more
      → Resumed (suc fuel) (suc fuel') scan lines s more
  unfolding next
  later-Resumed b (found lines' start body f g inside) =
      found lines' start body (past_line fuel s rest e b ∙ f)
        (past_line fuel' (s ++ more) (rest ++ more) e_more b ∙ g) (omega (arith, size_lem, inside))
  later-Resumed b (resumes seen lines' f few g) =
      let behind = behind_lem seen in
      let place : next + seen ≡ scan + (suc (length front) + seen) = omega arith in
      resumes (suc (length front) + seen) lines'
        (past_line fuel s rest e b ∙ (f ∙ ap (λ n. unfinished n lines') place))
        (omega (arith, size_lem, few))
        (λ fuel'' enough.
          past_line fuel' (s ++ more) (rest ++ more) e_more b
          ∙ (g fuel'' (omega (arith, ap (λ t. length (t ++ more)) behind, enough))
              ∙ (ap (λ n. find_blank fuel'' n lines' (drop seen rest ++ more)) place
                  ∙ ap
                      (λ t.
                        find_blank fuel'' (scan + (suc (length front) + seen)) lines' (t ++ more))
                      (sym behind))))

  line-Resumed :
      Resumed fuel fuel' next (suc lines) rest more
      → Resumed (suc fuel) (suc fuel') scan lines s more
  line-Resumed later = elim (Bool-cases is_blank_line) [
    | inl b ↦ blank-Resumed b
    | inr b ↦ later-Resumed b later
  ]

pub find_blank-Resumed :
    (fuel fuel' scan lines : ℕ) (s more : List ℕ)
    → length s < fuel
    → length (s ++ more) < fuel'
    → Scanned in_line s
    → Resumed fuel fuel' scan lines s more
unfolding next
find_blank-Resumed zero fuel' scan lines s more h h' sc = absurd (omega arith)
find_blank-Resumed (suc fuel) zero scan lines s more h h' sc = absurd (omega arith)
find_blank-Resumed (suc fuel) (suc fuel') scan lines s more h h' (whole a) =
    resumes 0 lines
      (find_rest (suc fuel) scan lines s a ∙ ap (λ n. unfinished n lines) (omega arith))
      (omega arith)
      (λ fuel'' enough.
        same_scan (suc fuel') fuel'' scan lines (s ++ more) h' enough
          (scan-Scanned in_line (s ++ more))
        ∙ ap (λ n. find_blank fuel'' n lines (s ++ more)) (omega arith))
find_blank-Resumed (suc fuel) (suc fuel') scan lines s more h h' (stops front c rest e a stop) =
    let size = length-stops in_line s front rest c e a stop in
    line-Resumed fuel fuel' scan lines c s front rest more e a stop (
      find_blank-Resumed fuel fuel' (scan + length front + 1) (suc lines) rest more
        (omega (arith, size))
        (omega (arith, size, h', length-append s more, length-append rest more))
        (scan-Scanned in_line rest))
