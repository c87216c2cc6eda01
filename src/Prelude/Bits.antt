-- ===== src/Prelude/Bits.antt =====
-- `bit_and` with a mask of ones, `bit_or` of parts that do not overlap, and tables over bytes.
-- `x << k` is written `x * 2 ^ k` and `x >> k` is written `x / 2 ^ k`.
use Prim.Native.Nat.{bit_and, bit_or, bit_xor, digits, bit_and-bitwise, bit_or-bitwise, min, max}
use Prim.Native.Nat.{ℕ, zero, suc, ◌+◌, ◌*◌, ◌/◌, ◌%◌, ◌≤◌, ◌<◌}
use mathlib.Core.Path.{◌≡◌, refl}
use mathlib.Core.Logic.{inl, inr}
use mathlib.Core.Bool.{Bool, true, false, not, ◌&&◌}
use native.Mathlib.Omega.{arith}
use sprout_lang.Prelude.Tests.{◌==◌, ==_iff, ltb, ltb→lt, ltb_false→le, Bool-cases}

-- A test at every number under a bound, from the bound down.
unfoldable pub every : (ℕ → Bool) → ℕ → Bool
every test zero = true
every test (suc bound) = every test bound && test bound

pub every-holds :
    (test : ℕ → Bool) (bound x : ℕ) → every test bound ≡ true → x < bound → test x ≡ true
unfolding every
every-holds test zero x all small = absurd (omega arith)
every-holds test (suc bound) x all small = elim (Bool-cases (ltb x bound)) [
  | inl less ↦ every-holds test bound x (ground arith) (ltb→lt x bound less)
  | inr other ↦
      let here : x ≡ bound = omega (arith, ltb_false→le x bound other) in rw here (ground arith)
]

unfoldable pub same : Bool → Bool → Bool
same true b = b
same false b = not b

same_sound : (a b : Bool) → same a b ≡ true → a ≡ b
unfolding same
same_sound a b h = ground arith

-- Two tests that agree at every number under a bound, by evaluation.
pub tests_agree :
    (bound : ℕ) (f g : ℕ → Bool)
    → every (λ x. same (f x) (g x)) bound ≡ true
    → (x : ℕ) → x < bound
    → f x ≡ g x
tests_agree bound f g all x small =
    same_sound (f x) (g x) (every-holds (λ y. same (f y) (g y)) bound x all small)

-- Both operations run over the digits of their first number on fuel, and all fuel that reaches that
-- number gives one result.
module _ (low : ℕ → ℕ) (op : ℕ → ℕ → ℕ) where
  abbrev Settled : (fuel x y : ℕ) → Type 0
  Settled fuel x y = digits low op fuel x y ≡ digits low op x x y

  by_halves :
      (fuel x y : ℕ)
      → suc x ≤ suc fuel
      → digits low op fuel (suc x / 2) (y / 2) ≡ digits low op (suc x / 2) (suc x / 2) (y / 2)
      → digits low op x (suc x / 2) (y / 2) ≡ digits low op (suc x / 2) (suc x / 2) (y / 2)
      → Settled (suc fuel) (suc x) y
  by_halves fuel x y h e k = omega (arith, e, k)

  settle : (most fuel x y : ℕ) → fuel ≤ most → x ≤ fuel → Settled fuel x y
  settle most zero zero y m h = refl
  settle most zero (suc x) y m h = absurd (omega arith)
  settle most (suc fuel) zero y m h = refl
  settle zero (suc fuel) (suc x) y m h = absurd (omega arith)
  settle (suc most) (suc fuel) (suc x) y m h =
      by_halves fuel x y h (settle most fuel (suc x / 2) (y / 2) (omega arith) (omega arith))
        (settle most x (suc x / 2) (y / 2) (omega arith) (omega arith))

and_halves : (x y : ℕ) → bit_and x y ≡ bit_and (x / 2) (y / 2) * 2 + min (x % 2) (y % 2)
and_halves zero y = omega (arith, bit_and-bitwise 0 (y / 2), bit_and-bitwise 0 y)
and_halves (suc x) y =
    let enough = settle (λ _. 0) min x x (suc x / 2) (y / 2) (omega arith) (omega arith) in
    omega (arith, enough, bit_and-bitwise (suc x / 2) (y / 2), bit_and-bitwise (suc x) y)

or_halves : (x y : ℕ) → bit_or x y ≡ bit_or (x / 2) (y / 2) * 2 + max (x % 2) (y % 2)
or_halves zero y = omega (arith, bit_or-bitwise 0 (y / 2), bit_or-bitwise 0 y)
or_halves (suc x) y =
    let enough = settle (λ t. t) max x x (suc x / 2) (y / 2) (omega arith) (omega arith) in
    omega (arith, enough, bit_or-bitwise (suc x / 2) (y / 2), bit_or-bitwise (suc x) y)

and_nothing : (most x : ℕ) → x ≤ most → bit_and x 0 ≡ 0
and_nothing most zero h = refl
and_nothing zero (suc x) h = absurd (omega arith)
and_nothing (suc most) (suc x) h =
    omega (arith, and_nothing most (suc x / 2) (omega arith), and_halves (suc x) 0)

or_nothing : (most x : ℕ) → x ≤ most → bit_or x 0 ≡ x
or_nothing most zero h = refl
or_nothing zero (suc x) h = absurd (omega arith)
or_nothing (suc most) (suc x) h =
    omega (arith, or_nothing most (suc x / 2) (omega arith), or_halves (suc x) 0)

-- `x & (2^k - 1)` for the masks that the runtime uses.
mask_1 : (x : ℕ) → bit_and x 1 ≡ x % 2
mask_1 x = omega (arith, and_nothing (x / 2) (x / 2) (omega arith), and_halves x 1)

pub mask_3 : (x : ℕ) → bit_and x 3 ≡ x % 4
mask_3 x = omega (arith, mask_1 (x / 2), and_halves x 3)

pub mask_7 : (x : ℕ) → bit_and x 7 ≡ x % 8
mask_7 x = omega (arith, mask_3 (x / 2), and_halves x 7)

pub mask_15 : (x : ℕ) → bit_and x 15 ≡ x % 16
mask_15 x = omega (arith, mask_7 (x / 2), and_halves x 15)

pub mask_31 : (x : ℕ) → bit_and x 31 ≡ x % 32
mask_31 x = omega (arith, mask_15 (x / 2), and_halves x 31)

pub mask_63 : (x : ℕ) → bit_and x 63 ≡ x % 64
mask_63 x = omega (arith, mask_31 (x / 2), and_halves x 63)

-- A number shifted up, joined with one that fits below.
or_double : (a b : ℕ) → bit_or (a * 2) b ≡ bit_or a (b / 2) * 2 + b % 2
or_double a b =
    let half : a * 2 / 2 ≡ a = omega arith in rw (or_halves (a * 2) b, half) (omega arith)

abbrev shift : ℕ → ℕ → ℕ
shift a zero = a
shift a (suc k) = shift a k * 2

bit_or-shift : (k a b : ℕ) → b < shift 1 k → bit_or (shift a k) b ≡ shift a k + b
bit_or-shift zero a b h =
    let none : b ≡ 0 = omega arith in rw none (omega (arith, or_nothing a a (omega arith)))
bit_or-shift (suc k) a b h =
    omega (arith, or_double (shift a k) b, bit_or-shift k a (b / 2) (omega arith))

pub bit_or_4 : (a b : ℕ) → b < 4 → bit_or (a * 4) b ≡ a * 4 + b
bit_or_4 a b h =
    let shifted : a * 4 ≡ shift a 2 = omega arith in rw shifted (bit_or-shift 2 a b (omega arith))

pub bit_or_8 : (a b : ℕ) → b < 8 → bit_or (a * 8) b ≡ a * 8 + b
bit_or_8 a b h =
    let shifted : a * 8 ≡ shift a 3 = omega arith in rw shifted (bit_or-shift 3 a b (omega arith))

pub bit_or_16 : (a b : ℕ) → b < 16 → bit_or (a * 16) b ≡ a * 16 + b
bit_or_16 a b h =
    let shifted : a * 16 ≡ shift a 4 = omega arith in rw shifted (bit_or-shift 4 a b (omega arith))

pub bit_or_64 : (a b : ℕ) → b < 64 → bit_or (a * 64) b ≡ a * 64 + b
bit_or_64 a b h =
    let shifted : a * 64 ≡ shift a 6 = omega arith in rw shifted (bit_or-shift 6 a b (omega arith))

pub bit_or_4096 : (a b : ℕ) → b < 4096 → bit_or (a * 4096) b ≡ a * 4096 + b
bit_or_4096 a b h =
    let shifted : a * 4096 ≡ shift a 12 = omega arith in
    rw shifted (bit_or-shift 12 a b (omega arith))

pub bit_or_262144 : (a b : ℕ) → b < 262144 → bit_or (a * 262144) b ≡ a * 262144 + b
bit_or_262144 a b h =
    let shifted : a * 262144 ≡ shift a 18 = omega arith in
    rw shifted (bit_or-shift 18 a b (omega arith))

pub bit_or_4294967296 : (a b : ℕ) → b < 4294967296 → bit_or (a * 4294967296) b ≡ a * 4294967296 + b
bit_or_4294967296 a b h =
    let shifted : a * 4294967296 ≡ shift a 32 = omega arith in
    rw shifted (bit_or-shift 32 a b (omega arith))

xor_table : every (λ x. every (λ y. bit_xor (bit_xor x y) y == x) 256) 256 ≡ true
unfolding every
xor_table = refl

-- Bytes: a second XOR with the same byte undoes the first.
pub xor_twice : (x y : ℕ) → x < 256 → y < 256 → bit_xor (bit_xor x y) y ≡ x
xor_twice x y p q =
    let row = every-holds (λ u. every (λ w. bit_xor (bit_xor u w) w == u) 256) 256 x xor_table p in
    (==_iff (bit_xor (bit_xor x y) y) x).0
      (every-holds (λ w. bit_xor (bit_xor x w) w == x) 256 y row q)
