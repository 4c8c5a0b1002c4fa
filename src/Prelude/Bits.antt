-- ===== src/Prelude/Bits.antt =====
-- The binary digits of a number, and how `&`, `|`, `~`, shifts and wrap-around act on them.
use Prim.Native.Nat.{
  ℕ, zero, suc, ◌+◌, ◌-◌, ◌*◌, ◌/◌, ◌%◌, ◌^◌, ◌≤◌, ◌<◌, min, max, digits, bit_and, bit_or,
  bit_and-bitwise, bit_or-bitwise,
}
use mathlib.Core.Path.{◌≡◌, refl, ap, ◌∙◌, sym}
use native.Mathlib.Nat.{
  one-le-pow, mul-add-mod_self_left, mod-eq_of_lt, mod-lt, div-add-mod, div-div-eq-div-mul,
  pow-succ',
}
use native.Mathlib.Omega.{arith}
use mem_hawk.Prelude.Tests.{ltb, if◌then◌else◌}

-- Digit `i` of `x`, 0 or 1.
pub bit : ℕ → ℕ → ℕ
bit x zero = x % 2
bit x (suc i) = bit (x / 2) i

pub bit-lt : (x i : ℕ) → bit x i < 2
unfolding bit
bit-lt x zero = omega arith
bit-lt x (suc i) = bit-lt (x / 2) i

pub bit_zero : (i : ℕ) → bit 0 i ≡ 0
unfolding bit
bit_zero zero = refl
bit_zero (suc i) = bit_zero i

double_pow : (k : ℕ) → 2 ^ suc k ≡ 2 * 2 ^ k
double_pow k = pow-succ' 2 k

-- An operation on digits, by the recursion that the native operations stand for: `z` is its result
-- where the first number has run out, `f` its table.
module _ (z : ℕ → ℕ) (f : ℕ → ℕ → ℕ) (table : (x y : ℕ) → x < 2 → y < 2 → f x y < 2) where
  bit-digits :
      ((b i : ℕ) → bit (z b) i ≡ f 0 (bit b i))
      → (fuel a b i : ℕ) → a ≤ fuel
      → bit (digits z f fuel a b) i ≡ f (bit a i) (bit b i)
  unfolding bit
  bit-digits run_out fuel zero b i h = by_fuel fuel
    where
      by_fuel : (m : ℕ) → bit (digits z f m 0 b) i ≡ f (bit 0 i) (bit b i)
      by_fuel zero = rw (bit_zero i) (run_out b i)
      by_fuel (suc m) = rw (bit_zero i) (run_out b i)
  bit-digits run_out zero (suc a) b i h = absurd (omega arith)
  bit-digits run_out (suc fuel) (suc a) b zero h =
      omega (arith, table (suc a % 2) (b % 2) (omega arith) (omega arith))
  bit-digits run_out (suc fuel) (suc a) b (suc i) h =
      let halved : digits z f (suc fuel) (suc a) b / 2 ≡ digits z f fuel (suc a / 2) (b / 2) =
        omega (arith, table (suc a % 2) (b % 2) (omega arith) (omega arith)) in
      rw halved (bit-digits run_out fuel (suc a / 2) (b / 2) i (omega arith))

  digits-lt :
      ((k b : ℕ) → b < 2 ^ k → z b < 2 ^ k)
      → (fuel k a b : ℕ) → a < 2 ^ k
      → b < 2 ^ k
      → digits z f fuel a b < 2 ^ k
  digits-lt small zero k a b p q = small k b q
  digits-lt small (suc fuel) k zero b p q = small k b q
  digits-lt small (suc fuel) zero (suc a) b p q = absurd (omega arith)
  digits-lt small (suc fuel) (suc k) (suc a) b p q = omega (
    arith,
    double_pow k,
    table (suc a % 2) (b % 2) (omega arith) (omega arith),
    digits-lt small fuel k (suc a / 2) (b / 2) (omega (arith, double_pow k))
        (omega (arith, double_pow k)),
  )

pub bit-bit_or : (a b i : ℕ) → bit (bit_or a b) i ≡ max (bit a i) (bit b i)
bit-bit_or a b i =
    rw (bit_or-bitwise a b)
      (bit-digits (λ y. y) max (λ x y p q. omega arith) (λ c j. omega arith) a a b i (omega arith))

pub bit-bit_and : (a b i : ℕ) → bit (bit_and a b) i ≡ min (bit a i) (bit b i)
bit-bit_and a b i = rw (bit_and-bitwise a b) (
    bit-digits (λ y. 0) min (λ x y p q. omega arith) (λ c j. omega (arith, bit_zero j)) a a b i
      (omega arith))

-- A right shift.
pub bit-div : (k x i : ℕ) → bit (x / 2 ^ k) i ≡ bit x (k + i)
unfolding bit
bit-div zero x i =
    let a : x / 2 ^ 0 ≡ x = omega arith in let b : 0 + i ≡ i = omega arith in rw (a, b)
bit-div (suc k) x i =
    let a : x / 2 ^ suc k ≡ x / 2 / 2 ^ k =
      rw (double_pow k) (sym (div-div-eq-div-mul x 2 (2 ^ k))) in
    let b : suc k + i ≡ suc (k + i) = omega arith in rw (a, b) (bit-div k (x / 2) i)

-- A left shift.
pub bit-mul : (k x i : ℕ) → bit (x * 2 ^ k) i ≡ (if ltb i k then 0 else bit x (i - k))
unfolding bit
bit-mul zero x i =
    let a : x * 2 ^ 0 ≡ x = omega arith in
    let b : i - 0 ≡ i = omega arith in rw (a, b) (ground arith)
bit-mul (suc k) x zero = ground (arith, double_pow k, ap (λ (t : ℕ). x * t) (double_pow k))
bit-mul (suc k) x (suc i) =
    let a : x * 2 ^ suc k / 2 ≡ x * 2 ^ k =
      omega (arith, double_pow k, ap (λ (t : ℕ). x * t) (double_pow k)) in
    let b : suc i - suc k ≡ i - k = omega arith in rw (a, b) (ground (arith, bit-mul k x i))

half_mod : (n x : ℕ) → (x % 2 ^ suc n / 2 ≡ x / 2 % 2 ^ n) × (x % 2 ^ suc n % 2 ≡ x % 2)
half_mod n x = (omega (arith, whole), omega (arith, whole))
  where
    t : ℕ
    t = 2 ^ n

    y : ℕ
    y = x / 2

    pos : 0 < t
    pos = one-le-pow n 2 (omega arith)

    small : 2 * (y % t) + x % 2 < 2 * t
    small = omega (arith, mod-lt y {m = t} pos)

    split : 2 * t * (y / t) + (2 * (y % t) + x % 2) ≡ x
    split = omega (arith, div-add-mod y t)

    whole : x % 2 ^ suc n ≡ 2 * (y % t) + x % 2
    whole = rw (double_pow n) (
        ap (λ (u : ℕ). u % (2 * t)) (sym split)
        ∙ (mul-add-mod_self_left (2 * t) (y / t) (2 * (y % t) + x % 2) ∙ mod-eq_of_lt small))

-- Wrap-around.
pub bit-mod : (n x i : ℕ) → bit (x % 2 ^ n) i ≡ (if ltb i n then bit x i else 0)
unfolding bit
bit-mod zero x i = let a : x % 2 ^ 0 ≡ 0 = omega arith in rw a (ground (arith, bit_zero i))
bit-mod (suc n) x zero = ground (arith, (half_mod n x).1)
bit-mod (suc n) x (suc i) = rw ((half_mod n x).0) (ground (arith, bit-mod n (x / 2) i))

-- `~x` in `n` bits.
pub bit-not : (n x i : ℕ) → x < 2 ^ n → i < n → bit (2 ^ n - 1 - x) i ≡ 1 - bit x i
unfolding bit
bit-not zero x i h k = elim k [ ]
bit-not (suc n) x zero h k = omega (arith, double_pow n)
bit-not (suc n) x (suc i) h k =
    let a : (2 ^ suc n - 1 - x) / 2 ≡ 2 ^ n - 1 - x / 2 = omega (arith, double_pow n) in
    rw a (bit-not n (x / 2) i (omega (arith, double_pow n)) (omega arith))

-- Two numbers of `n` bits with the same digits are one.
pub bit_ext : (n x y : ℕ) → x < 2 ^ n → y < 2 ^ n → ((i : ℕ) → i < n → bit x i ≡ bit y i) → x ≡ y
unfolding bit
bit_ext zero x y hx hy h = omega arith
bit_ext (suc n) x y hx hy h = omega (
  arith,
  h 0 (omega arith),
  bit_ext n (x / 2) (y / 2) (omega (arith, double_pow n)) (omega (arith, double_pow n))
      (λ i k. h (suc i) (omega arith)),
)

-- A number of `n` bits has no digit from `n` on.
pub bit_above : (n x i : ℕ) → x < 2 ^ n → n ≤ i → bit x i ≡ 0
bit_above n x i h k =
    let a : x % 2 ^ n ≡ x = mod-eq_of_lt h in rw (← a) (ground (arith, bit-mod n x i))

pub bit_or-lt : (n a b : ℕ) → a < 2 ^ n → b < 2 ^ n → bit_or a b < 2 ^ n
bit_or-lt n a b p q =
    rw (bit_or-bitwise a b)
      (digits-lt (λ y. y) max (λ x y r s. omega arith) (λ k c h. h) a n a b p q)

pub bit_first : (x : ℕ) → bit x 0 ≡ x % 2
unfolding bit
bit_first x = refl

pub bit_rest : (x i : ℕ) → bit x (suc i) ≡ bit (x / 2) i
unfolding bit
bit_rest x i = refl

digits_none : (fuel a : ℕ) → digits (λ y. 0) min fuel a 0 ≡ 0
digits_none zero zero = refl
digits_none zero (suc a) = refl
digits_none (suc fuel) zero = refl
digits_none (suc fuel) (suc a) = omega (arith, digits_none fuel (suc a / 2))

-- `x & 1`
pub bit_and_one : (x : ℕ) → bit_and x 1 ≡ x % 2
bit_and_one zero = rw (bit_and-bitwise 0 1) refl
bit_and_one (suc x) = rw (bit_and-bitwise (suc x) 1) (omega (arith, digits_none x (suc x / 2)))
