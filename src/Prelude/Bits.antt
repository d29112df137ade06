-- ===== src/Prelude/Bits.antt =====
-- `&` and `|` with one bit or with disjoint fields, as arithmetic, at every width.
use Prim.Native.Nat.{
  ℕ, zero, suc, ◌+◌, ◌*◌, ◌/◌, ◌%◌, ◌^◌, ◌≤◌, ◌<◌, min, max, bit_and, bit_or, digits,
}
use Prim.Native.Nat.{bit_and-bitwise, bit_or-bitwise}
use mathlib.Core.Path.{◌≡◌, refl, sym, ap}
use native.Mathlib.Nat.{pow-suc, div-div-eq-div-mul}
use native.Mathlib.Omega.{arith}

-- The digit recursion behind the native operations does not depend on its fuel.
digits-enough :
    (z : ℕ → ℕ) (f : ℕ → ℕ → ℕ) (n m a b : ℕ) → a ≤ n → a ≤ m → digits z f n a b ≡ digits z f m a b
digits-enough z f zero zero a b p q = refl
digits-enough z f zero (suc m) zero b p q = refl
digits-enough z f zero (suc m) (suc a) b p q = absurd (omega arith)
digits-enough z f (suc n) zero zero b p q = refl
digits-enough z f (suc n) zero (suc a) b p q = absurd (omega arith)
digits-enough z f (suc n) (suc m) zero b p q = refl
digits-enough z f (suc n) (suc m) (suc a) b p q =
    rw (digits-enough z f n m (suc a / 2) (b / 2) (omega arith) (omega arith))

digits_top :
    (z : ℕ → ℕ) (f : ℕ → ℕ → ℕ) (a b : ℕ)
    → digits z f (suc a) (suc a) b
      ≡ digits z f (suc a / 2) (suc a / 2) (b / 2) * 2 + f (suc a % 2) (b % 2)
digits_top z f a b =
    omega (arith, digits-enough z f a (suc a / 2) (suc a / 2) (b / 2) (omega arith) (omega arith))

pub bit_or-halves : (a b : ℕ) → bit_or a b ≡ bit_or (a / 2) (b / 2) * 2 + max (a % 2) (b % 2)
bit_or-halves zero b = simp bit_or-bitwise (omega arith)
bit_or-halves (suc a) b = simp bit_or-bitwise (digits_top (λ y. y) max a b)

pub bit_and-halves : (a b : ℕ) → bit_and a b ≡ bit_and (a / 2) (b / 2) * 2 + min (a % 2) (b % 2)
bit_and-halves zero b = simp bit_and-bitwise (omega arith)
bit_and-halves (suc a) b = simp bit_and-bitwise (digits_top (λ y. 0) min a b)

bit_and-zero_upto : (n a : ℕ) → a ≤ n → bit_and a 0 ≡ 0
bit_and-zero_upto n zero h = refl
bit_and-zero_upto zero (suc a) h = absurd (omega arith)
bit_and-zero_upto (suc n) (suc a) h =
    omega (arith, bit_and-halves (suc a) 0, bit_and-zero_upto n (suc a / 2) (omega arith))

pub bit_and-zero : (a : ℕ) → bit_and a 0 ≡ 0
bit_and-zero a = bit_and-zero_upto a a (omega arith)

pub zero-bit_or : (b : ℕ) → bit_or 0 b ≡ b
zero-bit_or b = simp bit_or-bitwise (omega arith)

pow_double : (k : ℕ) → 2 ^ suc k ≡ 2 * 2 ^ k
pow_double k = omega (arith, pow-suc 2 k)

mul-pow_double : (q k : ℕ) → q * 2 ^ suc k ≡ 2 * (q * 2 ^ k)
mul-pow_double q k = omega (arith, ap (λ (t : ℕ). q * t) (pow_double k))

div-pow_double : (a k : ℕ) → a / 2 ^ suc k ≡ a / 2 / 2 ^ k
div-pow_double a k = rw pow_double (sym (div-div-eq-div-mul a 2 (2 ^ k)))

-- `a & (1 << k)` keeps the bit at its place.
pub bit_and-pow : (k a : ℕ) → bit_and a (2 ^ k) ≡ a / 2 ^ k % 2 * 2 ^ k
bit_and-pow zero a = omega (arith, bit_and-halves a 1, bit_and-zero (a / 2))
bit_and-pow (suc k) a = ground (
  arith,
  bit_and-halves a (2 ^ suc k),
  pow_double k,
  div-pow_double a k,
  mul-pow_double (a / 2 / 2 ^ k % 2) k,
  bit_and-pow k (a / 2),
)

-- `a | (q << k)` is a sum when `a` fits `k` bits.
pub bit_or-shifted : (k q a : ℕ) → a < 2 ^ k → bit_or a (q * 2 ^ k) ≡ a + q * 2 ^ k
bit_or-shifted zero q a fits = ground (arith, zero-bit_or q)
bit_or-shifted (suc k) q a fits = ground (
  arith,
  bit_or-halves a (q * 2 ^ suc k),
  pow_double k,
  mul-pow_double q k,
  bit_or-shifted k q (a / 2),
)

bit_or-zero_upto : (n a : ℕ) → a ≤ n → bit_or a 0 ≡ a
bit_or-zero_upto n zero h = refl
bit_or-zero_upto zero (suc a) h = absurd (omega arith)
bit_or-zero_upto (suc n) (suc a) h =
    omega (arith, bit_or-halves (suc a) 0, bit_or-zero_upto n (suc a / 2) (omega arith))

zero-bit_and : (b : ℕ) → bit_and 0 b ≡ 0
zero-bit_and b = simp bit_and-bitwise refl

pub bit_or-zero : (a : ℕ) → bit_or a 0 ≡ a
bit_or-zero a = bit_or-zero_upto a a (omega arith)

-- The same with the arguments turned round.
pub bit_or-below : (k q a : ℕ) → a < 2 ^ k → bit_or (q * 2 ^ k) a ≡ q * 2 ^ k + a
bit_or-below zero q a fits = ground (arith, bit_or-zero q)
bit_or-below (suc k) q a fits = ground (
  arith,
  bit_or-halves (q * 2 ^ suc k) a,
  pow_double k,
  mul-pow_double q k,
  bit_or-below k q (a / 2),
)

-- `a | (1 << k)` is a sum when the bits of `a` lie above `k`.
pub bit_or-low : (k q : ℕ) → bit_or (2 * q * 2 ^ k) (2 ^ k) ≡ (2 * q + 1) * 2 ^ k
bit_or-low zero q = grind (arith, bit_or-halves (2 * q * 1) 1, bit_or-zero q)
bit_or-low (suc k) q = ground (
  arith,
  bit_or-halves (2 * q * 2 ^ suc k) (2 ^ suc k),
  pow_double k,
  mul-pow_double (2 * q) k,
  mul-pow_double (2 * q + 1) k,
  bit_or-low k q,
)

pub div-pow_half : (a k : ℕ) → a / 2 ^ suc k ≡ a / 2 ^ k / 2
div-pow_half a k = rw (pow-suc 2 k) (sym (div-div-eq-div-mul a (2 ^ k) 2))

pub mul-pow_suc : (q k : ℕ) → q * 2 ^ suc k ≡ 2 * q * 2 ^ k
mul-pow_suc q k = ground (arith, mul-pow_double q k)

-- The bits of `|` and of `&` are bits of their arguments.
pub bit_or-lt : (k a b : ℕ) → a < 2 ^ k → b < 2 ^ k → bit_or a b < 2 ^ k
bit_or-lt zero a b ha hb = grind (arith, bit_or-zero a)
bit_or-lt (suc k) a b ha hb =
    ground (arith, bit_or-halves a b, pow_double k, bit_or-lt k (a / 2) (b / 2))

pub bit_and-lt : (k a b : ℕ) → a < 2 ^ k → bit_and a b < 2 ^ k
bit_and-lt zero a b ha = ground (arith, zero-bit_and b)
bit_and-lt (suc k) a b ha =
    ground (arith, bit_and-halves a b, pow_double k, bit_and-lt k (a / 2) (b / 2))
