-- ===== src/Bits/At.antt =====
-- Bit `i` of a word, and how the C operators act on it.
use Prim.Native.Nat.{bit_and-bitwise}
use native.Mathlib.Nat.{pow-suc, zero-mul}
use hyparm.Common.{
  ℕ, zero, suc, ◌-◌, ◌*◌, ◌/◌, ◌%◌, ◌^◌, ◌≤◌, ◌<◌, min, max, bit_and, bit_or, ◌≡◌, refl, arith,
  ◌==◌, ◌!=◌, ap, ◌⊎◌, inl, inr, if◌then◌else◌,
}
use hyparm.Bits.Step.{bit_or_step, bit_and_step}

-- `(x >> i) & 1`
unfoldable pub bit_at : ℕ → ℕ → ℕ
bit_at x zero = x % 2
bit_at x (suc i) = bit_at (x / 2) i

-- `~x` on a word of `w` bits.
abbrev pub complement : ℕ → ℕ → ℕ
complement w x = 2 ^ w - 1 - x

-- `~x` on a `u32int`.
abbrev pub not32 : ℕ → ℕ
not32 x = 0xffff_ffff - x

pub bit_at-le-one : (x i : ℕ) → bit_at x i ≤ 1
unfolding bit_at
bit_at-le-one x zero = omega arith
bit_at-le-one x (suc i) = bit_at-le-one (x / 2) i

pub bit_at-bit_or : (a b i : ℕ) → bit_at (bit_or a b) i ≡ max (bit_at a i) (bit_at b i)
unfolding bit_at
bit_at-bit_or a b zero = omega (arith, bit_or_step a b)
bit_at-bit_or a b (suc i) =
    let half : bit_or a b / 2 ≡ bit_or (a / 2) (b / 2) = omega (arith, bit_or_step a b) in
    rw half (bit_at-bit_or (a / 2) (b / 2) i)

pub bit_at-bit_and : (a b i : ℕ) → bit_at (bit_and a b) i ≡ min (bit_at a i) (bit_at b i)
unfolding bit_at
bit_at-bit_and a b zero = omega (arith, bit_and_step a b)
bit_at-bit_and a b (suc i) =
    let half : bit_and a b / 2 ≡ bit_and (a / 2) (b / 2) = omega (arith, bit_and_step a b) in
    rw half (bit_at-bit_and (a / 2) (b / 2) i)

pub bit_at-complement : (w x i : ℕ) → x < 2 ^ w → i < w → bit_at (complement w x) i ≡ 1 - bit_at x i
unfolding bit_at
bit_at-complement zero x i h lt = absurd (omega arith)
bit_at-complement (suc w) x zero h lt = omega (arith, pow-suc 2 w)
bit_at-complement (suc w) x (suc i) h lt =
    let half : complement (suc w) x / 2 ≡ complement w (x / 2) = omega (arith, pow-suc 2 w) in
    rw half (bit_at-complement w (x / 2) i (omega (arith, pow-suc 2 w)) (omega arith))

pub bit_at-not32 : (x i : ℕ) → x < 2 ^ 32 → i < 32 → bit_at (not32 x) i ≡ 1 - bit_at x i
bit_at-not32 x i h lt = bit_at-complement 32 x i h lt

pub bit_at-zero : (i : ℕ) → bit_at 0 i ≡ 0
unfolding bit_at
bit_at-zero zero = refl
bit_at-zero (suc i) = bit_at-zero i

-- `1 << k`
pub bit_at-pow : (k i : ℕ) → bit_at (2 ^ k) i ≡ (if k == i then 1 else 0)
unfolding bit_at
bit_at-pow zero zero = refl
bit_at-pow zero (suc i) = ground (arith, bit_at-zero i)
bit_at-pow (suc k) zero = ground (arith, pow-suc 2 k)
bit_at-pow (suc k) (suc i) =
    let half : 2 ^ suc k / 2 ≡ 2 ^ k = omega (arith, pow-suc 2 k) in
    rw half (ground (arith, bit_at-pow k i))

-- Two words with the same bits are the same word.
pub bit_at_ext :
    (w a b : ℕ) → a < 2 ^ w → b < 2 ^ w → ((i : ℕ) → i < w → bit_at a i ≡ bit_at b i) → a ≡ b
unfolding bit_at
bit_at_ext zero a b ha hb h = omega arith
bit_at_ext (suc w) a b ha hb h =
    let top : a / 2 ≡ b / 2 =
      bit_at_ext w (a / 2) (b / 2) (omega (arith, pow-suc 2 w)) (omega (arith, pow-suc 2 w))
        (λ i lt. h (suc i) (omega arith)) in
    omega (arith, h 0 (omega arith))

pub bit_or-lt : (w a b : ℕ) → a < 2 ^ w → b < 2 ^ w → bit_or a b < 2 ^ w
bit_or-lt zero a b ha hb = omega (arith, bit_or-both_zero a b (omega arith) (omega arith))
  where
    bit_or-both_zero : (a b : ℕ) → a ≡ 0 → b ≡ 0 → bit_or a b ≡ 0
    bit_or-both_zero a b p q = rw (p, q)
bit_or-lt (suc w) a b ha hb = omega (
  arith,
  pow-suc 2 w,
  bit_or_step a b,
  bit_or-lt w (a / 2) (b / 2) (omega (arith, pow-suc 2 w)) (omega (arith, pow-suc 2 w)),
)

bit_and-le_at : (w a b : ℕ) → a < 2 ^ w → bit_and a b ≤ a
bit_and-le_at zero a b h =
    let e : a ≡ 0 = omega arith in rw e (omega (arith, bit_and_step 0 b, zero-bit_and (b / 2)))
  where
    zero-bit_and : (b : ℕ) → bit_and 0 b ≡ 0
    zero-bit_and b = bit_and-bitwise 0 b
bit_and-le_at (suc w) a b h = omega (
  arith,
  pow-suc 2 w,
  bit_and_step a b,
  bit_and-le_at w (a / 2) (b / 2) (omega (arith, pow-suc 2 w)),
)

lt-two_pow : (a : ℕ) → a < 2 ^ a
lt-two_pow zero = omega arith
lt-two_pow (suc a) = omega (arith, pow-suc 2 a, lt-two_pow a)

pub bit_and-le : (a b : ℕ) → bit_and a b ≤ a
bit_and-le a b = bit_and-le_at a a b (lt-two_pow a)

bit_and-zero_at : (w a : ℕ) → a < 2 ^ w → bit_and a 0 ≡ 0
bit_and-zero_at zero a h = let e : a ≡ 0 = omega arith in rw e
bit_and-zero_at (suc w) a h =
    omega
      (arith, pow-suc 2 w, bit_and_step a 0, bit_and-zero_at w (a / 2) (omega (arith, pow-suc 2 w)))

pub bit_and-zero : (a : ℕ) → bit_and a 0 ≡ 0
bit_and-zero a = bit_and-zero_at a a (lt-two_pow a)

bit_or-zero_at : (w a : ℕ) → a < 2 ^ w → bit_or a 0 ≡ a
bit_or-zero_at zero a h = let e : a ≡ 0 = omega arith in rw e
bit_or-zero_at (suc w) a h =
    omega
      (arith, pow-suc 2 w, bit_or_step a 0, bit_or-zero_at w (a / 2) (omega (arith, pow-suc 2 w)))

pub bit_or-zero : (a : ℕ) → bit_or a 0 ≡ a
bit_or-zero a = bit_or-zero_at a a (lt-two_pow a)

-- `x & (1 << i)`
pub bit_and-pow : (x i : ℕ) → bit_and x (2 ^ i) ≡ bit_at x i * 2 ^ i
unfolding bit_at
bit_and-pow x zero = omega (arith, bit_and_step x 1, bit_and-zero (x / 2))
bit_and-pow x (suc i) =
    let half : 2 ^ suc i / 2 ≡ 2 ^ i = omega (arith, pow-suc 2 i) in
    let step : bit_and x (2 ^ suc i) ≡ bit_and (x / 2) (2 ^ i) * 2 =
      rw (← half) (omega (arith, bit_and_step x (2 ^ suc i), pow-suc 2 i)) in
    let factor : bit_at (x / 2) i * 2 ^ suc i ≡ bit_at (x / 2) i * 2 ^ i * 2 =
      omega (arith, ap (λ (t : ℕ). bit_at (x / 2) i * t) (pow-suc 2 i)) in
    omega (arith, step, factor, bit_and-pow (x / 2) i)

pub one-le-two_pow : (i : ℕ) → 1 ≤ 2 ^ i
one-le-two_pow zero = omega arith
one-le-two_pow (suc i) = omega (arith, pow-suc 2 i, one-le-two_pow i)

pub bit_at_cases : (x i : ℕ) → (bit_at x i ≡ 0) ⊎ (bit_at x i ≡ 1)
bit_at_cases x i = omega (arith, bit_at-le-one x i)

-- `(x & (1 << i)) != 0` tests bit `i`.
pub bit_test : (x i : ℕ) → (bit_and x (2 ^ i) != 0) ≡ (bit_at x i == 1)
bit_test x i = elim (bit_at_cases x i) [
  | inl e ↦ rw (bit_and-pow x i, e, zero-mul)
  | inr e ↦ rw (bit_and-pow x i, e) (ground (arith, one-le-two_pow i))
]

pub two_pow-lt : (w i : ℕ) → i < w → 2 ^ i < 2 ^ w
two_pow-lt zero i h = absurd (omega arith)
two_pow-lt (suc w) zero h = omega (arith, pow-suc 2 w, one-le-two_pow w)
two_pow-lt (suc w) (suc i) h = omega (arith, pow-suc 2 w, pow-suc 2 i, two_pow-lt w i (omega arith))
