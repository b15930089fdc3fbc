-- ===== src/Base/Words.antt =====
-- 64-bit words as native numbers, and the mask that clears the low bits of one.
use Prim.Native.Nat.{
  ℕ, zero, suc, ◌+◌, ◌-◌, ◌*◌, ◌/◌, ◌%◌, ◌^◌, ◌≤◌, ◌<◌, min, bit_and, digits, bit_and-bitwise,
}
use mathlib.Core.Path.{◌≡◌, refl, ap}
use native.Mathlib.Nat.{pow-suc, mod-lt, mod-one, div-add-mod}
use native.Mathlib.Omega.{arith}

abbrev pub word_size : ℕ
word_size = 2 ^ 64

-- `a + b`, `a - b` and `~a` on `size_t`.
abbrev pub add_word : ℕ → ℕ → ℕ
add_word a b = (a + b) % word_size

abbrev pub sub_word : ℕ → ℕ → ℕ
sub_word a b = (a + word_size - b) % word_size

abbrev pub not_word : ℕ → ℕ
not_word a = word_size - 1 - a

-- The native operation, by the recursion on digits that it stands for.
abbrev and_rec : ℕ → ℕ → ℕ → ℕ
and_rec n a b = digits (λ b. zero) min n a b

and_rec_enough : (n m a b : ℕ) → a ≤ n → a ≤ m → and_rec n a b ≡ and_rec m a b
and_rec_enough zero zero a b p q = refl
and_rec_enough zero (suc m) zero b p q = refl
and_rec_enough (suc n) zero zero b p q = refl
and_rec_enough zero (suc m) (suc a) b p q = absurd (omega arith)
and_rec_enough (suc n) zero (suc a) b p q = absurd (omega arith)
and_rec_enough (suc n) (suc m) zero b p q = refl
and_rec_enough (suc n) (suc m) (suc a) b p q =
    omega (arith, and_rec_enough n m (suc a / 2) (b / 2) (omega arith) (omega arith))

-- `bit_and` by its lowest digit.
bit_and-halves : (a b : ℕ) → bit_and a b ≡ bit_and (a / 2) (b / 2) * 2 + min (a % 2) (b % 2)
bit_and-halves zero b = omega (arith, bit_and-bitwise 0 b, bit_and-bitwise 0 (b / 2))
bit_and-halves (suc a) b =
    let whole = bit_and-bitwise (suc a) b in
    let half = bit_and-bitwise (suc a / 2) (b / 2) in
    let same = and_rec_enough a (suc a / 2) (suc a / 2) (b / 2) (omega arith) (omega arith) in
    omega (arith, whole, half, same)

-- The same where the half of the second number is known.
bit_and-halves_of :
    (a b c : ℕ) → b / 2 ≡ c → bit_and a b ≡ bit_and (a / 2) c * 2 + min (a % 2) (b % 2)
bit_and-halves_of a b c e = rw (← e) (bit_and-halves a b)

pow-pos : (n : ℕ) → 0 < 2 ^ n
pow-pos zero = omega arith
pow-pos (suc n) = omega (arith, pow-suc 2 n, pow-pos n)

bit_and-zero_below : (n a : ℕ) → a ≤ n → bit_and a 0 ≡ 0
bit_and-zero_below n zero h = refl
bit_and-zero_below zero (suc a) h = absurd (omega arith)
bit_and-zero_below (suc n) (suc a) h =
    omega (arith, bit_and-halves (suc a) 0, bit_and-zero_below n (suc a / 2) (omega arith))

bit_and-zero : (a : ℕ) → bit_and a 0 ≡ 0
bit_and-zero a = bit_and-zero_below a a (omega arith)

-- A mask of ones keeps every number that fits under it.
bit_and-ones : (n a : ℕ) → a < 2 ^ n → bit_and a (2 ^ n - 1) ≡ a
bit_and-ones zero zero h = refl
bit_and-ones zero (suc a) h = absurd (omega arith)
bit_and-ones (suc n) a h =
    let half : a / 2 < 2 ^ n = omega (arith, pow-suc 2 n) in
    let shifted : (2 ^ suc n - 1) / 2 ≡ 2 ^ n - 1 = omega (arith, pow-suc 2 n, pow-pos n) in
    let step = bit_and-halves_of a (2 ^ suc n - 1) (2 ^ n - 1) shifted in
    omega (arith, step, bit_and-ones n (a / 2) half, pow-suc 2 n, pow-pos n)

-- Remainders by `2 * p` from remainders by `p`.
mod-double : (a p : ℕ) → 0 < p → a % (p * 2) ≡ a / 2 % p * 2 + a % 2
mod-double a p h =
    grind (arith, div-add-mod (a / 2) p, div-add-mod a (p * 2), mod-lt (a / 2) {m = p} h)

-- A mask whose `k` low bits are clear rounds down to a multiple of `2 ^ k`.
pub bit_and-high :
    (n k a : ℕ) → a < 2 ^ n * 2 ^ k → bit_and a (2 ^ n * 2 ^ k - 2 ^ k) ≡ a - a % 2 ^ k
bit_and-high n zero a h =
    let mask : 2 ^ n * 2 ^ 0 - 2 ^ 0 ≡ 2 ^ n - 1 = omega arith in
    let low : a % 2 ^ 0 ≡ 0 = mod-one a in
    rw (mask, bit_and-ones n a (omega arith), low) (omega arith)
bit_and-high n (suc k) a h =
    let twice : 2 ^ n * 2 ^ suc k ≡ 2 ^ n * 2 ^ k * 2 =
      omega (arith, ap (λ t. 2 ^ n * t) (pow-suc 2 k)) in
    let half : a / 2 < 2 ^ n * 2 ^ k = omega arith in
    let mask : (2 ^ n * 2 ^ suc k - 2 ^ suc k) / 2 ≡ 2 ^ n * 2 ^ k - 2 ^ k =
      omega (arith, pow-suc 2 k) in
    let step = bit_and-halves_of a (2 ^ n * 2 ^ suc k - 2 ^ suc k) _ mask in
    let low : a % 2 ^ suc k ≡ a / 2 % 2 ^ k * 2 + a % 2 =
      rw (pow-suc 2 k) (mod-double a (2 ^ k) (pow-pos k)) in
    omega (arith, step, bit_and-high n k (a / 2) half, pow-suc 2 k, low)

-- A mask of ones takes the low bits.
pub bit_and-low : (n a : ℕ) → bit_and a (2 ^ n - 1) ≡ a % 2 ^ n
bit_and-low zero a = let low : a % 2 ^ 0 ≡ 0 = mod-one a in rw low (bit_and-zero a)
bit_and-low (suc n) a =
    let shifted : (2 ^ suc n - 1) / 2 ≡ 2 ^ n - 1 = omega (arith, pow-suc 2 n, pow-pos n) in
    let step = bit_and-halves_of a (2 ^ suc n - 1) (2 ^ n - 1) shifted in
    let low : a % 2 ^ suc n ≡ a / 2 % 2 ^ n * 2 + a % 2 =
      rw (pow-suc 2 n) (mod-double a (2 ^ n) (pow-pos n)) in
    omega (arith, step, bit_and-low n (a / 2), low, pow-suc 2 n, pow-pos n)
