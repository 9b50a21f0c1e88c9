-- ===== src/Utils/Bits/Digits.antt =====
-- Laws of `&` and `|` at variables, from the recursion on binary digits that they stand for.
use Prim.Native.Nat.{bit_and, bit_or, digits, bit_and-bitwise, bit_or-bitwise}
use morello.Base.{
  ℕ, zero, suc, ◌+◌, ◌*◌, ◌/◌, ◌%◌, ◌^◌, ◌≤◌, ◌<◌, min, max, ◌≡◌, refl, arith, two_pow_suc,
}

-- A surplus of rounds changes nothing.
module _ (rest : ℕ → ℕ) (op : ℕ → ℕ → ℕ) where
  digits_at : (n a b : ℕ) → a ≤ n → digits rest op n a b ≡ digits rest op a a b
  digits_at n a b h = surplus a n a b (omega arith) h
    where
      surplus : (n m a b : ℕ) → a ≤ n → n ≤ m → digits rest op m a b ≡ digits rest op n a b
      surplus zero zero a b h g = refl
      surplus zero (suc m) zero b h g = refl
      surplus zero (suc m) (suc a) b h g = absurd (omega arith)
      surplus (suc n) zero a b h g = absurd (omega arith)
      surplus (suc n) (suc m) zero b h g = refl
      surplus (suc n) (suc m) (suc a) b h g =
          omega (arith, surplus n m (suc a / 2) (b / 2) (omega arith) (omega arith))

-- One equation for the lowest digit.
pub bit_and_unfold : (a b : ℕ) → bit_and a b ≡ bit_and (a / 2) (b / 2) * 2 + min (a % 2) (b % 2)
bit_and_unfold zero b = omega (arith, bit_and-bitwise 0 b, bit_and-bitwise 0 (b / 2))
bit_and_unfold (suc a) b = omega (
  arith,
  bit_and-bitwise (suc a) b,
  bit_and-bitwise (suc a / 2) (b / 2),
  digits_at (λ _. 0) min a (suc a / 2) (b / 2) (omega arith),
)

pub bit_or_unfold : (a b : ℕ) → bit_or a b ≡ bit_or (a / 2) (b / 2) * 2 + max (a % 2) (b % 2)
bit_or_unfold zero b = omega (arith, bit_or-bitwise 0 b, bit_or-bitwise 0 (b / 2))
bit_or_unfold (suc a) b = omega (
  arith,
  bit_or-bitwise (suc a) b,
  bit_or-bitwise (suc a / 2) (b / 2),
  digits_at (λ y. y) max a (suc a / 2) (b / 2) (omega arith),
)

bit_and-zero_below : (k a : ℕ) → a ≤ k → bit_and a 0 ≡ 0
bit_and-zero_below k zero h = refl
bit_and-zero_below zero (suc a) h = absurd (omega arith)
bit_and-zero_below (suc k) (suc a) h =
    omega (arith, bit_and_unfold (suc a) 0, bit_and-zero_below k (suc a / 2) (omega arith))

pub bit_and-zero : (a : ℕ) → bit_and a 0 ≡ 0
bit_and-zero a = bit_and-zero_below a a (omega arith)

bit_or-zero_below : (k a : ℕ) → a ≤ k → bit_or a 0 ≡ a
bit_or-zero_below k zero h = refl
bit_or-zero_below zero (suc a) h = absurd (omega arith)
bit_or-zero_below (suc k) (suc a) h =
    omega (arith, bit_or_unfold (suc a) 0, bit_or-zero_below k (suc a / 2) (omega arith))

bit_and_self_below : (k a : ℕ) → a ≤ k → bit_and a a ≡ a
bit_and_self_below k zero h = refl
bit_and_self_below zero (suc a) h = absurd (omega arith)
bit_and_self_below (suc k) (suc a) h =
    omega (arith, bit_and_unfold (suc a) (suc a), bit_and_self_below k (suc a / 2) (omega arith))

pub bit_and_self : (a : ℕ) → bit_and a a ≡ a
bit_and_self a = bit_and_self_below a a (omega arith)

-- `n | 1` sets the lowest digit.
pub bit_or-one : (n : ℕ) → bit_or n 1 ≡ n / 2 * 2 + 1
bit_or-one n = omega (arith, bit_or_unfold n 1, bit_or-zero_below (n / 2) (n / 2) (omega arith))

-- Masking a number by its own leading digit.
pub bit_and_leading : (k n : ℕ) → 2 ^ k ≤ n → n < 2 ^ suc k → bit_and (2 ^ k) n ≡ 2 ^ k
bit_and_leading zero n h l = let e : n ≡ 1 = omega arith in rw e
bit_and_leading (suc k) n h l = omega (
  arith,
  bit_and_unfold (2 ^ suc k) n,
  two_pow_suc k,
  two_pow_suc (suc k),
  bit_and_leading k (n / 2) (omega (arith, two_pow_suc k)) (omega (arith, two_pow_suc (suc k))),
  half_pow,
)
  where
    half_pow : bit_and (2 ^ suc k / 2) (n / 2) ≡ bit_and (2 ^ k) (n / 2)
    half_pow = let e : 2 ^ suc k / 2 ≡ 2 ^ k = omega (arith, two_pow_suc k) in rw e
