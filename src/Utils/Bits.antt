-- ===== src/Utils/Bits.antt =====
-- morello/src/utils.rs: powers of two in 64-bit words. The `debug_assert!` of `bit_length` is a
-- precondition, which the theorems state.
pub mod Digits
pub mod Lengths
pub mod Rounding
use Prim.Native.Nat.{bit_and, bit_or}
use morello.Base.{
  ℕ, zero, suc, ◌+◌, ◌-◌, ◌/◌, ◌^◌, Bool, false, List, [], ◌∷◌, map, leb, ◌==◌, if◌then◌else◌,
  range_from, u64,
}

-- The number of leading zeros of a `w`-bit word.
unfoldable pub leading_zeros : ℕ → ℕ → ℕ
leading_zeros zero n = 0
leading_zeros (suc w) n = if leb (2 ^ w) n then 0 else suc (leading_zeros w n)

unfoldable pub bit_length : ℕ → ℕ
bit_length n = 64 - leading_zeros 64 n

unfoldable pub bit_length_u32 : ℕ → ℕ
bit_length_u32 n = 32 - leading_zeros 32 n

unfoldable pub bit_length_inverse : ℕ → ℕ
bit_length_inverse n = if n == 0 then 0 else u64 (2 ^ (n - 1))

unfoldable pub is_power_of_two : ℕ → Bool
is_power_of_two n = if n == 0 then false else bit_and n (n - 1) == 0

unfoldable pub prev_power_of_two : ℕ → ℕ
prev_power_of_two n =
    let highest_bit_set_idx = 64 - 1 - leading_zeros 64 (bit_or n 1) in
    bit_and (u64 (2 ^ highest_bit_set_idx)) n

-- The standard library's `u64::next_power_of_two`, in a build without overflow checks.
unfoldable pub next_power_of_two : ℕ → ℕ
next_power_of_two n = if leb n 1 then 1 else u64 ((2 ^ 64 - 1) / 2 ^ leading_zeros 64 (n - 1) + 1)

unfoldable pub next_binary_power : ℕ → ℕ
next_binary_power n = if n == 0 then 0 else next_power_of_two n

unfoldable pub iter_powers_of_two : ℕ → Bool → List ℕ
iter_powers_of_two n include_zero =
    let start : ℕ = if include_zero then 0 else 1 in
    let top_bits = bit_length n in
    map (λ b. if b == 0 then 0 else u64 (2 ^ (b - 1))) (range_from start (top_bits + 1 - start))
