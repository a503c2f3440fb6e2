-- ===== src/Base/Bits.antt =====
-- Masks and joins on one byte as arithmetic; each is a table, checked by evaluation.
use Prim.Native.Nat.{ℕ, zero, suc, ◌+◌, ◌*◌, ◌/◌, ◌%◌, ◌<◌, bit_and, bit_or}
use mathlib.Core.Path.{◌≡◌, refl}
use mathlib.Core.Bool.{Bool, true, false}
use mathlib.Core.Logic.{ite}
use native.Mathlib.Decide.{ℕ_discrete}
use native.Mathlib.Omega.{arith}

module _ (f g : ℕ → ℕ) where
  agree_below : ℕ → Bool
  unfolding ℕ_discrete
  agree_below zero = true
  agree_below (suc n) = ite (ℕ_discrete (f n) (g n)) (agree_below n) false

  agree_below→eq : (n : ℕ) → agree_below n ≡ true → (i : ℕ) → i < n → f i ≡ g i
  unfolding agree_below
  agree_below→eq zero e i h = absurd (omega arith)
  agree_below→eq (suc n) e i h = ground (arith, agree_below→eq n (ground arith) i)

-- The low four bits of a byte, and the low two.
pub low_nibble : (b : ℕ) → b < 256 → bit_and b 0x0f ≡ b % 16
unfolding agree_below
low_nibble = agree_below→eq _ _ 256 refl

pub low_pair : (b : ℕ) → b < 256 → bit_and b 0x03 ≡ b % 4
unfolding agree_below
low_pair = agree_below→eq _ _ 256 refl

nibble_table : (b : ℕ) → b < 256 → bit_or (b / 16 * 16) (b % 16) ≡ b
unfolding agree_below
nibble_table = agree_below→eq _ _ 256 refl

header_table : (b : ℕ) → b < 64 → bit_or (bit_or 64 (b / 16 * 16)) (b % 16) ≡ 64 + b
unfolding agree_below
header_table = agree_below→eq _ _ 64 refl

-- Two nibbles joined into a byte.
pub join_nibbles : (h l : ℕ) → h < 16 → l < 16 → bit_or (h * 16) l ≡ h * 16 + l
join_nibbles h l hh hl =
    let hi : (h * 16 + l) / 16 ≡ h = omega arith in
    let lo : (h * 16 + l) % 16 ≡ l = omega arith in
    rw (hi, lo) at (nibble_table (h * 16 + l) (omega arith))

-- The top bits 01 joined with a two-bit field and a nibble.
pub join_header : (t n : ℕ) → t < 4 → n < 16 → bit_or (bit_or 64 (t * 16)) n ≡ 64 + t * 16 + n
join_header t n ht hn =
    let hi : (t * 16 + n) / 16 ≡ t = omega arith in
    let lo : (t * 16 + n) % 16 ≡ n = omega arith in
    let e : 64 + (t * 16 + n) ≡ 64 + t * 16 + n = omega arith in
    rw (hi, lo, e) at (header_table (t * 16 + n) (omega arith))
