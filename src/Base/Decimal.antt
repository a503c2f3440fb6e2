-- ===== src/Base/Decimal.antt =====
-- `strconv.Atoi` reads what `strconv.Itoa` writes.
use Prim.Native.Nat.{ℕ, zero, suc, ◌+◌, ◌-◌, ◌*◌, ◌/◌, ◌%◌, ◌^◌, ◌<◌}
use mathlib.Core.Path.{◌≡◌, refl, ap, ◌∙◌}
use mathlib.Core.Logic.{inl, inr}
use mathlib.Core.Bool.{true, false}
use mathlib.Core.List.{[], ◌∷◌}
use mathlib.Core.Option.{some}
use native.Mathlib.Omega.{arith}
use spark_server.Base.Tests.{ltb, ◌==◌, Bool-cases}
use spark_server.Base.Slices.{Bytes}
use spark_server.Base.Integers.{
  ℤ, pos, negsuc, is_digit, digits, unsigned, in_range, negated, atoi, decimal, itoa,
}

-- The ints of 64 bits.
abbrev pub IsInt64 : ℤ → Type 0
IsInt64 (pos n) = n < 2 ^ 63
IsInt64 (negsuc n) = n < 2 ^ 63

digits-digit :
    (n d : ℕ) (rest : Bytes) → d < 10 → digits n ((0x30 + d) ∷ rest) ≡ digits (n * 10 + d) rest
digits-digit n d rest h =
    let is : is_digit (0x30 + d) ≡ true = ground arith in
    let value : 0x30 + d - 0x30 ≡ d = omega arith in rw (is, value) refl

below : (fuel n : ℕ) → n < 10 ^ suc fuel → n / 10 < 10 ^ fuel
below fuel n h = omega arith

digits-decimal :
    (fuel n : ℕ) (rest : Bytes) → n < 10 ^ fuel → digits 0 (decimal fuel n rest) ≡ digits n rest
digits-decimal zero n rest h = let is : n ≡ 0 = omega arith in rw is refl
digits-decimal (suc fuel) n rest h = elim (Bool-cases (ltb n 10)) [
  | inl small ↦
      rw small (digits-digit 0 n rest (ground arith) ∙ ap (λ k. digits k rest) (omega arith))
  | inr large ↦ rw large (
      digits-decimal fuel (n / 10) ((0x30 + n % 10) ∷ rest) (below fuel n h)
      ∙ digits-digit (n / 10) (n % 10) rest (omega arith)
      ∙ ap (λ k. digits k rest) (omega arith))
]

-- What begins with a digit.
abbrev StartsWithDigit : Bytes → Type 0
StartsWithDigit s = (c : ℕ) × (cs : Bytes) × (s ≡ c ∷ cs) × (is_digit c ≡ true)

decimal-StartsWithDigit :
    (fuel n : ℕ) (rest : Bytes) → StartsWithDigit rest → StartsWithDigit (decimal fuel n rest)
decimal-StartsWithDigit zero n rest h = h
decimal-StartsWithDigit (suc fuel) n rest h = elim (Bool-cases (ltb n 10)) [
  | inl small ↦ rw small (0x30 + n, rest, refl, ground arith)
  | inr large ↦ rw large (
      decimal-StartsWithDigit fuel (n / 10) ((0x30 + n % 10) ∷ rest)
        (0x30 + n % 10, rest, refl, ground arith))
]

full :
    (n : ℕ)
    → n < 2 ^ 63 + 1
    → StartsWithDigit (decimal 20 n []) × (digits 0 (decimal 20 n []) ≡ some n)
full n h = (starts, digits-decimal 20 n [] (omega arith))
  where
    starts : StartsWithDigit (decimal 20 n [])
    starts = elim (Bool-cases (ltb n 10)) [
      | inl small ↦ rw small (0x30 + n, [], refl, ground arith)
      | inr large ↦ rw large (
          decimal-StartsWithDigit 19 (n / 10) ((0x30 + n % 10) ∷ [])
            (0x30 + n % 10, [], refl, ground arith))
    ]

atoi_plain : (s : Bytes) → StartsWithDigit s → atoi s ≡ in_range (digits 0 s)
atoi_plain s (c, cs, e, d) =
    let minus : (c == 0x2d) ≡ false = ground arith in
    let plus : (c == 0x2b) ≡ false = ground arith in rw (e, minus, plus) refl

unsigned_plain : (s : Bytes) → StartsWithDigit s → unsigned s ≡ digits 0 s
unsigned_plain s (c, cs, e, d) = rw e refl

pub atoi-itoa : (v : ℤ) → IsInt64 v → atoi (itoa v) ≡ some v
atoi-itoa (pos n) h =
    let (starts, value) = full n (omega arith) in
    let small : ltb n (2 ^ 63) ≡ true = ground arith in
    atoi_plain (decimal 20 n []) starts ∙ ap in_range value ∙ rw small refl
atoi-itoa (negsuc n) h =
    let (starts, value) = full (suc n) (omega arith) in
    let small : ltb n (2 ^ 63) ≡ true = ground arith in
    ap negated (unsigned_plain (decimal 20 (suc n) []) starts ∙ value) ∙ rw small refl
