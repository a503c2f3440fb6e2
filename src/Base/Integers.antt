-- ===== src/Base/Integers.antt =====
-- Go's int, of 64 bits, and package strconv on it.
use Prim.Native.Nat.{ℕ, zero, suc, ◌+◌, ◌-◌, ◌*◌, ◌/◌, ◌%◌, ◌^◌}
use mathlib.Core.Bool.{Bool, true, false, ◌&&◌}
use mathlib.Core.List.{[], ◌∷◌}
use mathlib.Core.Option.{Option, none, some}
use spark_server.Base.Tests.{ltb, leb, ◌==◌, if◌then◌else◌}
use spark_server.Base.Slices.{Bytes}

-- `negsuc n` is - n - 1.
pub data ℤ : Type 0 where
  pos negsuc : ℕ → ℤ

abbrev pub ltb_int : ℤ → ℤ → Bool
ltb_int (pos m) (pos n) = ltb m n
ltb_int (pos m) (negsuc n) = false
ltb_int (negsuc m) (pos n) = true
ltb_int (negsuc m) (negsuc n) = ltb n m

abbrev pub same_int : ℤ → ℤ → Bool
same_int (pos m) (pos n) = m == n
same_int (negsuc m) (negsuc n) = m == n
same_int _ _ = false

-- `v + 1`, which wraps from the largest int to the smallest.
abbrev pub next_int : ℤ → ℤ
next_int (pos n) = if suc n == 2 ^ 63 then negsuc n else pos (suc n)
next_int (negsuc zero) = pos 0
next_int (negsuc (suc n)) = negsuc n

abbrev pub is_digit : ℕ → Bool
is_digit c = leb 0x30 c && leb c 0x39

abbrev pub digits : ℕ → Bytes → Option ℕ
digits n [] = some n
digits n (c ∷ cs) = let rest = digits (n * 10 + (c - 0x30)) cs in if is_digit c then rest else none

-- The digits after a sign, where there is one.
abbrev pub unsigned : Bytes → Option ℕ
unsigned [] = none
unsigned (c ∷ cs) = digits 0 (c ∷ cs)

abbrev pub in_range : Option ℕ → Option ℤ
in_range none = none
in_range (some n) = if ltb n (2 ^ 63) then some (pos n) else none

abbrev pub negated : Option ℕ → Option ℤ
negated none = none
negated (some zero) = some (pos 0)
negated (some (suc n)) = if ltb n (2 ^ 63) then some (negsuc n) else none

-- `strconv.Atoi`.
abbrev pub atoi : Bytes → Option ℤ
atoi [] = none
atoi (c ∷ cs) =
    if c == 0x2d
    then negated (unsigned cs)
    else if c == 0x2b
    then in_range (unsigned cs)
    else in_range (digits 0 (c ∷ cs))

-- The digits of a number below 10 ^ fuel, before `rest`.
abbrev pub decimal : ℕ → ℕ → Bytes → Bytes
decimal zero n rest = rest
decimal (suc fuel) n rest =
    let more = decimal fuel (n / 10) ((0x30 + n % 10) ∷ rest) in
    if ltb n 10 then (0x30 + n) ∷ rest else more

-- `strconv.Itoa`: an int has at most 19 digits.
abbrev pub itoa : ℤ → Bytes
itoa (pos n) = decimal 20 n []
itoa (negsuc n) = 0x2d ∷ decimal 20 (suc n) []
