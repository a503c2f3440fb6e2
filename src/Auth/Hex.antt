-- ===== src/Auth/Hex.antt =====
-- `encoding/hex`, and `strings.Split` at a colon, for the stored form of a password.
use spark_server.Base.{
  ℕ, ◌+◌, ◌-◌, ◌*◌, ◌/◌, ◌%◌, ◌<◌, ◌≡◌, refl, false, ◌&&◌, List, [], ◌∷◌, ◌++◌, Bytes, IsByte,
  Option, none, some, if◌then◌else◌, ltb, leb, ◌==◌, arith, All,
}

abbrev pub hex_digit : ℕ → ℕ
hex_digit n = if ltb n 10 then 0x30 + n else 0x57 + n

abbrev pub hex_encode : Bytes → Bytes
hex_encode [] = []
hex_encode (b ∷ bs) = hex_digit (b / 16) ∷ hex_digit (b % 16) ∷ hex_encode bs

abbrev pub hex_value : ℕ → Option ℕ
hex_value c =
    if leb 0x30 c && leb c 0x39
    then some (c - 0x30)
    else if leb 0x61 c && leb c 0x66
    then some (c - 0x57)
    else if leb 0x41 c && leb c 0x46
    then some (c - 0x37)
    else none

abbrev pub byte_of : Option ℕ → Option ℕ → Option Bytes → Option Bytes
byte_of (some high) (some low) (some rest) = some ((high * 16 + low) ∷ rest)
byte_of _ _ _ = none

abbrev pub hex_decode : Bytes → Option Bytes
hex_decode [] = some []
hex_decode (c ∷ []) = none
hex_decode (c ∷ d ∷ cs) = byte_of (hex_value c) (hex_value d) (hex_decode cs)

abbrev pub cons_head : ℕ → List Bytes → List Bytes
cons_head c [] = (c ∷ []) ∷ []
cons_head c (part ∷ parts) = (c ∷ part) ∷ parts

abbrev pub split_colon : Bytes → List Bytes
split_colon [] = [] ∷ []
split_colon (c ∷ cs) =
    let rest = split_colon cs in if c == 0x3a then [] ∷ rest else cons_head c rest

-- No byte of a text is a colon.
abbrev pub HasNoColon : Bytes → Type 0
HasNoColon = All (λ c. (c == 0x3a) ≡ false)

hex_value-hex_digit : (n : ℕ) → n < 16 → hex_value (hex_digit n) ≡ some n
hex_value-hex_digit n h = ground arith

pub hex_decode-hex_encode : (bs : Bytes) → All IsByte bs → hex_decode (hex_encode bs) ≡ some bs
hex_decode-hex_encode [] h = refl
hex_decode-hex_encode (b ∷ bs) (is_byte, h) =
    let whole : b / 16 * 16 + b % 16 ≡ b = omega arith in
    rw
      (
        hex_value-hex_digit (b / 16) (omega arith),
        hex_value-hex_digit (b % 16) (omega arith),
        hex_decode-hex_encode bs h,
        whole,
      )
      refl

hex_digit_no_colon : (n : ℕ) → n < 16 → (hex_digit n == 0x3a) ≡ false
hex_digit_no_colon n h = ground arith

pub hex_encode-HasNoColon : (bs : Bytes) → All IsByte bs → HasNoColon (hex_encode bs)
hex_encode-HasNoColon [] h = tt
hex_encode-HasNoColon (b ∷ bs) (is_byte, h) = (
  hex_digit_no_colon (b / 16) (omega arith),
  (hex_digit_no_colon (b % 16) (omega arith), hex_encode-HasNoColon bs h),
)

pub split_colon-append :
    (s t : Bytes) → HasNoColon s → split_colon (s ++ 0x3a ∷ t) ≡ s ∷ split_colon t
split_colon-append [] t h = refl
split_colon-append (c ∷ s) t (other, h) = rw (other, split_colon-append s t h) refl

pub split_colon_last : (s : Bytes) → HasNoColon s → split_colon s ≡ s ∷ []
split_colon_last [] h = refl
split_colon_last (c ∷ s) (other, h) = rw (other, split_colon_last s h) refl
