-- ===== src/Base/Texts.antt =====
-- The functions of package strings that the source uses. They are written out for ASCII text; what
-- they do with other text is a parameter.
use Prim.Native.Nat.{ℕ, ◌+◌, ◌-◌}
use mathlib.Core.Bool.{Bool, true, ◌&&◌, ◌||◌}
use mathlib.Core.List.{[], ◌∷◌, map}
use spark_server.Base.Tests.{ltb, leb, ◌==◌, if◌then◌else◌}
use spark_server.Base.Slices.{Bytes}

pub record Unicode : Type 0 where
  pub to_lower : Bytes → Bytes
  pub to_upper : Bytes → Bytes
  pub trim_space : Bytes → Bytes

abbrev pub is_ascii : Bytes → Bool
is_ascii [] = true
is_ascii (c ∷ cs) = ltb c 128 && is_ascii cs

abbrev pub lower : ℕ → ℕ
lower c = if leb 0x41 c && leb c 0x5a then c + 32 else c

abbrev pub upper : ℕ → ℕ
upper c = if leb 0x61 c && leb c 0x7a then c - 32 else c

-- `asciiSpace`: tab, newline, vertical tab, form feed, carriage return and space.
abbrev pub is_space : ℕ → Bool
is_space c = (leb 9 c && leb c 13) || (c == 0x20)

abbrev pub trim_left : (ℕ → Bool) → Bytes → Bytes
trim_left test [] = []
trim_left test (c ∷ cs) = let rest = trim_left test cs in if test c then rest else c ∷ cs

-- What is left of a list whose tail is trimmed.
abbrev pub trimmed : (ℕ → Bool) → ℕ → Bytes → Bytes
trimmed test c [] = if test c then [] else c ∷ []
trimmed test c (d ∷ ds) = c ∷ d ∷ ds

abbrev pub trim_right : (ℕ → Bool) → Bytes → Bytes
trim_right test [] = []
trim_right test (c ∷ cs) = trimmed test c (trim_right test cs)

abbrev pub trim : (ℕ → Bool) → Bytes → Bytes
trim test s = trim_right test (trim_left test s)

module _ (unicode : Unicode) where
  abbrev pub to_lower : Bytes → Bytes
  to_lower s = if is_ascii s then map lower s else unicode.to_lower s

  abbrev pub trim_space : Bytes → Bytes
  trim_space s = if is_ascii s then trim is_space s else unicode.trim_space s

  abbrev pub to_upper : Bytes → Bytes
  to_upper s = if is_ascii s then map upper s else unicode.to_upper s
