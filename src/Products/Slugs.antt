-- ===== src/Products/Slugs.antt =====
-- internal/products/service.go: `cleanSlug`.
use spark_server.Base.{ℕ, Bool, Bytes, if◌then◌else◌, ◌==◌, map}
use spark_server.Base.Texts.{Unicode, trim, trim_space, to_lower}

abbrev pub is_dash : ℕ → Bool
is_dash c = c == 0x2d

abbrev pub dash_for_space : ℕ → ℕ
dash_for_space c = if c == 0x20 then 0x2d else c

module _ (unicode : Unicode) where
  unfoldable pub clean_slug : Bytes → Bytes
  clean_slug value = trim is_dash (map dash_for_space (trim_space unicode (to_lower unicode value)))
