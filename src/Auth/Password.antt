-- ===== src/Auth/Password.antt =====
-- internal/auth/password.go. SHA-256 is a parameter.
use spark_server.Base.{
  ◌≡◌, refl, Bool, false, ◌&&◌, List, [], ◌∷◌, ◌++◌, Bytes, IsByte, codes, same_bytes, Option, some,
  All,
}
use spark_server.Auth.Hex.{
  hex_encode, hex_decode, hex_decode-hex_encode, hex_encode-HasNoColon, split_colon,
  split_colon-append, split_colon_last,
}

abbrev pub password_hash_prefix : Bytes
password_hash_prefix = codes "sha256"

module _ (sha256 : Bytes → Bytes) where
  abbrev pub password_sum : Bytes → Bytes → Bytes
  password_sum salt password = sha256 (salt ++ password)

  -- `HashPassword`, with the salt that was drawn.
  abbrev pub hash_with : Bytes → Bytes → Bytes
  hash_with salt password =
      password_hash_prefix
      ++ 0x3a ∷ (hex_encode salt ++ 0x3a ∷ hex_encode (password_sum salt password))

  abbrev pub compare_sum : Bytes → Option Bytes → Option Bytes → Bool
  compare_sum password (some salt) (some expected) =
      same_bytes (password_sum salt password) expected
  compare_sum password _ _ = false

  abbrev pub verify_parts : Bytes → List Bytes → Bool
  verify_parts password (prefix ∷ salt ∷ sum ∷ []) =
      same_bytes prefix password_hash_prefix
      && compare_sum password (hex_decode salt) (hex_decode sum)
  verify_parts password _ = false

  unfoldable pub verify_password : Bytes → Bytes → Bool
  verify_password hash password = verify_parts password (split_colon hash)

  -- A stored password is verified for exactly those passwords that have the same sum with its salt:
  -- the one that was stored is accepted, and another only where SHA-256 collides.
  pub verify_password-hash_with :
      (salt password other : Bytes)
      → All IsByte salt
      → All IsByte (password_sum salt password)
      → verify_password (hash_with salt password) other
        ≡ same_bytes (password_sum salt other) (password_sum salt password)
  unfolding verify_password
  verify_password-hash_with salt password other h k =
      let sum = password_sum salt password in
      rw
        (
          split_colon-append password_hash_prefix (hex_encode salt ++ 0x3a ∷ hex_encode sum)
              (refl, (refl, (refl, (refl, (refl, (refl, tt)))))),
          split_colon-append (hex_encode salt) (hex_encode sum) (hex_encode-HasNoColon salt h),
          split_colon_last (hex_encode sum) (hex_encode-HasNoColon sum k),
          hex_decode-hex_encode salt h,
          hex_decode-hex_encode sum k,
        )
        refl
