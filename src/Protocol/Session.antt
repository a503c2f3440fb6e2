-- ===== src/Protocol/Session.antt =====
-- internal/protocol/session: codec.go and session.go. AES-CBC, HMAC-SHA1 and the random source are
-- the standard library's, and so a parameter.
pub mod Padding
pub mod RoundTrip
use spark_server.Base.{
  ℕ, zero, suc, ◌+◌, ◌-◌, ◌*◌, ◌%◌, ◌≤◌, ◌<◌, ◌≡◌, Bool, true, false, ◌||◌, ◌&&◌, not, List, [],
  ◌∷◌, ◌++◌, Bytes, IsByte, All, same_bytes, Option, none, some, Result, ok, err, ◌>>=◌, ◌>>◌,
  refuse_if, length, take, drop, replicate, get_last_or, ltb, ◌==◌, if◌then◌else◌,
}

abbrev pub aes128_key_size : ℕ
aes128_key_size = 16

abbrev pub hmac_sha1_size : ℕ
hmac_sha1_size = 20

-- `aes.BlockSize`.
abbrev pub block_size : ℕ
block_size = 16

-- `invalid_key`, `invalid_message` and `invalid_mac` are the file's three errors, with the reason;
-- the last two are those of `aes.NewCipher` and of the random source.
pub data Error : Type 0 where
  session_is_nil wrong_key_size empty_mac_key : Error
  too_short not_aligned bad_padding_length bad_padding bad_padding_bytes : Error
  invalid_mac cipher_key_size no_randomness : Error

pub record Session : Type 0 where
  pub device_id : Bytes
  pub session_key : Bytes

pub record Codec : Type 0 where
  pub encryption_key : Bytes
  pub mac_key : Bytes

-- What the codec uses of `crypto/aes`, `crypto/cipher` and `crypto/hmac`.
pub record Crypto : Type 0 where
  -- `CryptBlocks` of the two CBC modes: key, initialisation vector, blocks.
  pub cbc_encrypt : Bytes → Bytes → Bytes → Bytes
  pub cbc_decrypt : Bytes → Bytes → Bytes → Bytes
  -- `hmac.New(sha1.New, key)`, `Write` and `Sum`.
  pub hmac_sha1 : Bytes → Bytes → Bytes
  pub length-cbc_encrypt :
      (key iv blocks : Bytes) → length (cbc_encrypt key iv blocks) ≡ length blocks
  pub length-hmac : (key bytes : Bytes) → length (hmac_sha1 key bytes) ≡ 20
  pub decrypt-encrypt :
      (key iv blocks : Bytes)
      → length blocks % 16 ≡ 0
      → All IsByte blocks
      → cbc_decrypt key iv (cbc_encrypt key iv blocks) ≡ blocks

unfoldable pub new_codec : Bytes → Bytes → Result Error Codec
new_codec encryption_key mac_key = do
  refuse_if (not (length encryption_key == aes128_key_size)) wrong_key_size
  refuse_if (length mac_key == 0) empty_mac_key
  ok (record { encryption_key = encryption_key; mac_key = mac_key })

unfoldable pub new_codec_from_session : Option Session → Result Error Codec
new_codec_from_session none = err session_is_nil
new_codec_from_session (some session) = new_codec session.session_key session.session_key

-- `aes.NewCipher` takes keys of 16, 24 or 32 bytes.
unfoldable pub new_cipher : Bytes → Result Error (Unit {0})
new_cipher key =
    refuse_if (not (length key == 16 || (length key == 24 || length key == 32))) cipher_key_size

unfoldable pub pkcs7_pad : Bytes → ℕ → Bytes
pkcs7_pad bytes size =
    let padding = size - length bytes % size in bytes ++ replicate padding (padding % 256)

-- The loop over the last `padding` bytes.
unfoldable pub all_equal : ℕ → Bytes → Bool
all_equal padding [] = true
all_equal padding (value ∷ rest) = (value == padding) && all_equal padding rest

unfoldable pub pkcs7_unpad : Bytes → ℕ → Result Error Bytes
pkcs7_unpad bytes size = do
  refuse_if (length bytes == 0 || not (length bytes % size == 0)) bad_padding_length
  let padding = get_last_or bytes 0
  refuse_if (padding == 0 || (ltb size padding || ltb (length bytes) padding)) bad_padding
  refuse_if (not (all_equal padding (drop (length bytes - padding) bytes))) bad_padding_bytes
  ok (take (length bytes - padding) bytes)

module _ (crypto : Crypto) where
  unfoldable pub mac : Codec → Bytes → Bytes
  mac codec bytes = crypto.hmac_sha1 codec.mac_key bytes

  -- `random` is what the random source answers to a read of one block.
  unfoldable pub encrypt : Result Error Bytes → Codec → Bytes → Result Error Bytes
  encrypt random codec plaintext = do
    new_cipher codec.encryption_key
    iv ← random
    let padded = pkcs7_pad plaintext block_size
    let message = iv ++ crypto.cbc_encrypt codec.encryption_key iv padded
    ok (message ++ mac codec message)

  unfoldable pub decrypt : Codec → Bytes → Result Error Bytes
  decrypt codec message = do
    new_cipher codec.encryption_key
    refuse_if (ltb (length message) (block_size + hmac_sha1_size + block_size)) too_short
    let authenticated = take (length message - hmac_sha1_size) message
    let message_mac = drop (length message - hmac_sha1_size) message
    refuse_if (not (same_bytes message_mac (mac codec authenticated))) invalid_mac
    let iv = take block_size authenticated
    let ciphertext = drop block_size authenticated
    refuse_if (not (length ciphertext % block_size == 0)) not_aligned
    pkcs7_unpad (crypto.cbc_decrypt codec.encryption_key iv ciphertext) block_size
