-- ===== src/Protocol/Session/RoundTrip.antt =====
-- `Decrypt` after `Encrypt`, and what `Decrypt` accepts, for codec.go.
use spark_server.Base.{
  ◌+◌, ◌-◌, ◌%◌, ◌≤◌, ◌<◌, ◌≡◌, ◌≢◌, refl, sym, ap, ◌∙◌, false, not, ◌++◌, Bytes, IsByte, All,
  same_bytes, same_bytes_iff, ok, err, ◌>>=◌, refuse_if-eq-ok, bind-ok, length, take, drop,
  length-append, take-append, drop-append, take-append-drop, length-take, arith, ltb, le→ltb, ◌==◌,
}
use spark_server.Protocol.Session.{
  invalid_mac, Codec, Crypto, new_codec, new_cipher, pkcs7_pad, pkcs7_unpad, mac, encrypt, decrypt,
}
use spark_server.Protocol.Session.Padding.{unpad-pad, unpad-ok_iff, IsPadded, pad-IsByte}

-- The keys of a codec that `NewCodec` made.
abbrev pub IsKeyed : Codec → Type 0
IsKeyed codec = length codec.encryption_key ≡ 16

pub new_codec-IsKeyed :
    (encryption_key mac_key : Bytes) (codec : Codec)
    → new_codec encryption_key mac_key ≡ ok codec
    → IsKeyed codec × (0 < length codec.mac_key)
unfolding new_codec
new_codec-IsKeyed encryption_key mac_key codec e = ground arith

cipher_ready : (key : Bytes) → length key ≡ 16 → new_cipher key ≡ ok tt
unfolding new_cipher
cipher_ready key h = rw h

module _ (crypto : Crypto) (codec : Codec) (keyed : IsKeyed codec) where
  -- Behind the length and MAC checks.
  decrypt_open :
      (iv blocks : Bytes)
      → length iv ≡ 16
      → 16 ≤ length blocks
      → length blocks % 16 ≡ 0
      → decrypt crypto codec ((iv ++ blocks) ++ mac crypto codec (iv ++ blocks))
        ≡ pkcs7_unpad (crypto.cbc_decrypt codec.encryption_key iv blocks) 16
  unfolding decrypt
  decrypt_open iv blocks hiv hblocks whole =
      let tag = mac crypto codec (iv ++ blocks) in
      let tag_size : length tag ≡ 20 =
        unfold mac in crypto.length-hmac codec.mac_key (iv ++ blocks) in
      let total : length ((iv ++ blocks) ++ tag) ≡ length (iv ++ blocks) + 20 =
        length-append (iv ++ blocks) tag ∙ ap (λ n. length (iv ++ blocks) + n) tag_size in
      let inner = length-append iv blocks in
      let front : length (iv ++ blocks) + 20 - 20 ≡ length (iv ++ blocks) = omega arith in
      rw (
        cipher_ready codec.encryption_key keyed,
        total,
        le→ltb (length (iv ++ blocks) + 20) 52 (omega arith),
        front,
        drop-append (length (iv ++ blocks)) (iv ++ blocks) tag refl,
        take-append (length (iv ++ blocks)) (iv ++ blocks) tag refl,
        (same_bytes_iff tag tag).1 refl,
        drop-append 16 iv blocks (sym hiv),
        take-append 16 iv blocks (sym hiv),
        whole,
      )

  -- What a codec encrypts under any initialisation vector of a block, it decrypts.
  pub decrypt-encrypt :
      (iv plaintext : Bytes)
      → length iv ≡ 16
      → All IsByte plaintext
      → (encrypt crypto (ok iv) codec plaintext >>= decrypt crypto codec) ≡ ok plaintext
  unfolding encrypt
  decrypt-encrypt iv plaintext hiv hb =
      let (unpadded, whole, longer, _) = unpad-pad plaintext 16 (omega arith) (omega arith) in
      let padded = pkcs7_pad plaintext 16 in
      let blocks = crypto.cbc_encrypt codec.encryption_key iv padded in
      let size = crypto.length-cbc_encrypt codec.encryption_key iv padded in
      rw (
        cipher_ready codec.encryption_key keyed,
        decrypt_open iv blocks hiv (omega (arith, size, whole, longer))
            (ap (λ n. n % 16) size ∙ whole),
        crypto.decrypt-encrypt codec.encryption_key iv padded whole (pad-IsByte plaintext hb),
        unpadded,
      )

  -- A message whose last twenty bytes are not the MAC of the bytes before them is refused as such,
  -- whatever the ciphertext and its padding are.
  pub decrypt_forged :
      (authenticated tag : Bytes)
      → 32 ≤ length authenticated
      → length tag ≡ 20
      → tag ≢ mac crypto codec authenticated
      → decrypt crypto codec (authenticated ++ tag) ≡ err invalid_mac
  unfolding decrypt
  decrypt_forged authenticated tag long htag forged =
      let total : length (authenticated ++ tag) ≡ length authenticated + 20 =
        length-append authenticated tag ∙ ap (λ n. length authenticated + n) htag in
      let front : length authenticated + 20 - 20 ≡ length authenticated = omega arith in
      let differs : same_bytes tag (mac crypto codec authenticated) ≡ false =
        ground (arith, forged, (same_bytes_iff tag (mac crypto codec authenticated)).0) in
      rw (
        cipher_ready codec.encryption_key keyed,
        total,
        le→ltb (length authenticated + 20) 52 (omega arith),
        front,
        drop-append (length authenticated) authenticated tag refl,
        take-append (length authenticated) authenticated tag refl,
        differs,
      )

  -- A message that is decrypted ends in the MAC of what stands before it, and its blocks decrypt to
  -- the plaintext with a valid padding.
  pub decrypt-ok :
      (message plain : Bytes)
      → decrypt crypto codec message ≡ ok plain
      → (authenticated : Bytes) × (message ≡ authenticated ++ mac crypto codec authenticated)
        × (32 ≤ length authenticated)
        × IsPadded
            (crypto.cbc_decrypt codec.encryption_key
              (take 16 authenticated)
              (drop 16 authenticated))
            plain
            16
  unfolding decrypt
  decrypt-ok message plain e =
      let (_, _, e0) = bind-ok (new_cipher codec.encryption_key) _ (sym e) in
      let authenticated = take (length message - 20) message in
      let tag = drop (length message - 20) message in
      let (g, e1) = refuse_if-eq-ok (ltb (length message) 52) _ _ e0 in
      let (m, e2) =
        refuse_if-eq-ok (not (same_bytes tag (mac crypto codec authenticated))) _ _ e1 in
      let (w, e3) = refuse_if-eq-ok (not (length (drop 16 authenticated) % 16 == 0)) _ _ e2 in
      let same = (same_bytes_iff tag (mac crypto codec authenticated)).0 (ground arith) in
      (
        authenticated,
        sym (take-append-drop (length message - 20) message) ∙ ap (λ t. authenticated ++ t) same,
        ground (arith, length-take (length message - 20) message),
        (unpad-ok_iff
              (crypto.cbc_decrypt codec.encryption_key (take 16 authenticated)
                (drop 16 authenticated))
              plain 16).0
            e3,
      )
