-- ===== src/Protocol/Session/Padding.antt =====
-- PKCS#7 padding of codec.go.
use mathlib.Core.Path.{ap₂}
use spark_server.Base.{
  ℕ, zero, suc, ◌+◌, ◌-◌, ◌%◌, ◌≤◌, ◌<◌, ◌≡◌, refl, sym, ap, ◌∙◌, IsByte, All, All-append, true,
  false, ◌||◌, not, [], ◌∷◌, ◌++◌, Bytes, ok, refuse_if-eq-ok, ok-injective, length, drop,
  replicate, length-append, length-replicate, take-append, drop-append, take-append-drop,
  length-drop, arith, get_last_or, ltb, le→ltb, ◌==◌, ◌↔◌,
}
use spark_server.Protocol.Session.{pkcs7_pad, pkcs7_unpad, all_equal}

get_last_or-append : (xs : Bytes) (n v d : ℕ) → get_last_or (xs ++ replicate (suc n) v) d ≡ v
get_last_or-append [] zero v d = refl
get_last_or-append [] (suc n) v d = get_last_or-append [] n v v
get_last_or-append (x ∷ xs) n v d = get_last_or-append xs n v x

all_equal-replicate : (n v : ℕ) → all_equal v (replicate n v) ≡ true
unfolding all_equal
all_equal-replicate zero v = refl
all_equal-replicate (suc n) v = ground (arith, all_equal-replicate n v)

replicate-of-all_equal : (v : ℕ) (xs : Bytes) → all_equal v xs ≡ true → xs ≡ replicate (length xs) v
unfolding all_equal
replicate-of-all_equal v [] h = refl
replicate-of-all_equal v (x ∷ xs) h = ground (arith, replicate-of-all_equal v xs)

-- A whole number of blocks that ends in `n` bytes `n`, with 1 ≤ n ≤ the block size, is unpadded to
-- what stands before them.
unpad_lem :
    (bytes : Bytes) (size n : ℕ)
    → n < size
    → (length bytes + suc n) % size ≡ 0
    → pkcs7_unpad (bytes ++ replicate (suc n) (suc n)) size ≡ ok bytes
unfolding pkcs7_unpad
unpad_lem bytes size n h whole =
    let total : length (bytes ++ replicate (suc n) (suc n)) ≡ length bytes + suc n =
      length-append bytes (replicate (suc n) (suc n))
      ∙ ap (λ k. length bytes + k) (length-replicate (suc n) (suc n)) in
    let front : length bytes + suc n - suc n ≡ length bytes = omega arith in
    let some_bytes : (length bytes + suc n == 0) ≡ false = ground arith in
    let some_padding : (suc n == 0) ≡ false = ground arith in
    rw (
      total,
      some_bytes,
      whole,
      get_last_or-append bytes n (suc n) 0,
      some_padding,
      le→ltb size (suc n) h,
      le→ltb (length bytes + suc n) (suc n) (omega arith),
      front,
      drop-append (length bytes) bytes (replicate (suc n) (suc n)) refl,
      all_equal-replicate (suc n) (suc n),
      take-append (length bytes) bytes (replicate (suc n) (suc n)) refl,
    )

whole_blocks : (len size : ℕ) → 0 < size → (len + (size - len % size)) % size ≡ 0
whole_blocks len size h = grind arith

-- Padding adds one to `size` bytes and makes whole blocks, and unpadding takes it off again.
pub unpad-pad :
    (bytes : Bytes) (size : ℕ)
    → 0 < size
    → size < 256
    → (pkcs7_unpad (pkcs7_pad bytes size) size ≡ ok bytes)
      × (length (pkcs7_pad bytes size) % size ≡ 0)
      × (length bytes < length (pkcs7_pad bytes size))
      × (length (pkcs7_pad bytes size) ≤ length bytes + size)
unfolding pkcs7_pad
unpad-pad bytes size h fits =
    let n = size - length bytes % size - 1 in
    let below : length bytes % size < size = omega arith in
    let padding : size - length bytes % size ≡ suc n = omega arith in
    let byte : suc n % 256 ≡ suc n = omega arith in
    let whole : (length bytes + suc n) % size ≡ 0 =
      rw padding at (whole_blocks (length bytes) size h) in
    let total : length (bytes ++ replicate (suc n) (suc n)) ≡ length bytes + suc n =
      length-append bytes (replicate (suc n) (suc n))
      ∙ ap (λ k. length bytes + k) (length-replicate (suc n) (suc n)) in
    rw (padding, byte, total)
      ((unpad_lem bytes size n (omega arith) whole, whole, omega arith, omega arith))

-- `bytes` is `plain` with a valid padding of blocks of `size`.
abbrev pub IsPadded : Bytes → Bytes → ℕ → Type 0
IsPadded bytes plain size =
    (n : ℕ) × (1 ≤ n) × (n ≤ size) × (length bytes % size ≡ 0) × (bytes ≡ plain ++ replicate n n)

unpad-ok :
    (bytes plain : Bytes) (size : ℕ) → pkcs7_unpad bytes size ≡ ok plain → IsPadded bytes plain size
unfolding pkcs7_unpad
unpad-ok bytes plain size e =
    let n = get_last_or bytes 0 in
    let (g, e1) = refuse_if-eq-ok (length bytes == 0 || not (length bytes % size == 0)) _ _ e in
    let (k, e2) = refuse_if-eq-ok (n == 0 || (ltb size n || ltb (length bytes) n)) _ _ e1 in
    let (m, e3) = refuse_if-eq-ok (not (all_equal n (drop (length bytes - n) bytes))) _ _ e2 in
    let short : n ≤ length bytes = ground arith in
    let same = replicate-of-all_equal n (drop (length bytes - n) bytes) (ground arith) in
    let size_eq : length (drop (length bytes - n) bytes) ≡ n =
      omega (arith, length-drop (length bytes - n) bytes) in
    (
      n,
      ground arith,
      ground arith,
      ground arith,
      sym (take-append-drop (length bytes - n) bytes)
          ∙ ap₂ (λ xs ys. xs ++ ys) (ok-injective e3) (same ∙ ap (λ k. replicate k n) size_eq),
    )

unpad_padded :
    (bytes plain : Bytes) (size : ℕ) → IsPadded bytes plain size → pkcs7_unpad bytes size ≡ ok plain
unpad_padded bytes plain size (zero, p, q, w, e) = absurd (omega arith)
unpad_padded bytes plain size (suc n, p, q, w, e) =
    let total : length (plain ++ replicate (suc n) (suc n)) ≡ length plain + suc n =
      length-append plain (replicate (suc n) (suc n))
      ∙ ap (λ k. length plain + k) (length-replicate (suc n) (suc n)) in
    rw e (unpad_lem plain size n q (rw (e, total) at w))

-- Unpadding accepts only whole blocks that end in a valid padding, and returns what stands before it.
pub unpad-ok_iff :
    (bytes plain : Bytes) (size : ℕ)
    → (pkcs7_unpad bytes size ≡ ok plain) ↔ IsPadded bytes plain size
unpad-ok_iff bytes plain size = (unpad-ok bytes plain size, unpad_padded bytes plain size)

All-replicate : (n v : ℕ) → IsByte v → All IsByte (replicate n v)
All-replicate zero v h = tt
All-replicate (suc n) v h = (h, All-replicate n v h)

pub pad-IsByte : (bytes : Bytes) → All IsByte bytes → All IsByte (pkcs7_pad bytes 16)
unfolding pkcs7_pad
pad-IsByte bytes h =
    All-append IsByte bytes _ h (All-replicate (16 - length bytes % 16) _ (omega arith))
