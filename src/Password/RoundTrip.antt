-- ===== src/Password/RoundTrip.antt =====
-- Hexadecimal text is read back as its bytes, and a password is accepted by its own hash.
use wealth_track.Prelude.{
  ℕ, ◌≡◌, ◌<◌, ◌/◌, ◌%◌, ◌↔◌, refl, ap, true, false, [], ◌∷◌, ◌++◌, append_assoc, some, All, arith,
  ◌==◌, length,
}
use wealth_track.Prelude.Text.{Text, codes, text_eq_iff, is_empty}
use wealth_track.Password.{
  Bytes, hex_digit, hex_value, to_hex, from_hex, before_colon, after_colon, hash_password,
  check_hash, verify_password, hash_token, verify_token,
}

abbrev pub AreBytes : Bytes → Type 0
AreBytes = All (λ b. b < 256)

hex_value-hex_digit : (n : ℕ) → n < 16 → hex_value (hex_digit n) ≡ some n
hex_value-hex_digit n h = ground arith

pub from_hex-to_hex : (bytes : Bytes) → AreBytes bytes → from_hex (to_hex bytes) ≡ bytes
unfolding from_hex to_hex
from_hex-to_hex [] h = refl
from_hex-to_hex (b ∷ bytes) h =
    rw
      (
        hex_value-hex_digit (b / 16) (omega (arith, h.0)),
        hex_value-hex_digit (b % 16) (omega arith),
        from_hex-to_hex bytes h.1,
      )
      (ap (λ x. x ∷ bytes) (omega arith))

no_colon : (n : ℕ) → n < 16 → (hex_digit n == b':') ≡ false
no_colon n h = ground arith

before_colon-to_hex :
    (bytes : Bytes) (s : Text)
    → AreBytes bytes
    → before_colon (to_hex bytes ++ b':' ∷ s) ≡ to_hex bytes
unfolding before_colon to_hex
before_colon-to_hex [] s h = refl
before_colon-to_hex (b ∷ bytes) s h =
    rw
      (
        no_colon (b / 16) (omega (arith, h.0)),
        no_colon (b % 16) (omega arith),
        before_colon-to_hex bytes s h.1,
      )
      refl

before_colon-hex : (bytes : Bytes) → AreBytes bytes → before_colon (to_hex bytes) ≡ to_hex bytes
unfolding before_colon to_hex
before_colon-hex [] h = refl
before_colon-hex (b ∷ bytes) h =
    rw
      (
        no_colon (b / 16) (omega (arith, h.0)),
        no_colon (b % 16) (omega arith),
        before_colon-hex bytes h.1,
      )
      refl

after_colon-to_hex :
    (bytes : Bytes) (s : Text) → AreBytes bytes → after_colon (to_hex bytes ++ b':' ∷ s) ≡ some s
unfolding after_colon to_hex
after_colon-to_hex [] s h = refl
after_colon-to_hex (b ∷ bytes) s h =
    rw
      (
        no_colon (b / 16) (omega (arith, h.0)),
        no_colon (b % 16) (omega arith),
        after_colon-to_hex bytes s h.1,
      )
      refl

not_empty : (bytes : Bytes) → 0 < length bytes → is_empty (to_hex bytes) ≡ false
unfolding to_hex
not_empty [] h = grind arith
not_empty (b ∷ bytes) h = refl

module _ (scrypt : Text → Text → Bytes) where
  -- A password is accepted by the hash of another exactly when scrypt gives both the same key under
  -- the salt of that hash, provided that the salt and the key of the other are not empty and
  -- consist of bytes.
  pub verify_password-hash_password :
      (random : Bytes) (password other : Text)
      → AreBytes random
      → 0 < length random
      → AreBytes (scrypt other (to_hex random))
      → 0 < length (scrypt other (to_hex random))
      → (verify_password scrypt password (hash_password scrypt random other) ≡ true)
        ↔ (scrypt password (to_hex random) ≡ scrypt other (to_hex random))
  unfolding verify_password hash_password check_hash
  verify_password-hash_password random password other h n k m =
      let salt = to_hex random in
      let key = to_hex (scrypt other salt) in
      rw
        (
          append_assoc salt (codes ":") key,
          before_colon-to_hex random key h,
          after_colon-to_hex random key h,
          before_colon-hex (scrypt other salt) k,
          not_empty random n,
          not_empty (scrypt other salt) m,
          from_hex-to_hex (scrypt other salt) k,
        )
        (text_eq_iff (scrypt password salt) (scrypt other salt))

-- A token is accepted by the stored hash of another exactly when SHA-256 gives both the same bytes.
verify_token-hash_token :
    (sha256 : Text → Bytes) (raw other : Text)
    → AreBytes (sha256 raw)
    → AreBytes (sha256 other)
    → (verify_token sha256 raw (hash_token sha256 other) ≡ true) ↔ (sha256 raw ≡ sha256 other)
unfolding verify_token hash_token
verify_token-hash_token sha256 raw other h k =
    rw (from_hex-to_hex (sha256 raw) h, from_hex-to_hex (sha256 other) k)
      (text_eq_iff (sha256 raw) (sha256 other))
