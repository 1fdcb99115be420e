-- ===== src/Password.antt =====
-- apps/api/src/common/utils/password.ts, and the hashing of tokens in
-- apps/api/src/modules/auth/auth.service.ts. scrypt, SHA-256 and the random bytes are parameters.
pub mod RoundTrip
use wealth_track.Prelude.{
  ℕ, ◌+◌, ◌*◌, ◌-◌, ◌/◌, ◌%◌, Bool, true, false, not, ◌&&◌, ◌||◌, List, [], ◌∷◌, ◌++◌, Option, none,
  some, leb, ltb, ◌==◌, if◌then◌else◌,
}
use wealth_track.Prelude.Text.{Text, codes, text_eq, is_empty}

-- The bytes of a buffer.
abbrev pub Bytes : Type 0
Bytes = List ℕ

abbrev pub hex_digit : ℕ → ℕ
hex_digit n = if ltb n 10 then 48 + n else 87 + n

-- `buffer.toString('hex')`
unfoldable pub to_hex : Bytes → Text
to_hex [] = []
to_hex (b ∷ bytes) = hex_digit (b / 16) ∷ hex_digit (b % 16) ∷ to_hex bytes

abbrev pub hex_value : ℕ → Option ℕ
hex_value c =
    if leb 48 c && leb c 57
    then some (c - 48)
    else if leb 97 c && leb c 102
    then some (c - 87)
    else if leb 65 c && leb c 70
    then some (c - 55)
    else none

abbrev pub byte : Option ℕ → Option ℕ → Bytes → Bytes
byte none low rest = []
byte (some high) none rest = []
byte (some high) (some low) rest = (16 * high + low) ∷ rest

-- `Buffer.from(s, 'hex')`, which ends at the first pair that is not of hexadecimal digits.
unfoldable pub from_hex : Text → Bytes
from_hex [] = []
from_hex (c ∷ []) = []
from_hex (c ∷ d ∷ s) = let rest = from_hex s in byte (hex_value c) (hex_value d) rest

-- `s.split(':')`: what stands before the first colon, and what follows it.
unfoldable pub before_colon : Text → Text
before_colon [] = []
before_colon (c ∷ s) = if c == b':' then [] else c ∷ before_colon s

unfoldable pub after_colon : Text → Option Text
after_colon [] = none
after_colon (c ∷ s) = if c == b':' then some s else after_colon s

module _ (scrypt : Text → Text → Bytes) where
  -- `hashPassword`, for the random bytes of the salt.
  unfoldable pub hash_password : Bytes → Text → Text
  unfolding to_hex
  hash_password random password =
      let salt = to_hex random in salt ++ codes ":" ++ to_hex (scrypt password salt)

  check_hash : Text → Text → Option Text → Bool
  unfolding from_hex before_colon
  check_hash password salt none = false
  check_hash password salt (some rest) =
      let stored_hash = before_colon rest in
      if is_empty salt || is_empty stored_hash
      then false
      else text_eq (scrypt password salt) (from_hex stored_hash)

  unfoldable pub verify_password : Text → Text → Bool
  unfolding check_hash before_colon after_colon
  verify_password password password_hash =
      check_hash password (before_colon password_hash) (after_colon password_hash)

module _ (sha256 : Text → Bytes) where
  unfoldable pub hash_token : Text → Text
  unfolding to_hex
  hash_token raw = to_hex (sha256 raw)

  unfoldable pub verify_token : Text → Text → Bool
  unfolding hash_token from_hex
  verify_token raw stored_hash = text_eq (from_hex (hash_token raw)) (from_hex stored_hash)
