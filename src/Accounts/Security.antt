-- ===== src/Accounts/Security.antt =====
-- The checks of src/auth/security.py on top of the cryptographic libraries.
use criptotrade.Base.{
  String, Bool, ◌&&◌, is_some, Option, none, some, List, [], ◌∷◌, if◌then◌else◌, map,
}
use mathlib.Core.Option
use criptotrade.Base.Text.{strip, without, lower, truthy}
use criptotrade.Accounts.{Crypto}

module _ ⦃c : Crypto⦄ where
  -- `password_hash or DUMMY_HASH`
  abbrev or_dummy : Option String → String
  or_dummy none = c.dummy_hash
  or_dummy (some h) = if truthy h then h else c.dummy_hash

  -- `verify_password`
  unfoldable pub verify_password : Option String → String → Bool
  verify_password h password = c.verifies (or_dummy h) password && is_some h

  -- `verify_totp`
  unfoldable pub verify_totp : String → String → Bool
  verify_totp secret totp_code = c.totp_verifies secret (without " " (strip totp_code))

  abbrev normalized : String → String
  normalized backup_code = without " " (without "-" (lower (strip backup_code)))

  unfoldable pub consume_hash : List String → String → Option (List String)
  consume_hash [] typed = none
  consume_hash (h ∷ hashes) typed =
      let rest = Option.map (List.◌∷◌ h) (consume_hash hashes typed) in
      if c.verifies h typed then some hashes else rest

  -- `consume_backup_code`
  unfoldable pub consume_backup_code : List String → String → Option (List String)
  unfolding consume_hash
  consume_backup_code hashes backup_code = consume_hash hashes (normalized backup_code)

  -- `generate_backup_codes`, on the codes and the salts that were drawn: the hashes that are stored.
  unfoldable pub generate_backup_codes : List (String × String) → List String
  generate_backup_codes drawn = map (λ d. c.hash d.0 d.1) drawn
