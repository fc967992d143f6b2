-- ===== src/License.antt =====
-- license/license.go: keys, what they activate, and the limits of the tiers. Go's `json`, `base64` and
-- `ed25519` are a parameter. Times are numbers; the zero time is `none`.
pub mod Tiers
pub mod Roundtrip
pub mod Range
pub mod Floor
pub mod Tests
use rulehawk.License.Tiers.{Tier, tier_free, Limits, free_limits, limits_for}
use rulehawk.Common.Text.{Text, codes, text_eq, has_prefix, drop, trim}
use rulehawk.Common.Int.{ℤ, pos, negsuc, ltb_ℤ}
use rulehawk.Common.{
  if◌then◌else◌, Option, ℕ, none, some, List, ◌∷◌, Bool, not, [], ◌==◌, ◌||◌, ltb, length, any,
  false, true, ◌++◌,
}
use rulehawk.Fwparse.Base.{is_blank}

-- `License`
pub record License : Type 0 where
  pub product : Text
  pub tier : Tier
  pub email : Text
  pub issued_at : ℕ
  pub expires_at : ℕ
  pub key_id : Text

-- What the package calls of Go's libraries, on bytes. `sign` and `verify` take a key first.
pub record Codec : Type 0 where
  pub marshal : License → Option Text
  pub unmarshal : Text → Option License
  pub encode : Text → Text
  pub decode : Text → Option Text
  pub sign : Text → Text → Text
  pub verify : Text → Text → Text → Bool

abbrev pub prefix : Text
prefix = codes "SNTL1-"

-- `ed25519.PublicKeySize`
abbrev pub public_key_size : ℕ
public_key_size = 32

-- The errors of the package; `expired` has the license with it.
pub data LicenseError : Type 0 where
  malformed bad_signature wrong_product : LicenseError
  expired : License → LicenseError

pub data Verified : Type 0 where
  valid : License → Verified
  refused : LicenseError → Verified

-- `strings.SplitN(s, ".", 2)`: what is before the first dot and behind it.
unfoldable pub at_dot : Text → Option (Text × Text)
at_dot [] = none
at_dot (c ∷ s) =
    let rest = at_dot s in
    if c == b'.'
    then some ([], s)
    else elim rest [ none ↦ none | some parts ↦ some (c ∷ parts.0, parts.1) ]

-- The sentence for the user; the date stands for itself.
pub data Notice : Type 0 where
  no_notice free_edition key_not_valid : Notice
  expired_on : ℕ → Notice

-- `Activation`
pub record Activation : Type 0 where
  pub tier : Tier
  pub limits : Limits
  pub license : Option License
  pub notice : Notice

abbrev pub free_activation : Notice → Activation
free_activation n = record { tier = tier_free; limits = free_limits; license = none; notice = n }

-- `strings.TrimPrefix`
unfoldable pub trim_prefix : Text → Text → Text
trim_prefix s p = if has_prefix s p then drop (length p) s else s

unfoldable pub activation_of : Verified → Activation
activation_of (valid lic) = record {
  tier = lic.tier;
  limits = limits_for lic.tier;
  license = some lic;
  notice = no_notice;
}
activation_of (refused (expired lic)) = free_activation (expired_on lic.expires_at)
activation_of (refused malformed) = free_activation key_not_valid
activation_of (refused bad_signature) = free_activation key_not_valid
activation_of (refused wrong_product) = free_activation key_not_valid

module _ (codec : Codec) where
  -- `Sign`; an error is `none`.
  unfoldable pub sign : Text → License → Option Text
  sign priv lic =
      if is_blank lic.product || is_blank lic.tier then none else elim (codec.marshal lic) [
        | none ↦ none
        | some payload ↦ some (
            prefix
            ++ (codec.encode payload ++ (codes "." ++ codec.encode (codec.sign priv payload))))
      ]

  -- The license of a payload whose signature is right.
  unfoldable pub check_license : Text → ℕ → Option License → Verified
  check_license product now none = refused malformed
  check_license product now (some lic) =
      if not (text_eq lic.product product)
      then refused wrong_product
      else if ltb lic.expires_at now
      then refused (expired lic)
      else valid lic

  unfoldable pub check_signature : Text → Text → ℕ → Text → Text → Verified
  check_signature pub_key product now payload sig =
      if not (length pub_key == public_key_size)
      then refused bad_signature
      else if not (codec.verify pub_key payload sig)
      then refused bad_signature
      else check_license product now (codec.unmarshal payload)

  -- The two parts of a key, decoded.
  unfoldable pub check_parts : Text → Text → ℕ → Option (Text × Text) → Verified
  check_parts pub_key product now none = refused malformed
  check_parts pub_key product now (some parts) = elim (codec.decode parts.0) [
    | none ↦ refused malformed
    | some payload ↦ elim (codec.decode parts.1) [
      | none ↦ refused malformed
      | some sig ↦ check_signature pub_key product now payload sig
    ]
  ]

  -- `Verify`
  unfoldable pub verify : Text → Text → Text → ℕ → Verified
  verify pub_key product key now =
      if not (has_prefix key prefix)
      then refused malformed
      else check_parts pub_key product now (at_dot (trim_prefix (trim key) prefix))

  -- `Activate`
  unfoldable pub activate : Text → Text → Text → ℕ → Activation
  activate pub_key product key now =
      if not (length pub_key == public_key_size)
      then free_activation (if is_blank (trim key) then no_notice else free_edition)
      else if is_blank (trim key)
      then free_activation no_notice
      else activation_of (verify pub_key product key now)
