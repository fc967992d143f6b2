-- ===== src/License/Floor.antt =====
-- license/license.go: what a key can activate.
use rulehawk.License.{
  Codec, check_signature, check_parts, verify, Activation, activation_of, activate, License,
  Verified, LicenseError, valid, refused, malformed, public_key_size, prefix, expired, at_dot,
  trim_prefix, bad_signature, wrong_product, check_license,
}
use rulehawk.License.Tiers.{limits_for, tier_free, free_limits}
use rulehawk.Common.Text.{Text, has_prefix, trim, text_eq, text_eq→eq}
use rulehawk.Common.{
  ℕ, ◌≡◌, Option, if_keeps, ◌⊎◌, length, not, some, Option-keeps, none, inr, ◌==◌, true, inl, ◌≤◌,
  refl, Bool-cases, if_true, arith, ap, if_other, ltb, subst,
}
use rulehawk.Fwparse.Base.{is_blank}

refused_is_not_valid : {err : LicenseError} {lic : License} → refused err ≡ valid lic → ⊥
refused_is_not_valid e = cc

valid_inj : {a b : License} → valid a ≡ valid b → a ≡ b
valid_inj e = cc

-- The free tier, whatever the notice.
abbrev pub IsFree : Activation → Type 0
IsFree a = (a.tier ≡ tier_free) × (a.limits ≡ free_limits) × (a.license ≡ none)

module _ (codec : Codec) where
  -- The two parts of the key decode to these.
  abbrev pub IsHeld : Text → Text → Text → Type 0
  IsHeld key payload signature =
      (parts : Text × Text) × ((at_dot (trim_prefix (trim key) prefix) ≡ some parts)
        × ((codec.decode parts.0 ≡ some payload) × (codec.decode parts.1 ≡ some signature)))

  -- The key holds the license, signed with the issuer's key, for the product and not expired.
  pub record IsGenuine (pub_key product key : Text) (now : ℕ) (lic : License) : Type 0 where
    pub payload : Text
    pub signature : Text
    pub held : IsHeld key payload signature
    pub key_size : length pub_key ≡ public_key_size
    pub signed : codec.verify pub_key payload signature ≡ true
    pub reads : codec.unmarshal payload ≡ some lic
    pub for_product : lic.product ≡ product
    pub in_time : now ≤ lic.expires_at

  -- What `Verify` says of a key.
  abbrev pub IsHonest : Text → Text → Text → ℕ → Verified → Type 0
  IsHonest pub_key product key now v =
      (lic : License) → v ≡ valid lic → IsGenuine pub_key product key now lic

  refused-IsHonest :
      (pub_key product key : Text) (now : ℕ) (err : LicenseError)
      → IsHonest pub_key product key now (refused err)
  refused-IsHonest pub_key product key now err lic e = absurd (refused_is_not_valid e)

  check_license-IsHonest :
      (pub_key product key : Text) (now : ℕ) (payload sig : Text) (o : Option License)
      → IsHeld key payload sig
      → length pub_key ≡ public_key_size
      → codec.verify pub_key payload sig ≡ true
      → codec.unmarshal payload ≡ o
      → IsHonest pub_key product key now (check_license codec product now o)
  unfolding check_license
  check_license-IsHonest pub_key product key now payload sig none held size ok e =
      refused-IsHonest pub_key product key now malformed
  check_license-IsHonest pub_key product key now payload sig (some lic) held size ok e =
      elim (Bool-cases (text_eq lic.product product)) [
        | inr other ↦
            if_true (IsHonest pub_key product key now) (not (text_eq lic.product product)) _ _
              (ap not other) (refused-IsHonest pub_key product key now wrong_product)
        | inl same ↦
            if_other (IsHonest pub_key product key now) (not (text_eq lic.product product)) _ _
              (ap not same)
              (elim (Bool-cases (ltb lic.expires_at now)) [
                | inl late ↦
                    if_true (IsHonest pub_key product key now) (ltb lic.expires_at now) _ _ late
                      (refused-IsHonest pub_key product key now (expired lic))
                | inr in_time ↦
                    if_other (IsHonest pub_key product key now) (ltb lic.expires_at now) _ _ in_time
                      (λ found v. subst (IsGenuine pub_key product key now) (valid_inj v) (record {
                        payload = payload;
                        signature = sig;
                        held = held;
                        key_size = size;
                        signed = ok;
                        reads = e;
                        for_product = text_eq→eq lic.product product same;
                        in_time = ground arith;
                      }))
              ])
      ]

  check_signature-IsHonest :
      (pub_key product key : Text) (now : ℕ) (payload sig : Text)
      → IsHeld key payload sig
      → IsHonest pub_key product key now (check_signature codec pub_key product now payload sig)
  unfolding check_signature
  check_signature-IsHonest pub_key product key now payload sig held =
      let P : Verified → Type 0 = IsHonest pub_key product key now in
      let bad = refused-IsHonest pub_key product key now bad_signature in
      elim (Bool-cases (length pub_key == public_key_size)) [
        | inr n ↦ if_true P (not (length pub_key == public_key_size)) _ _ (ap not n) bad
        | inl size ↦
            if_other P (not (length pub_key == public_key_size)) _ _ (ap not size)
              (elim (Bool-cases (codec.verify pub_key payload sig)) [
                | inr n ↦ if_true P (not (codec.verify pub_key payload sig)) _ _ (ap not n) bad
                | inl ok ↦ if_other P (not (codec.verify pub_key payload sig)) _ _ (ap not ok) (
                    check_license-IsHonest pub_key product key now payload sig
                      (codec.unmarshal payload) held (ground arith) ok refl)
              ])
      ]

  check_parts-IsHonest :
      (pub_key product key : Text) (now : ℕ) (parts : Option (Text × Text))
      → at_dot (trim_prefix (trim key) prefix) ≡ parts
      → IsHonest pub_key product key now (check_parts codec pub_key product now parts)
  unfolding check_parts
  check_parts-IsHonest pub_key product key now none split =
      refused-IsHonest pub_key product key now malformed
  check_parts-IsHonest pub_key product key now (some parts) split =
      Option-keeps (IsHonest pub_key product key now) (codec.decode parts.0) _ _
        (λ e. refused-IsHonest pub_key product key now malformed)
        (λ payload first.
          Option-keeps (IsHonest pub_key product key now) (codec.decode parts.1) _ _
            (λ e. refused-IsHonest pub_key product key now malformed)
            (λ sig second.
              check_signature-IsHonest pub_key product key now payload sig
                (parts, (split, (first, second)))))

  verify-IsHonest :
      (pub_key product key : Text) (now : ℕ)
      → IsHonest pub_key product key now (verify codec pub_key product key now)
  unfolding verify
  verify-IsHonest pub_key product key now =
      if_keeps (IsHonest pub_key product key now) (not (has_prefix key prefix)) _ _
        (refused-IsHonest pub_key product key now malformed)
        (check_parts-IsHonest pub_key product key now (at_dot (trim_prefix (trim key) prefix)) refl)

  -- The tier of a genuine license.
  abbrev pub IsPaid : Text → Text → Text → ℕ → Activation → Type 0
  IsPaid pub_key product key now a =
      (lic : License) × (IsGenuine pub_key product key now lic
        × ((a.tier ≡ lic.tier) × (a.limits ≡ limits_for lic.tier) × (a.license ≡ some lic)))

  activation_of-cases :
      (pub_key product key : Text) (now : ℕ) (v : Verified)
      → IsHonest pub_key product key now v
      → IsFree (activation_of v) ⊎ IsPaid pub_key product key now (activation_of v)
  unfolding activation_of
  activation_of-cases pub_key product key now (valid lic) h =
      inr (lic, (h lic refl, (refl, refl, refl)))
  activation_of-cases pub_key product key now (refused (expired lic)) h = inl (refl, refl, refl)
  activation_of-cases pub_key product key now (refused malformed) h = inl (refl, refl, refl)
  activation_of-cases pub_key product key now (refused bad_signature) h = inl (refl, refl, refl)
  activation_of-cases pub_key product key now (refused wrong_product) h = inl (refl, refl, refl)

  -- Whatever the key, the product runs: on the free limits, or with the limits of the tier of a license.
  -- Then the key decodes to a payload and a signature that the issuer's key verifies, and the payload
  -- reads as that license, which is for this product and has not expired.
  pub activate-IsPaid :
      (pub_key product key : Text) (now : ℕ)
      → IsFree (activate codec pub_key product key now)
        ⊎ IsPaid pub_key product key now (activate codec pub_key product key now)
  unfolding activate
  activate-IsPaid pub_key product key now =
      let P : Activation → Type 0 = (λ a. IsFree a ⊎ IsPaid pub_key product key now a) in
      if_keeps P (not (length pub_key == public_key_size)) _ _ (inl (refl, refl, refl)) (
        if_keeps P (is_blank (trim key)) _ _ (inl (refl, refl, refl)) (
          activation_of-cases pub_key product key now (verify codec pub_key product key now)
            (verify-IsHonest pub_key product key now)))
