-- ===== src/License/Roundtrip.antt =====
-- license/license.go: a key that `Sign` makes is one that `Verify` takes.
use rulehawk.License.{
  sign, verify, at_dot, trim_prefix, prefix, Codec, License, check_signature, public_key_size,
  valid, check_parts, check_license,
}
use mathlib.Core.List.{reverse-reverse, reverse_aux}
use rulehawk.Common.{
  ℕ, Bool, All, ◌≡◌, ◌∷◌, ◌++◌, leb, true, some, false, if_false, ap, length, [], ◌&&◌, arith,
  reverse, ◌==◌, refl, ◌∙◌, ◌≤◌, ◌||◌, Bool-cases, ltb, inl, none_ne_some, inr, Option-cases,
  some_inj, subst,
}
use rulehawk.Common.Text.{Text, trim, is_space, drop_spaces, codes, has_prefix, drop, text_eq_refl}
use rulehawk.Fwparse.Base.{is_blank}

-- The characters of unpadded base64 for URLs.
abbrev pub is_key_char : ℕ → Bool
is_key_char c =
    (leb b'a' c && leb c b'z')
    || ((leb b'A' c && leb c b'Z') || ((leb b'0' c && leb c b'9') || ((c == b'-') || (c == b'_'))))

abbrev pub IsKeyText : Text → Type 0
IsKeyText s = All (λ c. is_key_char c ≡ true) s

-- What the package relies on in Go's libraries: base64 decodes what it encodes, to characters of its
-- alphabet; JSON decodes what it encodes of the license; and the public key verifies what the private key signs.
pub record IsCodec (codec : Codec) (priv pub_key : Text) (lic : License) : Type 0 where
  pub decodes : (s : Text) → codec.decode (codec.encode s) ≡ some s
  pub in_alphabet : (s : Text) → IsKeyText (codec.encode s)
  pub unmarshals : (s : Text) → codec.marshal lic ≡ some s → codec.unmarshal s ≡ some lic
  pub verifies : (s : Text) → codec.verify pub_key s (codec.sign priv s) ≡ true

-- No character is a space.
abbrev IsTight : Text → Type 0
IsTight s = All (λ c. is_space c ≡ false) s

key_char_is_tight : (c : ℕ) → is_key_char c ≡ true → is_space c ≡ false
unfolding is_space
key_char_is_tight c h = ground arith

key_char_is_no_dot : (c : ℕ) → is_key_char c ≡ true → (c == b'.') ≡ false
key_char_is_no_dot c h = ground arith

drop_spaces-IsTight : (s : Text) → IsTight s → drop_spaces s ≡ s
unfolding drop_spaces
drop_spaces-IsTight [] h = refl
drop_spaces-IsTight (c ∷ s) h = if_false (is_space c) _ _ h.0

All-append_texts : (P : ℕ → Type 0) (s t : Text) → All P s → All P t → All P (s ++ t)
All-append_texts P [] t hs ht = ht
All-append_texts P (c ∷ s) t hs ht = (hs.0, All-append_texts P s t hs.1 ht)

reverse_aux-All : (P : ℕ → Type 0) (s t : Text) → All P s → All P t → All P (reverse_aux s t)
reverse_aux-All P [] t hs ht = ht
reverse_aux-All P (c ∷ s) t hs ht = reverse_aux-All P s (c ∷ t) hs.1 (hs.0, ht)

trim-IsTight : (s : Text) → IsTight s → trim s ≡ s
unfolding trim
trim-IsTight s h =
    ap (λ r. reverse (drop_spaces (reverse r))) (drop_spaces-IsTight s h)
    ∙ ap reverse
        (drop_spaces-IsTight (reverse s) (reverse_aux-All (λ c. is_space c ≡ false) s [] h tt))
    ∙ reverse-reverse s

IsKeyText-IsTight : (s : Text) → IsKeyText s → IsTight s
IsKeyText-IsTight [] h = tt
IsKeyText-IsTight (c ∷ s) h = (key_char_is_tight c h.0, IsKeyText-IsTight s h.1)

at_dot-append : (s t : Text) → IsKeyText s → at_dot (s ++ (codes "." ++ t)) ≡ some (s, t)
unfolding at_dot
at_dot-append [] t h = refl
at_dot-append (c ∷ s) t h = rw (key_char_is_no_dot c h.0, at_dot-append s t h.1) refl

module _ (codec : Codec) (priv pub_key : Text) (lic : License)
    (ok : IsCodec codec priv pub_key lic) where
  verify-parts :
      (payload sig : Text) (product : Text) (now : ℕ)
      → verify codec pub_key product
          (prefix ++ (codec.encode payload ++ (codes "." ++ codec.encode sig)))
          now
        ≡ check_signature codec pub_key product now payload sig
  unfolding verify check_parts has_prefix trim_prefix drop is_space
  verify-parts payload sig product now =
      let body = codec.encode payload ++ (codes "." ++ codec.encode sig) in
      let texts =
        All-append_texts (λ c. is_space c ≡ false) (codec.encode payload)
          (codes "." ++ codec.encode sig)
          (IsKeyText-IsTight (codec.encode payload) (ok.in_alphabet payload))
          (refl, IsKeyText-IsTight (codec.encode sig) (ok.in_alphabet sig)) in
      let tight : IsTight (prefix ++ body) =
        (refl, (refl, (refl, (refl, (refl, (refl, texts)))))) in
      ap (λ k. check_parts codec pub_key product now (at_dot (trim_prefix k prefix)))
        (trim-IsTight (prefix ++ body) tight)
      ∙ ap (check_parts codec pub_key product now)
          (at_dot-append (codec.encode payload) (codec.encode sig) (ok.in_alphabet payload))
      ∙ rw (ok.decodes payload, ok.decodes sig, check_parts) refl

  signed-valid :
      (payload : Text) (now : ℕ)
      → length pub_key ≡ public_key_size
      → now ≤ lic.expires_at
      → codec.marshal lic ≡ some payload
      → check_signature codec pub_key lic.product now payload (codec.sign priv payload) ≡ valid lic
  unfolding check_signature check_license
  signed-valid payload now size in_time m =
      let sized : (length pub_key == public_key_size) ≡ true = ground arith in
      let early : ltb lic.expires_at now ≡ false = ground arith in
      rw (sized, ok.verifies payload, ok.unmarshals payload m, text_eq_refl lic.product, early) refl

  -- For libraries that decode what they encode, with a public key of the right size: a key signed for a
  -- license verifies, for the product of the license and until it expires, as that license.
  pub verify-sign :
      (key : Text) (now : ℕ)
      → length pub_key ≡ public_key_size
      → now ≤ lic.expires_at
      → sign codec priv lic ≡ some key
      → verify codec pub_key lic.product key now ≡ valid lic
  unfolding sign
  verify-sign key now size in_time e =
      elim (Bool-cases (is_blank lic.product || is_blank lic.tier)) [
        | inl y ↦ absurd (none_ne_some (rw y at e))
        | inr n ↦ elim (Option-cases (codec.marshal lic)) [
          | inl bad ↦ absurd (none_ne_some (rw (n, bad) at e))
          | inr p ↦
              let same = some_inj (rw (n, p.1) at e) in
              subst (λ k. verify codec pub_key lic.product k now ≡ valid lic) same
                (verify-parts p.0 (codec.sign priv p.0) lic.product now
                  ∙ signed-valid p.0 now size in_time p.1)
        ]
      ]
