-- ===== src/License/Tests.antt =====
-- Keys of libraries that write a byte as a row of letters, and that sign everything alike.
use rulehawk.License.Floor.{IsFree, IsPaid, activate-IsPaid}
use rulehawk.License.Range.{IsBetween, limits_for-IsBetween}
use rulehawk.License.Roundtrip.{IsCodec, verify-sign, IsKeyText}
use rulehawk.License.{License, Codec, sign, verify, activate, prefix, valid}
use rulehawk.License.Tiers.{limits_for, tier_team, tier_pro}
use rulehawk.Common.{
  ℕ, [], ◌∷◌, Option, ◌≡◌, suc, some, ◌+◌, ◌∙◌, true, ◌⊎◌, if◌then◌else◌, ◌++◌, zero, none, refl,
  ap, arith, ◌==◌,
}
use rulehawk.Common.Text.{Text, codes}
use rulehawk.Fwparse.Base.{is_blank}

abbrev pro_license : License
pro_license = record {
  product = codes "rulehawk";
  tier = tier_pro;
  email = codes "a@b.c";
  issued_at = 1;
  expires_at = 9;
  key_id = codes "k1";
}

-- A number of letters `a`, and a `b` behind them.
unfoldable row : ℕ → Text → Text
row zero s = b'b' ∷ s
row (suc n) s = b'a' ∷ row n s

unfoldable rows : Text → Text
rows [] = []
rows (c ∷ s) = row c (rows s)

unfoldable before : ℕ → Option Text → Option Text
before n none = none
before n (some s) = some (n ∷ s)

unfoldable read_rows : ℕ → Text → Option Text
read_rows n [] = some []
read_rows n (c ∷ s) =
    let next = read_rows 0 s in
    let more = read_rows (suc n) s in if c == b'b' then before n next else more

read_rows-row : (n k : ℕ) (s : Text) → read_rows n (row k s) ≡ before (n + k) (read_rows 0 s)
unfolding read_rows row
read_rows-row n zero s = ap (λ m. before m (read_rows 0 s)) (omega arith)
read_rows-row n (suc k) s =
    read_rows-row (suc n) k s ∙ ap (λ m. before m (read_rows 0 s)) (omega arith)

read_rows-rows : (s : Text) → read_rows 0 (rows s) ≡ some s
unfolding read_rows rows before
read_rows-rows [] = refl
read_rows-rows (c ∷ s) =
    read_rows-row 0 c (rows s)
    ∙ ap (λ m. before m (read_rows 0 (rows s))) (omega arith)
    ∙ ap (before c) (read_rows-rows s)

row-IsKeyText : (n : ℕ) (s : Text) → IsKeyText s → IsKeyText (row n s)
unfolding row
row-IsKeyText zero s h = (refl, h)
row-IsKeyText (suc n) s h = (refl, row-IsKeyText n s h)

rows-IsKeyText : (s : Text) → IsKeyText (rows s)
unfolding rows
rows-IsKeyText [] = tt
rows-IsKeyText (c ∷ s) = row-IsKeyText c (rows s) (rows-IsKeyText s)

abbrev row_codec : Codec
row_codec = record {
  marshal = λ lic. some (codes "pro");
  unmarshal = λ s. some pro_license;
  encode = rows;
  decode = read_rows 0;
  sign = λ priv s. codes "!";
  verify = λ pub_key s sig. true;
}

abbrev issuer_key : Text
issuer_key = codes "0123456789abcdef0123456789abcdef"

row_codec-IsCodec : IsCodec row_codec [] issuer_key pro_license
row_codec-IsCodec = record {
  decodes = read_rows-rows;
  in_alphabet = rows-IsKeyText;
  unmarshals = λ s e. refl;
  verifies = λ s. refl;
}

abbrev signed_key : Text
signed_key = prefix ++ (rows (codes "pro") ++ (codes "." ++ rows (codes "!")))

is_signed : sign row_codec [] pro_license ≡ some signed_key
unfolding sign is_blank
is_signed = refl

verify-sign_example :
    verify row_codec issuer_key (codes "rulehawk") signed_key 5 ≡ valid pro_license
verify-sign_example =
    verify-sign row_codec [] issuer_key pro_license row_codec-IsCodec signed_key 5 refl
      (omega arith) is_signed

activate-IsPaid_example :
    IsFree (activate row_codec issuer_key (codes "rulehawk") signed_key 5)
    ⊎ IsPaid row_codec issuer_key
        (codes "rulehawk")
        signed_key
        5
        (activate row_codec issuer_key (codes "rulehawk") signed_key 5)
activate-IsPaid_example = activate-IsPaid row_codec issuer_key (codes "rulehawk") signed_key 5

limits_for-IsBetween_example : IsBetween (limits_for tier_team)
limits_for-IsBetween_example = limits_for-IsBetween tier_team
