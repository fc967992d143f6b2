-- ===== src/License/Range.antt =====
-- license/license.go: the tiers allow no less than the free one and no more than the team one.
use rulehawk.License.Tiers.{
  limits_for, can_add_target, allows_channel, tier_free, is_zero, free_limits, Tier, Limits,
  pro_limits, team_limits, tier_pro, tier_team,
}
use rulehawk.Common.Text.{Text, text_eq}
use rulehawk.Common.{ℕ, ◌≡◌, if_keeps, ◌⊎◌, any, inr, true, inl, ◌≤◌, refl, arith, suc, sym, ◌∙◌}
use rulehawk.Common.Int.{ℤ, pos}

pos_inj : {a b : ℕ} → pos a ≡ pos b → a ≡ b
pos_inj e = cc

-- The number of days for which the limits keep resolved findings is at least this; zero days keep them
-- for ever.
abbrev pub Retains : Limits → ℕ → Type 0
Retains l days = (n : ℕ) × ((l.retention_days ≡ pos n) × ((n ≡ 0) ⊎ (days ≤ n)))

-- The second limits allow at least what the first do: targets, channels, every length of retention
-- and every flag.
pub record IsWithin (a b : Limits) : Type 0 where
  pub targets : (current : ℤ) → can_add_target a current ≡ true → can_add_target b current ≡ true
  pub retention : (days : ℕ) → Retains a days → Retains b days
  pub channels : (name : Text) → allows_channel a name ≡ true → allows_channel b name ≡ true
  pub multi_user : a.multi_user ≡ true → b.multi_user ≡ true
  pub custom_interval : a.custom_interval ≡ true → b.custom_interval ≡ true
  pub scan_now : a.scan_now ≡ true → b.scan_now ≡ true

same-IsWithin : (l : Limits) → IsWithin l l
same-IsWithin l = record {
  targets = λ current h. h;
  retention = λ days h. h;
  channels = λ name h. h;
  multi_user = λ h. h;
  custom_interval = λ h. h;
  scan_now = λ h. h;
}

-- A retention of some days allows no more than that number of them.
Retains-bound :
    (l : Limits) (n days : ℕ) → l.retention_days ≡ pos (suc n) → Retains l days → days ≤ suc n
Retains-bound l n days e (k, (same, some_or_all)) =
    let k_n : k ≡ suc n = pos_inj (sym same ∙ e) in
    elim some_or_all [ inl zero_days ↦ ground arith | inr le ↦ ground arith ]

free-IsWithin_pro : IsWithin free_limits pro_limits
unfolding can_add_target allows_channel is_zero any
free-IsWithin_pro = record {
  targets = λ current h. ground arith;
  retention = λ days h.
      let le = Retains-bound free_limits 6 days refl h in (365, (refl, inr (ground arith)));
  channels = λ name h. ground arith;
  multi_user = λ h. h;
  custom_interval = λ h. refl;
  scan_now = λ h. refl;
}

pro-IsWithin_team : IsWithin pro_limits team_limits
unfolding can_add_target allows_channel is_zero any
pro-IsWithin_team = record {
  targets = λ current h. ground arith;
  retention = λ days h. (0, (refl, inl refl));
  channels = λ name h. ground arith;
  multi_user = λ h. refl;
  custom_interval = λ h. refl;
  scan_now = λ h. refl;
}

free-IsWithin_team : IsWithin free_limits team_limits
unfolding can_add_target allows_channel is_zero any
free-IsWithin_team = record {
  targets = λ current h. ground arith;
  retention = λ days h. (0, (refl, inl refl));
  channels = λ name h. ground arith;
  multi_user = λ h. refl;
  custom_interval = λ h. refl;
  scan_now = λ h. refl;
}

-- The limits of the tier stand between those of the free tier and those of the team tier.
abbrev pub IsBetween : Limits → Type 0
IsBetween l = IsWithin free_limits l × IsWithin l team_limits

-- Every tier, known or not, allows at least what the free tier does and at most what the team tier
-- does: in targets, in days of retention, in channels, and in each of the three flags.
pub limits_for-IsBetween : (t : Tier) → IsBetween (limits_for t)
unfolding limits_for
limits_for-IsBetween t =
    let free : IsBetween free_limits = (same-IsWithin free_limits, free-IsWithin_team) in
    if_keeps IsBetween (text_eq t tier_free) _ _ free (
      if_keeps IsBetween (text_eq t tier_pro) _ _ (free-IsWithin_pro, pro-IsWithin_team)
        (if_keeps IsBetween (text_eq t tier_team) _ _
          (free-IsWithin_team, same-IsWithin team_limits) free))
