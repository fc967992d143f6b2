-- ===== src/License/Tiers.antt =====
-- license/license.go: the tiers and their limits.
use rulehawk.Common.Text.{Text, codes, text_eq}
use rulehawk.Common.Int.{ℤ, pos, negsuc, ltb_ℤ}
use rulehawk.Common.{if◌then◌else◌, List, ◌∷◌, Bool, [], ◌==◌, ◌||◌, any, false, true}

-- `Tier`
abbrev pub Tier : Type 0
Tier = Text

abbrev pub tier_free : Tier
tier_free = codes "free"

abbrev pub tier_pro : Tier
tier_pro = codes "pro"

abbrev pub tier_team : Tier
tier_team = codes "team"

-- `Limits`
pub record Limits : Type 0 where
  pub max_targets : ℤ
  pub retention_days : ℤ
  pub channels : List Text
  pub multi_user : Bool
  pub custom_interval : Bool
  pub scan_now : Bool

-- `TierLimits`
abbrev pub free_limits : Limits
free_limits = record {
  max_targets = pos 10;
  retention_days = pos 7;
  channels = codes "webhook" ∷ [];
  multi_user = false;
  custom_interval = false;
  scan_now = false;
}

abbrev pub pro_limits : Limits
pro_limits = record {
  max_targets = pos 100;
  retention_days = pos 365;
  channels = codes "webhook" ∷ codes "email" ∷ codes "slack" ∷ codes "telegram" ∷ [];
  multi_user = false;
  custom_interval = true;
  scan_now = true;
}

abbrev pub team_limits : Limits
team_limits = record {
  max_targets = pos 0;
  retention_days = pos 0;
  channels =
      codes "webhook"
      ∷ codes "email"
      ∷ codes "slack"
      ∷ codes "telegram"
      ∷ codes "pagerduty"
      ∷ codes "teams"
      ∷ [];
  multi_user = true;
  custom_interval = true;
  scan_now = true;
}

-- `limitsFor`
unfoldable pub limits_for : Tier → Limits
limits_for t =
    if text_eq t tier_free
    then free_limits
    else if text_eq t tier_pro
    then pro_limits
    else if text_eq t tier_team
    then team_limits
    else free_limits

unfoldable pub is_zero : ℤ → Bool
is_zero (pos n) = n == 0
is_zero (negsuc n) = false

-- `CanAddTarget`
unfoldable pub can_add_target : Limits → ℤ → Bool
can_add_target l current = is_zero l.max_targets || ltb_ℤ current l.max_targets

-- `AllowsChannel`
unfoldable pub allows_channel : Limits → Text → Bool
allows_channel l name = any (λ c. text_eq c name) l.channels
