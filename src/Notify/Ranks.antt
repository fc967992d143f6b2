-- ===== src/Notify/Ranks.antt =====
-- notify/notify.go: the ranks of severities, and the sort by them.
use rulehawk.Core.{
  Severity, Finding, severity_critical, severity_high, severity_medium, severity_low,
}
use rulehawk.Common.{List, ℕ, ◌∷◌, [], if◌then◌else◌, ltb}

-- `severityRank`
unfoldable pub severity_rank : Severity → ℕ
severity_rank severity_critical = 4
severity_rank severity_high = 3
severity_rank severity_medium = 2
severity_rank severity_low = 1
severity_rank _ = 0

-- The inner loop of `sortBySeverity`: the finding moves up past those of less severity. The findings
-- before it stand with the nearest one first.
unfoldable pub sink : Finding → List Finding → List Finding
sink f [] = f ∷ []
sink f (g ∷ before) =
    let rest = sink f before in
    if ltb (severity_rank g.severity) (severity_rank f.severity) then g ∷ rest else f ∷ g ∷ before

-- The findings in their order, from those that stand with the nearest one first.
unfoldable pub unwind : List Finding → List Finding → List Finding
unwind [] out = out
unwind (g ∷ before) out = unwind before (g ∷ out)

-- The outer loop.
unfoldable pub sort_from : List Finding → List Finding → List Finding
sort_from before [] = unwind before []
sort_from before (f ∷ fs) = sort_from (sink f before) fs

-- `sortBySeverity`
unfoldable pub sort_by_severity : List Finding → List Finding
sort_by_severity fs = sort_from [] fs
