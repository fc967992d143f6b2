-- ===== src/Audit/Valid.antt =====
-- rulehawk/rulehawk.go: what the collector reports, the core takes.
use rulehawk.Common.{
  none, some, ◌≡◌, true, false, Bool-cases, ◌++◌, refl, inl, ◌∷◌, List, if_true, if_keeps, [], inr,
  All, Option-keeps, if_other, map, Option, none_ne_some, subst, length, some_inj,
}
use rulehawk.Audit.Texts.{IsTitled, AllTitled, AllTitled-append, drift-AllTitled, analyze-AllTitled}
use rulehawk.Core.{Finding, valid, validate_for_ingest, blank, Severity, rank, severity_low}
use rulehawk.Audit.{
  or_low, or_review, Libraries, Config, issue_finding, unparsed_findings, drift_issues, collect,
  fingerprint, unparsed_finding, audit, severity_of, findings_of, is_nothing,
}
use rulehawk.Common.Text.{trim, Text, drop_spaces, itoa}
use rulehawk.Fwparse.Base.{is_blank, Parsed}
use rulehawk.Fwrule.Analyze.{Issue}
use rulehawk.Fwparse.{parse}
use rulehawk.Fwrule.Checks.{analyze}

-- The core takes the finding.
abbrev pub IsTaken : Finding → Type 0
IsTaken f = validate_for_ingest f ≡ none

low_is_valid : valid severity_low ≡ true
unfolding valid rank
low_is_valid = refl

blank-append : (s t : Text) → blank t ≡ false → blank (s ++ t) ≡ false
unfolding blank
blank-append [] t h = h
blank-append (c ∷ s) t h = refl

or_low-valid : (s : Severity) → valid (or_low s) ≡ true
unfolding or_low
or_low-valid s = elim (Bool-cases (valid s)) [
  | inl y ↦ if_true (λ v. valid v ≡ true) (valid s) _ _ y y
  | inr n ↦ if_other (λ v. valid v ≡ true) (valid s) _ _ n low_is_valid
]

or_review-blank : (fix : Text) → blank (or_review fix) ≡ false
unfolding or_review blank trim drop_spaces is_blank
or_review-blank [] = refl
or_review-blank (c ∷ fix) =
    if_keeps (λ s. blank s ≡ false) (is_blank (trim (c ∷ fix))) _ _ refl refl

taken :
    (f : Finding)
    → blank f.fingerprint ≡ false
    → blank f.target ≡ false
    → blank f.check ≡ false
    → blank f.title ≡ false
    → blank f.remediation ≡ false
    → valid f.severity ≡ true
    → IsTaken f
unfolding validate_for_ingest
taken f a b c d e v = rw (a, b, c, d, e, v) refl

All-append_findings :
    (xs ys : List Finding) → All IsTaken xs → All IsTaken ys → All IsTaken (xs ++ ys)
All-append_findings [] ys hx hy = hy
All-append_findings (x ∷ xs) ys hx hy = (hx.0, All-append_findings xs ys hx.1 hy)

module _ (lib : Libraries) (hashes : (s : Text) → blank (lib.hash s) ≡ false) (cfg : Config)
    (named : blank cfg.name ≡ false) where
  issue_finding-IsTaken : (iss : Issue) → IsTitled iss → IsTaken (issue_finding lib cfg iss)
  unfolding issue_finding fingerprint
  issue_finding-IsTaken iss h =
      taken (issue_finding lib cfg iss) (hashes _) named h.0 h.1 (or_review-blank iss.fix)
        (or_low-valid (severity_of iss.severity))

  map-IsTaken :
      (issues : List Issue) → AllTitled issues → All IsTaken (map (issue_finding lib cfg) issues)
  map-IsTaken [] h = tt
  map-IsTaken (iss ∷ issues) h = (issue_finding-IsTaken iss h.0, map-IsTaken issues h.1)

  unparsed_findings-IsTaken :
      (unparsed : List Text) → All IsTaken (unparsed_findings lib cfg unparsed)
  unfolding unparsed_findings unparsed_finding fingerprint blank
  unparsed_findings-IsTaken unparsed = if_keeps (All IsTaken) (is_nothing unparsed) _ _ tt (
    taken (unparsed_finding lib cfg unparsed) (hashes _) named refl
        (blank-append (itoa (length unparsed)) _ refl) refl low_is_valid,
    tt,
  )

  drift_issues-AllTitled : (parsed : Parsed) → AllTitled (drift_issues lib cfg parsed)
  unfolding drift_issues
  drift_issues-AllTitled parsed = if_keeps AllTitled (is_blank (trim cfg.baseline)) _ _ tt (
      Option-keeps AllTitled (parse lib.unmarshal cfg.vendor cfg.baseline) _ _ (λ e. tt)
        (λ base e. drift-AllTitled base.rules parsed.rules))

  -- Whatever the collector returns, the core takes it.
  abbrev AreTaken : Option (List Finding) → Type 0
  AreTaken o = (found : List Finding) → o ≡ some found → All IsTaken found

  nothing-AreTaken : AreTaken none
  nothing-AreTaken found e = absurd (none_ne_some e)

  findings_of-AreTaken :
      (parsed : Parsed) (issues : List Issue)
      → AllTitled issues
      → AreTaken (some (findings_of lib cfg parsed issues))
  unfolding findings_of
  findings_of-AreTaken parsed issues h found e = subst (All IsTaken) (some_inj e) (
      All-append_findings _ _
        (map-IsTaken (issues ++ drift_issues lib cfg parsed)
          (AllTitled-append issues (drift_issues lib cfg parsed) h (drift_issues-AllTitled parsed)))
        (unparsed_findings-IsTaken parsed.unparsed))

  -- Every finding that the collector reports for a configuration with a name passes the validation of
  -- the core, where no hash is empty: it has a fingerprint, a target, a check, a title, a remediation
  -- and one of the severities.
  pub collect-IsTaken :
      (found : List Finding) → collect lib (some (some cfg)) ≡ some found → All IsTaken found
  unfolding collect audit
  collect-IsTaken =
      Option-keeps AreTaken (parse lib.unmarshal cfg.vendor cfg.current) _ _ (λ e. nothing-AreTaken)
        (λ parsed e.
          Option-keeps AreTaken (analyze parsed.rules) _ _ (λ e. nothing-AreTaken)
            (λ issues e.
              findings_of-AreTaken parsed issues (analyze-AllTitled parsed.rules issues e)))
