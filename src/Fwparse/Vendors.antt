-- ===== src/Fwparse/Vendors.antt =====
-- What holds of each parser's result holds of what `Parse` returns.
use rulehawk.Fwparse.Pfsense.{parse_pfsense, PfRule, pf_rule}
use rulehawk.Fwparse.{parse}
use rulehawk.Common.{
  List, Option, map, ◌≡◌, [], some, none_ne_some, subst, Bool-cases, some_inj, ◌∷◌, none, inl, inr,
  refl,
}
use rulehawk.Fwparse.Base.{Parsed, reindex}
use rulehawk.Common.Text.{codes, Text, text_eq}
use rulehawk.Fwparse.Iptables.{parse_iptables}
use rulehawk.Fwparse.CiscoAsa.{parse_cisco_asa}
use rulehawk.Fwparse.Fortinet.{parse_fortinet}
use rulehawk.Fwrule.Rule.{one_of}

-- What pfSense's parser returns for the rules that the decoder found.
abbrev pub of_pfsense : List PfRule → Parsed
of_pfsense rules = record {
  vendor = codes "pfsense";
  rules = reindex (map pf_rule rules);
  unparsed = [];
}

module _ {ℓ} (P : Parsed → Type ℓ) (unmarshal : Text → Option (List PfRule)) where
  parse_pfsense_keeps :
      (o : Option (List PfRule)) (config : Text) (p : Parsed)
      → ((rules : List PfRule) → P (of_pfsense rules))
      → unmarshal config ≡ o
      → parse_pfsense unmarshal config ≡ some p
      → P p
  unfolding parse_pfsense
  parse_pfsense_keeps none config p h u e = absurd (none_ne_some (rw (u, parse_pfsense) at e))
  parse_pfsense_keeps (some rules) config p h u e =
      subst P (some_inj (rw (u, parse_pfsense) at e)) (h rules)

  pub parse_keeps :
      (vendor config : Text) (p : Parsed)
      → P (parse_iptables vendor config)
      → P (parse_cisco_asa config)
      → ((rules : List PfRule) → P (of_pfsense rules))
      → P (parse_fortinet config)
      → parse unmarshal vendor config ≡ some p
      → P p
  unfolding parse
  parse_keeps vendor config p ipt asa pf forti e =
      elim (Bool-cases (one_of (codes "iptables" ∷ codes "nftables" ∷ []) vendor)) [
        | inl a ↦ subst P (some_inj (rw a at e)) ipt
        | inr a ↦ elim (Bool-cases (text_eq vendor (codes "cisco-asa"))) [
          | inl b ↦ subst P (some_inj (rw (a, b) at e)) asa
          | inr b ↦ elim (Bool-cases (text_eq vendor (codes "pfsense"))) [
            | inl c ↦ parse_pfsense_keeps (unmarshal config) config p pf refl (rw (a, b, c) at e)
            | inr c ↦ elim (Bool-cases (text_eq vendor (codes "fortinet"))) [
              | inl d ↦ subst P (some_inj (rw (a, b, c, d) at e)) forti
              | inr d ↦ absurd (none_ne_some (rw (a, b, c, d) at e))
            ]
          ]
        ]
      ]
