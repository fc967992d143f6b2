-- ===== src/Fwparse.antt =====
-- fwparse: the parsers, and `Parse`, which chooses one of them.
pub mod Base
pub mod Words
pub mod Iptables
pub mod Services
pub mod Fortinet
pub mod Pfsense
pub mod Members
pub mod MemberLines
pub mod Scan
pub mod AsaSpecs
pub mod CiscoAsa
pub mod Vendors
pub mod Numbering
pub mod Spelled
pub mod Accounts
pub mod Keys
pub mod Negations
pub mod Settings
pub mod Policies
pub mod Tests
pub mod Texts
pub mod Ways
pub mod Expansion
pub mod Reachable
pub mod Resolving
pub mod Caching
pub mod Ending
use rulehawk.Common.{none, some, List, if◌then◌else◌, Option, ◌∷◌, []}
use rulehawk.Common.Text.{Text, codes, text_eq}
use rulehawk.Fwparse.Pfsense.{PfRule, parse_pfsense}
use rulehawk.Fwparse.Base.{Parsed}
use rulehawk.Fwrule.Rule.{one_of}
use rulehawk.Fwparse.Iptables.{parse_iptables}
use rulehawk.Fwparse.CiscoAsa.{parse_cisco_asa}
use rulehawk.Fwparse.Fortinet.{parse_fortinet}

abbrev pub vendors : List Text
vendors =
    codes "iptables"
    ∷ codes "nftables"
    ∷ codes "cisco-asa"
    ∷ codes "pfsense"
    ∷ codes "fortinet"
    ∷ []

-- `VendorLabel`
unfoldable pub vendor_label : Text → Text
vendor_label v =
    if text_eq v (codes "iptables")
    then codes "iptables"
    else if text_eq v (codes "nftables")
    then codes "nftables"
    else if text_eq v (codes "cisco-asa")
    then codes "Cisco ASA"
    else if text_eq v (codes "pfsense")
    then codes "pfSense/OPNsense"
    else if text_eq v (codes "fortinet")
    then codes "Fortinet FortiGate"
    else v

-- `Parse`; an error is `none`. `unmarshal` is the decoder of XML.
unfoldable pub parse : (Text → Option (List PfRule)) → Text → Text → Option Parsed
parse unmarshal vendor config =
    if one_of (codes "iptables" ∷ codes "nftables" ∷ []) vendor
    then some (parse_iptables vendor config)
    else if text_eq vendor (codes "cisco-asa")
    then some (parse_cisco_asa config)
    else if text_eq vendor (codes "pfsense")
    then parse_pfsense unmarshal config
    else if text_eq vendor (codes "fortinet")
    then some (parse_fortinet config)
    else none
