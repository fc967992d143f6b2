-- ===== src/Fwparse/Services.antt =====
-- fwparse/ciscoasa.go: `portName`, which the parsers for ASA and FortiGate share.
use rulehawk.Common.{Option, if◌then◌else◌, ◌∷◌, [], some, none}
use rulehawk.Common.Text.{Text, lower, codes, text_eq}
use rulehawk.Fwrule.Rule.{one_of}

-- The services with a number.
unfoldable pub service_port : Text → Option Text
service_port s =
    if one_of (codes "www" ∷ codes "http" ∷ []) s
    then some (codes "80")
    else if text_eq s (codes "https")
    then some (codes "443")
    else if text_eq s (codes "ssh")
    then some (codes "22")
    else if text_eq s (codes "telnet")
    then some (codes "23")
    else if text_eq s (codes "domain")
    then some (codes "53")
    else if text_eq s (codes "smtp")
    then some (codes "25")
    else if text_eq s (codes "ftp")
    then some (codes "21")
    else if one_of (codes "rdp" ∷ codes "ms-wbt-server" ∷ []) s
    then some (codes "3389")
    else none

-- `portName`
unfoldable pub port_name : Text → Text
port_name s = elim (service_port (lower s)) [ none ↦ s | some p ↦ p ]
