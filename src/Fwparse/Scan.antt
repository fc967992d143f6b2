-- ===== src/Fwparse/Scan.antt =====
-- fwparse/ciscoasa_objects.go: how the definitions of objects and groups are read.
use rulehawk.Fwparse.MemberLines.{ref_to, asa_net_member, asa_svc_member}
use rulehawk.Common.{List, Option, Bool, [], ◌∷◌, none, if◌then◌else◌, false, true, some, ◌||◌, not}
use rulehawk.Common.Text.{Text, codes, text_eq, fields, trim, has_prefix}
use rulehawk.Fwparse.Members.{Defs, Member, Objects, append_members, no_objects}
use rulehawk.Fwparse.Base.{is_blank}
use rulehawk.Fwrule.Rule.{one_of}

-- `curKind` with `curName`.
pub data Block : Type 0 where
  no_block : Block
  net_block : Text → Block
  svc_block : Text → Block

-- The name is defined, with no member if it was not.
unfoldable pub define : Defs → Text → Defs
define table name = append_members table name []

-- `appendMember`; a block has a name, since `strings.Fields` gives no empty word.
unfoldable pub append_member : Block → Member → Objects → Objects
append_member no_block m o = o
append_member (net_block name) m o =
    if is_blank name then o else record o { nets = append_members o.nets name (m ∷ []) }
append_member (svc_block name) m o =
    if is_blank name then o else record o { svcs = append_members o.svcs name (m ∷ []) }

-- The objects, the block that is open, and whether the line was consumed.
pub record ScanState : Type 0 where
  pub objs : Objects
  pub block : Block
  pub consumed : Bool

abbrev pub left_alone : Objects → Block → ScanState
left_alone o b = record { objs = o; block = b; consumed = false }

abbrev pub taken : Objects → Block → ScanState
taken o b = record { objs = o; block = b; consumed = true }

-- A line that opens a definition, behind its first word.
unfoldable pub scan_header : List Text → Objects → ScanState
scan_header (k ∷ name ∷ rest) o =
    if text_eq k (codes "network")
    then taken (record o { nets = define o.nets name }) (net_block name)
    else if one_of (codes "service" ∷ codes "protocol" ∷ codes "icmp-type" ∷ []) k
    then taken (record o { svcs = define o.svcs name }) (svc_block name)
    else left_alone o no_block
scan_header _ o = left_alone o no_block

unfoldable pub member_in : Block → Text → List Text → Option Member
member_in no_block t rest = none
member_in (net_block name) t rest = asa_net_member t rest
member_in (svc_block name) t rest = asa_svc_member t rest

unfoldable pub scan_group : List Text → Block → Objects → ScanState
scan_group [] b o = left_alone o b
scan_group (name ∷ rest) b o = taken (append_member b (ref_to name) o) b

unfoldable pub scan_member : Option Member → Block → Objects → ScanState
scan_member none b o = left_alone o no_block
scan_member (some m) b o = taken (append_member b m o) b

unfoldable pub in_block : Block → Bool
in_block no_block = false
in_block _ = true

-- The words of a line that is neither empty nor a comment.
unfoldable pub scan_words : List Text → Block → Objects → ScanState
scan_words [] b o = left_alone o b
scan_words (t ∷ rest) b o =
    if one_of (codes "object" ∷ codes "object-group" ∷ []) t
    then scan_header rest o
    else if not (in_block b)
    then left_alone o b
    else if text_eq t (codes "description")
    then taken o b
    else if text_eq t (codes "group-object")
    then scan_group rest b o
    else scan_member (member_in b t rest) b o

-- A line that both passes over the configuration skip.
unfoldable pub is_remark : Text → Bool
is_remark line = is_blank line || has_prefix line (codes "!")

-- One round of the loop, on the trimmed line.
unfoldable pub scan_line : Text → Block → Objects → ScanState
scan_line line b o = if is_remark line then left_alone o b else scan_words (fields line) b o

-- `scanASAObjects`: the objects, and for each line whether it was consumed.
unfoldable pub scan_from : List Text → Block → Objects → Objects × List Bool
scan_from [] b o = (o, [])
scan_from (raw ∷ lines) b o =
    let s = scan_line (trim raw) b o in
    let rest = scan_from lines s.block s.objs in (rest.0, s.consumed ∷ rest.1)

unfoldable pub scan_objects : List Text → Objects × List Bool
scan_objects lines = scan_from lines no_block no_objects
