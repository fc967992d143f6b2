-- ===== src/Fwparse/Spelled/Scanned.antt =====
-- Reading the definitions leaves the caches empty.
use rulehawk.Common.{none, some, List, Option, [], none_ne_some, ◌∷◌, if_keeps, not}
use rulehawk.Fwparse.Spelled.Asa.{IsGood, IsFull}
use rulehawk.Fwparse.Scan.{
  ScanState, scan_header, append_member, scan_group, scan_member, scan_words, scan_from,
  scan_objects, Block, scan_line, no_block, net_block, is_remark, svc_block, in_block, member_in,
}
use rulehawk.Fwparse.MemberLines.{ref_to}
use rulehawk.Fwparse.Members.{cached, Member, Objects, no_objects}
use rulehawk.Common.Text.{Text, text_eq, codes, trim, fields}
use rulehawk.Fwparse.Base.{is_blank}
use rulehawk.Fwrule.Rule.{one_of}

-- The objects behind a line.
abbrev IsScanned : ScanState → Type 0
IsScanned s = IsGood s.objs

scan_header-IsScanned : (toks : List Text) (o : Objects) → IsGood o → IsScanned (scan_header toks o)
unfolding scan_header
scan_header-IsScanned [] o h = h
scan_header-IsScanned (k ∷ []) o h = h
scan_header-IsScanned (k ∷ name ∷ rest) o h =
    if_keeps IsScanned (text_eq k (codes "network")) _ _ h (
      if_keeps IsScanned (one_of (codes "service" ∷ codes "protocol" ∷ codes "icmp-type" ∷ []) k) _
        _ h h)

append_member-IsGood :
    (b : Block) (m : Member) (o : Objects) → IsGood o → IsGood (append_member b m o)
unfolding append_member
append_member-IsGood no_block m o h = h
append_member-IsGood (net_block name) m o h = if_keeps IsGood (is_blank name) _ _ h h
append_member-IsGood (svc_block name) m o h = if_keeps IsGood (is_blank name) _ _ h h

scan_group-IsScanned :
    (toks : List Text) (b : Block) (o : Objects) → IsGood o → IsScanned (scan_group toks b o)
unfolding scan_group
scan_group-IsScanned [] b o h = h
scan_group-IsScanned (name ∷ rest) b o h = append_member-IsGood b (ref_to name) o h

scan_member-IsScanned :
    (m : Option Member) (b : Block) (o : Objects) → IsGood o → IsScanned (scan_member m b o)
unfolding scan_member
scan_member-IsScanned none b o h = h
scan_member-IsScanned (some m) b o h = append_member-IsGood b m o h

scan_words-IsScanned :
    (toks : List Text) (b : Block) (o : Objects) → IsGood o → IsScanned (scan_words toks b o)
unfolding scan_words
scan_words-IsScanned [] b o h = h
scan_words-IsScanned (t ∷ rest) b o h =
    if_keeps IsScanned (one_of (codes "object" ∷ codes "object-group" ∷ []) t) _ _
      (scan_header-IsScanned rest o h)
      (if_keeps IsScanned (not (in_block b)) _ _ h (
        if_keeps IsScanned (text_eq t (codes "description")) _ _ h (
          if_keeps IsScanned (text_eq t (codes "group-object")) _ _
            (scan_group-IsScanned rest b o h) (scan_member-IsScanned (member_in b t rest) b o h))))

scan_from-IsGood :
    (lines : List Text) (b : Block) (o : Objects) → IsGood o → IsGood (scan_from lines b o).0
unfolding scan_from scan_line
scan_from-IsGood [] b o h = h
scan_from-IsGood (raw ∷ lines) b o h = scan_from-IsGood lines _ _ (
    if_keeps IsScanned (is_remark (trim raw)) _ _ h
      (scan_words-IsScanned (fields (trim raw)) b o h))

IsFull-none : IsFull []
unfolding cached
IsFull-none name got e = absurd (none_ne_some e)

pub scan_objects-IsGood : (lines : List Text) → IsGood (scan_objects lines).0
unfolding scan_objects
scan_objects-IsGood lines = scan_from-IsGood lines no_block no_objects (IsFull-none, IsFull-none)
