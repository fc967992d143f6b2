-- ===== src/Fwparse/Accounts/Foreign.antt =====
-- Cisco ASA: lines that no definition of an object or a group consumes.
use rulehawk.Common.{none, List, Bool, false, ◌∷◌, if_keeps, not, ◌≡◌, [], true, arith, refl, any}
use rulehawk.Common.Text.{Text, text_eq, codes}
use rulehawk.Fwparse.Scan.{
  member_in, scan_words, no_block, Block, net_block, scan_member, svc_block, ScanState, in_block,
}
use rulehawk.Fwrule.Rule.{one_of}
use rulehawk.Fwparse.Members.{Objects}
use rulehawk.Fwparse.MemberLines.{asa_net_member, asa_svc_member}

-- The words that open a definition or a line of one.
abbrev pub definition_words : List Text
definition_words =
    codes "object"
    ∷ codes "object-group"
    ∷ codes "description"
    ∷ codes "group-object"
    ∷ codes "host"
    ∷ codes "subnet"
    ∷ codes "range"
    ∷ codes "fqdn"
    ∷ codes "network-object"
    ∷ codes "port-object"
    ∷ codes "service-object"
    ∷ codes "service"
    ∷ codes "protocol-object"
    ∷ codes "icmp-object"
    ∷ []

-- The first word belongs to no definition.
unfoldable pub is_foreign : List Text → Bool
is_foreign [] = true
is_foreign (t ∷ toks) = not (one_of definition_words t)

net_member-foreign :
    (t : Text) (rest : List Text) → one_of definition_words t ≡ false → asa_net_member t rest ≡ none
unfolding asa_net_member one_of any
net_member-foreign t rest h = ground arith

svc_member-foreign :
    (t : Text) (rest : List Text) → one_of definition_words t ≡ false → asa_svc_member t rest ≡ none
unfolding asa_svc_member one_of any
svc_member-foreign t rest h = ground arith

-- No definition consumes a line that is foreign to definitions; it ends the block that is open.
member_in-foreign :
    (b : Block) (t : Text) (rest : List Text)
    → one_of definition_words t ≡ false
    → member_in b t rest ≡ none
unfolding member_in
member_in-foreign no_block t rest h = refl
member_in-foreign (net_block name) t rest h = net_member-foreign t rest h
member_in-foreign (svc_block name) t rest h = svc_member-foreign t rest h

pub scan_words-foreign :
    (toks : List Text) (b : Block) (o : Objects)
    → is_foreign toks ≡ true
    → (scan_words toks b o).consumed ≡ false
unfolding scan_words is_foreign scan_member
scan_words-foreign [] b o h = refl
scan_words-foreign (t ∷ rest) b o h =
    let out : one_of definition_words t ≡ false = ground arith in
    let header : one_of (codes "object" ∷ codes "object-group" ∷ []) t ≡ false =
      unfold one_of any in ground arith in
    let described : text_eq t (codes "description") ≡ false = unfold one_of any in ground arith in
    let grouped : text_eq t (codes "group-object") ≡ false = unfold one_of any in ground arith in
    rw (header, described, grouped, member_in-foreign b t rest out)
      (if_keeps (λ (q : ScanState). q.consumed ≡ false) (not (in_block b)) _ _ refl refl)
