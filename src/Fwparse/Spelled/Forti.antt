-- ===== src/Fwparse/Spelled/Forti.antt =====
-- The policies of a FortiGate name their addresses.
use rulehawk.Fwparse.Spelled.Base.{IsSpelled, NotEmpty, reindex-IsSpelled, All-append}
use rulehawk.Fwparse.Fortinet.{
  forti_addrs, forti_services, apply_key, apply_words, State, flushed, set_cur, on_kind, run,
  parse_fortinet, set_action, Key, apply_forti_set, flush, step, new_policy, Kind, key_of, start,
  unquote_all, kind_of, opens_section, closes_section, opens_policy, srcaddr, closes_policy,
  dstaddr, sets, service, nothing, name, srcintf, action, status, logtraffic, comments,
}
use rulehawk.Common.{Option, List, All, some, ◌≢◌, ◌∷◌, [], if_keeps, none, any, cons_not_empty}
use rulehawk.Fwrule.Rule.{Rule, one_of}
use rulehawk.Common.Text.{Text, split_on, drop, trim, lower, equal_fold, codes, text_eq}
use rulehawk.Fwparse.Words.{fields_respecting_quotes}

forti_addrs-not_empty : (vals : List Text) → forti_addrs vals ≢ []
unfolding forti_addrs
forti_addrs-not_empty [] = cons_not_empty
forti_addrs-not_empty (v ∷ vals) =
    if_keeps NotEmpty (any (λ x. equal_fold x (codes "all")) (v ∷ vals)) _ _ cons_not_empty
      cons_not_empty

forti_services-not_empty : (vals : List Text) → forti_services vals ≢ []
unfolding forti_services
forti_services-not_empty [] = cons_not_empty
forti_services-not_empty (v ∷ vals) =
    if_keeps NotEmpty (any (λ x. equal_fold x (codes "all")) (v ∷ vals)) _ _ cons_not_empty
      cons_not_empty

apply_key-IsSpelled :
    (k : Key) (vals : List Text) (r : Rule) → IsSpelled r → IsSpelled (apply_key k vals r)
unfolding apply_key set_action
apply_key-IsSpelled name [] r h = h
apply_key-IsSpelled name (v ∷ vals) r h = h
apply_key-IsSpelled srcaddr vals r h = (forti_addrs-not_empty vals, h.1, h.2)
apply_key-IsSpelled dstaddr vals r h = (h.0, forti_addrs-not_empty vals, h.2)
apply_key-IsSpelled srcintf [] r h = h
apply_key-IsSpelled srcintf (v ∷ vals) r h = h
apply_key-IsSpelled service vals r h = (h.0, h.1, forti_services-not_empty vals)
apply_key-IsSpelled action [] r h = h
apply_key-IsSpelled action (v ∷ vals) r h =
    if_keeps IsSpelled (one_of (codes "accept" ∷ codes "allow" ∷ []) (lower v)) _ _ h (
      if_keeps IsSpelled (one_of (codes "deny" ∷ codes "drop" ∷ codes "block" ∷ []) (lower v)) _ _ h
        h)
apply_key-IsSpelled status [] r h = h
apply_key-IsSpelled status (v ∷ vals) r h =
    if_keeps IsSpelled (text_eq (lower v) (codes "disable")) _ _ h h
apply_key-IsSpelled logtraffic [] r h = h
apply_key-IsSpelled logtraffic (v ∷ vals) r h =
    if_keeps IsSpelled (text_eq (lower v) (codes "disable")) _ _ h h
apply_key-IsSpelled comments [] r h = h
apply_key-IsSpelled comments (v ∷ vals) r h = h

-- The policy that is open, if one is.
abbrev IsOpenSpelled : Option Rule → Type 0
IsOpenSpelled o = elim o [ none ↦ Unit | some r ↦ IsSpelled r ]

apply_words-IsSpelled :
    (o : Option Key) (toks : List Text) (r : Rule)
    → IsSpelled r
    → IsSpelled (elim o [ none ↦ r | some k ↦ apply_key k (unquote_all toks) r ])
apply_words-IsSpelled none toks r h = h
apply_words-IsSpelled (some k) toks r h = apply_key-IsSpelled k (unquote_all toks) r h

apply_forti_set-IsSpelled :
    (toks : List Text) (r : Rule) → IsSpelled r → IsSpelled (apply_words toks r)
unfolding apply_words
apply_forti_set-IsSpelled [] r h = h
apply_forti_set-IsSpelled (t ∷ toks) r h = apply_words-IsSpelled (key_of (lower t)) toks r h

-- The state of the loop holds such policies.
abbrev IsSpelledState : State → Type 0
IsSpelledState s = IsOpenSpelled s.cur × All IsSpelled s.done

flushed-IsSpelled :
    (cur : Option Rule) (done : List Rule)
    → IsOpenSpelled cur
    → All IsSpelled done
    → All IsSpelled (flushed cur done)
unfolding flushed
flushed-IsSpelled none done c d = d
flushed-IsSpelled (some r) done c d = All-append done (r ∷ []) d (c, tt)

set_cur-IsSpelled :
    (cur : Option Rule) (kv : Text) → IsOpenSpelled cur → IsOpenSpelled (set_cur cur kv)
unfolding set_cur apply_forti_set
set_cur-IsSpelled none kv c = tt
set_cur-IsSpelled (some r) kv c = apply_forti_set-IsSpelled (fields_respecting_quotes kv) r c

on_kind-IsSpelled :
    (k : Kind) (line : Text) (s : State) → IsSpelledState s → IsSpelledState (on_kind k line s)
unfolding on_kind flush new_policy
on_kind-IsSpelled opens_section line s h = h
on_kind-IsSpelled closes_section line s h = (tt, flushed-IsSpelled s.cur s.done h.0 h.1)
on_kind-IsSpelled opens_policy line s h =
    ((cons_not_empty, cons_not_empty, cons_not_empty), flushed-IsSpelled s.cur s.done h.0 h.1)
on_kind-IsSpelled closes_policy line s h = (tt, flushed-IsSpelled s.cur s.done h.0 h.1)
on_kind-IsSpelled sets line s h = (set_cur-IsSpelled s.cur (drop 4 line) h.0, h.1)
on_kind-IsSpelled nothing line s h = h

run-IsSpelled : (lines : List Text) (s : State) → IsSpelledState s → IsSpelledState (run s lines)
unfolding run step
run-IsSpelled [] s h = h
run-IsSpelled (raw ∷ lines) s h =
    run-IsSpelled lines (step s (trim raw))
      (on_kind-IsSpelled (kind_of s.in_policy (lower (trim raw))) (trim raw) s h)

pub parse_fortinet-IsSpelled : (config : Text) → All IsSpelled (parse_fortinet config).rules
unfolding parse_fortinet flush
parse_fortinet-IsSpelled config =
    let last = run-IsSpelled (split_on b'\n' config) start (tt, tt) in
    let s = run start (split_on b'\n' config) in
    reindex-IsSpelled _ (flushed-IsSpelled s.cur s.done last.0 last.1)
