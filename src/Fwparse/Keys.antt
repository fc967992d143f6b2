-- ===== src/Fwparse/Keys.antt =====
-- fwparse/fortinet.go: what the key and the values of a `set` line mean.
use rulehawk.Common.{
  none, some, Option, List, Bool, ◌∷◌, true, false, ◌≡◌, [], refl, any, map, if◌then◌else◌, arith,
  Bool-cases, subst, inl, sym, inr,
}
use rulehawk.Fwparse.Fortinet.{
  Key, key_of, apply_key, name, srcaddr, dstaddr, srcintf, service, action, status, logtraffic,
  comments, forti_addrs, forti_services, set_action,
}
use rulehawk.Fwparse.Base.{any_word}
use rulehawk.Fwparse.Services.{port_name}
use rulehawk.Fwrule.Rule.{Rule, Action, one_of}
use rulehawk.Common.Text.{Text, lower, codes, text_eq, equal_fold, text_eq→eq}

-- Values, of which none or `all` mean everything.
unfoldable pub meant : (List Text → List Text) → List Text → List Text
meant read [] = any_word
meant read (v ∷ vals) =
    if any (λ x. equal_fold x (codes "all")) (v ∷ vals) then any_word else read (v ∷ vals)

unfoldable pub first : List Text → Option Text
first [] = none
first (v ∷ vals) = some v

unfoldable pub action_meant : Option Text → Option Action
action_meant none = none
action_meant (some v) =
    if one_of (codes "accept" ∷ codes "allow" ∷ []) (lower v)
    then some Action.allow
    else if one_of (codes "deny" ∷ codes "drop" ∷ codes "block" ∷ []) (lower v)
    then some Action.deny
    else none

unfoldable pub disables : Option Text → Option Bool
disables none = none
disables (some v) = if text_eq (lower v) (codes "disable") then some false else none

-- What the key and the values of a line give to a field of the rule, if anything.
abbrev pub Reading : Type 0 → Type 0
Reading A = Text → List Text → Option A

abbrev pub src_of : Reading (List Text)
src_of s vals = if text_eq s (codes "srcaddr") then some (meant (λ v. v) vals) else none

abbrev pub dst_of : Reading (List Text)
dst_of s vals = if text_eq s (codes "dstaddr") then some (meant (λ v. v) vals) else none

abbrev pub ports_of : Reading (List Text)
ports_of s vals = if text_eq s (codes "service") then some (meant (map port_name) vals) else none

abbrev pub iface_of : Reading Text
iface_of s vals = if text_eq s (codes "srcintf") then first vals else none

abbrev pub action_of : Reading Action
action_of s vals = if text_eq s (codes "action") then action_meant (first vals) else none

abbrev pub enabled_of : Reading Bool
enabled_of s vals = if text_eq s (codes "status") then disables (first vals) else none

abbrev pub or_else : {A : Type 0} → Option A → A → A
or_else none a = a
or_else (some b) a = b

-- The fields of a rule that the settings of a policy change and the analysers read.
pub record Fields : Type 0 where
  pub src : List Text
  pub dst : List Text
  pub ports : List Text
  pub iface : Text
  pub act : Action
  pub enabled : Bool

abbrev pub fields_of : Rule → Fields
fields_of r = record {
  src = r.src_addrs;
  dst = r.dst_addrs;
  ports = r.dst_ports;
  iface = r.iface;
  act = r.action;
  enabled = r.enabled;
}

abbrev pub updated : Text → List Text → Fields → Fields
updated s vals f = record {
  src = or_else (src_of s vals) f.src;
  dst = or_else (dst_of s vals) f.dst;
  ports = or_else (ports_of s vals) f.ports;
  iface = or_else (iface_of s vals) f.iface;
  act = or_else (action_of s vals) f.act;
  enabled = or_else (enabled_of s vals) f.enabled;
}

pub words_of : Key → List Text
words_of name = codes "name" ∷ []
words_of srcaddr = codes "srcaddr" ∷ []
words_of dstaddr = codes "dstaddr" ∷ []
words_of srcintf = codes "srcintf" ∷ []
words_of service = codes "service" ∷ []
words_of action = codes "action" ∷ []
words_of status = codes "status" ∷ []
words_of logtraffic = codes "logtraffic" ∷ []
words_of comments = codes "comments" ∷ codes "comment" ∷ []

pub key_of-words : (s : Text) (k : Key) → key_of s ≡ some k → one_of (words_of k) s ≡ true
unfolding key_of one_of any words_of
key_of-words s name e = ground arith
key_of-words s srcaddr e = ground arith
key_of-words s dstaddr e = ground arith
key_of-words s srcintf e = ground arith
key_of-words s service e = ground arith
key_of-words s action e = ground arith
key_of-words s status e = ground arith
key_of-words s logtraffic e = ground arith
key_of-words s comments e = ground arith

pub key_of-none :
    (s : Text) (vals : List Text) (f : Fields) → key_of s ≡ none → updated s vals f ≡ f
unfolding key_of
key_of-none s vals f e =
    let a : text_eq s (codes "srcaddr") ≡ false = ground arith in
    let b : text_eq s (codes "dstaddr") ≡ false = ground arith in
    let c : text_eq s (codes "service") ≡ false = ground arith in
    let d : text_eq s (codes "srcintf") ≡ false = ground arith in
    let g : text_eq s (codes "action") ≡ false = ground arith in
    let h : text_eq s (codes "status") ≡ false = ground arith in rw (a, b, c, d, g, h) refl

-- A key changes the fields as its reading says.
abbrev pub Follows : Key → Text → Type 0
Follows k s =
    (vals : List Text) (r : Rule) → fields_of (apply_key k vals r) ≡ updated s vals (fields_of r)

name-Follows : Follows name (codes "name")
unfolding apply_key text_eq
name-Follows [] r = refl
name-Follows (v ∷ vals) r = refl

srcaddr-Follows : Follows srcaddr (codes "srcaddr")
unfolding apply_key text_eq forti_addrs meant
srcaddr-Follows [] r = refl
srcaddr-Follows (v ∷ vals) r = refl

dstaddr-Follows : Follows dstaddr (codes "dstaddr")
unfolding apply_key text_eq forti_addrs meant
dstaddr-Follows [] r = refl
dstaddr-Follows (v ∷ vals) r = refl

srcintf-Follows : Follows srcintf (codes "srcintf")
unfolding apply_key text_eq first
srcintf-Follows [] r = refl
srcintf-Follows (v ∷ vals) r = refl

service-Follows : Follows service (codes "service")
unfolding apply_key text_eq forti_services meant
service-Follows [] r = refl
service-Follows (v ∷ vals) r = refl

action-Follows : Follows action (codes "action")
unfolding apply_key text_eq first action_meant set_action
action-Follows [] r = refl
action-Follows (v ∷ vals) r =
    elim (Bool-cases (one_of (codes "accept" ∷ codes "allow" ∷ []) (lower v))) [
      | inl y ↦ rw y refl
      | inr n ↦
          elim (Bool-cases (one_of (codes "deny" ∷ codes "drop" ∷ codes "block" ∷ []) (lower v))) [
            | inl y ↦ rw (n, y) refl
            | inr n' ↦ rw (n, n') refl
          ]
    ]

status-Follows : Follows status (codes "status")
unfolding apply_key text_eq first disables
status-Follows [] r = refl
status-Follows (v ∷ vals) r = elim (Bool-cases (text_eq (lower v) (codes "disable"))) [
  | inl y ↦ rw y refl
  | inr n ↦ rw n refl
]

logtraffic-Follows : Follows logtraffic (codes "logtraffic")
unfolding apply_key text_eq
logtraffic-Follows [] r = refl
logtraffic-Follows (v ∷ vals) r = elim (Bool-cases (text_eq (lower v) (codes "disable"))) [
  | inl y ↦ rw y refl
  | inr n ↦ rw n refl
]

comments-Follows : Follows comments (codes "comments")
unfolding apply_key text_eq
comments-Follows [] r = refl
comments-Follows (v ∷ vals) r = refl

comment-Follows : Follows comments (codes "comment")
unfolding apply_key text_eq
comment-Follows [] r = refl
comment-Follows (v ∷ vals) r = refl

-- The reading of a key with one word.
by_word : (k : Key) (w s : Text) → Follows k w → one_of (w ∷ []) s ≡ true → Follows k s
unfolding one_of any
by_word k w s h e = subst (λ z. Follows k z) (sym (text_eq→eq s w (ground arith))) h

pub key-Follows : (k : Key) (s : Text) → one_of (words_of k) s ≡ true → Follows k s
unfolding words_of
key-Follows name s e = by_word name (codes "name") s name-Follows e
key-Follows srcaddr s e = by_word srcaddr (codes "srcaddr") s srcaddr-Follows e
key-Follows dstaddr s e = by_word dstaddr (codes "dstaddr") s dstaddr-Follows e
key-Follows srcintf s e = by_word srcintf (codes "srcintf") s srcintf-Follows e
key-Follows service s e = by_word service (codes "service") s service-Follows e
key-Follows action s e = by_word action (codes "action") s action-Follows e
key-Follows status s e = by_word status (codes "status") s status-Follows e
key-Follows logtraffic s e = by_word logtraffic (codes "logtraffic") s logtraffic-Follows e
key-Follows comments s e = elim (Bool-cases (one_of (codes "comments" ∷ []) s)) [
  | inl y ↦ by_word comments (codes "comments") s comments-Follows y
  | inr n ↦ by_word comments (codes "comment") s comment-Follows (unfold one_of any in ground arith)
]
