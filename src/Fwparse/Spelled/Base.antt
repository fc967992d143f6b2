-- ===== src/Fwparse/Spelled/Base.antt =====
-- Rules whose addresses are written out.
use rulehawk.Fwparse.Base.{reindex, number_from, or_any}
use rulehawk.Common.{List, ℕ, ◌≢◌, ◌∷◌, All, [], suc, ◌++◌, cons_not_empty}
use rulehawk.Fwrule.Rule.{Rule}
use rulehawk.Common.Text.{Text}

abbrev pub NotEmpty : List Text → Type 0
NotEmpty ss = ss ≢ []

-- The rule has addresses and destination ports.
abbrev pub IsSpelled : Rule → Type 0
IsSpelled r = (r.src_addrs ≢ []) × (r.dst_addrs ≢ []) × (r.dst_ports ≢ [])

pub or_any-not_empty : (ss : List Text) → or_any ss ≢ []
unfolding or_any
or_any-not_empty [] = cons_not_empty
or_any-not_empty (s ∷ ss) = cons_not_empty

number_from-IsSpelled :
    (n : ℕ) (rules : List Rule) → All IsSpelled rules → All IsSpelled (number_from n rules)
unfolding number_from
number_from-IsSpelled n [] h = tt
number_from-IsSpelled n (r ∷ rules) h = (h.0, number_from-IsSpelled (suc n) rules h.1)

pub reindex-IsSpelled : (rules : List Rule) → All IsSpelled rules → All IsSpelled (reindex rules)
unfolding reindex
reindex-IsSpelled rules h = number_from-IsSpelled 1 rules h

pub All-append :
    (xs ys : List Rule) → All IsSpelled xs → All IsSpelled ys → All IsSpelled (xs ++ ys)
All-append [] ys hx hy = hy
All-append (x ∷ xs) ys hx hy = (hx.0, All-append xs ys hx.1 hy)
