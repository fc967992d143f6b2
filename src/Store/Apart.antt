-- ===== src/Store/Apart.antt =====
-- Records of other fingerprints have other keys, in the store in memory.
use rulehawk.Common.{
  List, ◌≡◌, ◌≢◌, All, [], ◌∷◌, some, Bool-cases, Option-cases, inl, inr, ◌∙◌, subst, ◌++◌,
  none_ne_some, some_inj,
}
use rulehawk.Common.Text.{Text, text_eq}
use rulehawk.Store.{Record}
use rulehawk.Store.Memory.{mem_key}
use rulehawk.Store.Reconcile.{by_fingerprint}

append-cancel : (a s t : Text) → a ++ s ≡ a ++ t → s ≡ t
append-cancel [] s t e = e
append-cancel (x ∷ a) s t e = append-cancel a s t cc

pub mem_key-apart : (a f g : Text) → f ≢ g → mem_key a f ≢ mem_key a g
unfolding mem_key
mem_key-apart a f g ne e = let same = append-cancel a (0 ∷ f) (0 ∷ g) e in ne cc

pub by_fingerprint-All :
    (P : Record → Type 0) (existing : List Record) (fp : Text) (r : Record)
    → All P existing
    → by_fingerprint existing fp ≡ some r
    → P r
unfolding by_fingerprint
by_fingerprint-All P [] fp r h e = absurd (none_ne_some e)
by_fingerprint-All P (q ∷ existing) fp r h e = elim (Option-cases (by_fingerprint existing fp)) [
  | inl nothing ↦ elim (Bool-cases (text_eq q.finding.fingerprint fp)) [
    | inl y ↦ subst P (some_inj (rw (nothing, y) at e)) h.0
    | inr n ↦ absurd (none_ne_some (rw (nothing, n) at e))
  ]
  | inr (later, found) ↦ by_fingerprint-All P existing fp r h.1 (found ∙ (rw found at e))
]
