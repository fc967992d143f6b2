-- ===== src/Fwrule/Index/Ports/Levels.antt =====
-- The levels of the segment tree: where a range goes on the level above.
use rulehawk.Common.{
  ℕ, ◌≤◌, ◌<◌, ◌⊎◌, ◌≡◌, Bool-cases, inl, ◌+◌, ◌==◌, true, inr, ◌/◌, ◌-◌, arith, if◌then◌else◌,
  ==_iff,
}
use rulehawk.Fwrule.Index.Ports.{odd}

abbrev pub lower_end : ℕ → ℕ
lower_end lo = (if odd lo then lo + 1 else lo) / 2

abbrev pub upper_end : ℕ → ℕ
upper_end hi = (if odd hi then hi - 1 else hi) / 2

pub upper_end-le : (hi k : ℕ) → hi ≤ k → upper_end hi ≤ k
upper_end-le hi k h = ground arith

-- Where a node of the level goes: it is marked here, or its parent is in the range of the next level.
pub level_cases :
    (lo hi q : ℕ)
    → lo ≤ q
    → q < hi
    → ((odd lo ≡ true) × (lo ≡ q))
      ⊎ ((odd hi ≡ true) × (hi - 1 ≡ q))
      ⊎ ((lower_end lo ≤ q / 2) × (q / 2 < upper_end hi))
unfolding odd
level_cases lo hi q p r = elim (Bool-cases (odd lo)) [
  | inl a ↦ elim (Bool-cases (lo == q)) [
    | inl here ↦ inl (a, (==_iff lo q).0 here)
    | inr above ↦ elim (Bool-cases (odd hi)) [
      | inl b ↦ elim (Bool-cases (hi - 1 == q)) [
        | inl last ↦ inr (inl (b, (==_iff (hi - 1) q).0 last))
        | inr below ↦ inr (inr (rw (a, b) (ground arith, ground arith)))
      ]
      | inr b ↦ inr (inr (rw (a, b) (ground arith, ground arith)))
    ]
  ]
  | inr a ↦ elim (Bool-cases (odd hi)) [
    | inl b ↦ elim (Bool-cases (hi - 1 == q)) [
      | inl last ↦ inr (inl (b, (==_iff (hi - 1) q).0 last))
      | inr below ↦ inr (inr (rw (a, b) (ground arith, ground arith)))
    ]
    | inr b ↦ inr (inr (rw (a, b) (ground arith, ground arith)))
  ]
]

pub last_level : (lo hi q : ℕ) → hi < lo + 2 → lower_end lo ≤ q / 2 → q / 2 < upper_end hi → ⊥
unfolding odd
last_level lo hi q small low high = ground arith

-- The next level has half the room, and none is left of a range of one node.
pub next_room :
    (lo hi room : ℕ)
    → hi < lo + (room + room)
    → lower_end lo < upper_end hi
    → upper_end hi < lower_end lo + room
unfolding odd
next_room lo hi room h lt = ground arith
