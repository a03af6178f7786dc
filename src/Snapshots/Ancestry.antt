-- ===== src/Snapshots/Ancestry.antt =====
-- The loop of `ancestors` ends where the parents' order has no cycle, and gives the whole lineage.
use andler.Base.{
  ℕ, zero, suc, ◌≤◌, ◌<◌, ◌≡◌, refl, ◌∙◌, Option, none, some, List, [], ◌∷◌, All, arith,
  Option-cases, inl, inr, ◌==◌, if◌then◌else◌, Bool, true, false,
}
use mathlib.Core.Path.{subst}
use andler.Snapshots.{StoredSnapshot, get_by_id, walk, ancestors}

abbrev pub IsBelow : (ℕ → ℕ) → ℕ → Option ℕ → Type 0
IsBelow rank bound none = Unit
IsBelow rank bound (some id) = rank id < bound

-- Every record's parent is below it, in the order in which snapshots were taken say.
abbrev pub IsRanked : (ℕ → ℕ) → List StoredSnapshot → Type 0
IsRanked rank records = All (λ r. IsBelow rank (rank r.id) r.parent_id) records

-- The records from a parent reference up to one that is not in the store, or to the base.
pub data Lineage (records : List StoredSnapshot) : Option ℕ → List StoredSnapshot → Type 0 where
  base : Lineage records none []
  missing : (id : ℕ) → get_by_id records id ≡ none → Lineage records (some id) []
  layer :
      (id : ℕ) (r : StoredSnapshot) (chain : List StoredSnapshot)
      → get_by_id records id ≡ some r
      → r.id ≡ id
      → Lineage records r.parent_id chain
      → Lineage records (some id) (r ∷ chain)

IsBelow-le :
    (rank : ℕ → ℕ) (low high : ℕ) (parent : Option ℕ)
    → IsBelow rank low parent
    → low ≤ high
    → IsBelow rank high parent
IsBelow-le rank low high none below le = tt
IsBelow-le rank low high (some id) below le = omega arith

Found : (ℕ → ℕ) → ℕ → StoredSnapshot → Type 0
Found rank id r = (r.id ≡ id) × IsBelow rank (rank id) r.parent_id

Found-here :
    (rank : ℕ → ℕ) (id : ℕ) (s r : StoredSnapshot) (b : Bool)
    → IsBelow rank (rank s.id) s.parent_id
    → (s.id == id) ≡ b
    → ◌≡◌ {A = Option StoredSnapshot} (if b then some s else none) (some r)
    → Found rank id r
unfolding Found
Found-here rank id s r false below other found = absurd cc
Found-here rank id s r true below same found =
    let same_id : s.id ≡ id = ground arith in
    let is_r : s ≡ r = ground (arith, found) in
    subst (λ (x : StoredSnapshot). (x.id ≡ id) × IsBelow rank (rank id) x.parent_id) is_r
      (same_id, subst (λ n. IsBelow rank (rank n) s.parent_id) same_id below)

Found-below :
    (rank : ℕ → ℕ) (records : List StoredSnapshot) (id : ℕ) (r : StoredSnapshot)
    → IsRanked rank records
    → get_by_id records id ≡ some r
    → Found rank id r
unfolding get_by_id
Found-below rank [] id r ranked found = absurd cc
Found-below rank (s ∷ records) id r ranked found = elim (Option-cases (get_by_id records id)) [
  | inl nothing ↦ Found-here rank id s r (s.id == id) ranked.0 refl (rw nothing at found)
  | inr (later, is_later) ↦ Found-below rank records id r ranked.1 (is_later ∙ rw is_later at found)
]

walk-Lineage :
    (rank : ℕ → ℕ) (fuel : ℕ) (records : List StoredSnapshot) (start : Option ℕ)
    → IsRanked rank records
    → IsBelow rank fuel start
    → (chain : List StoredSnapshot) × (walk fuel records start ≡ some chain)
      × Lineage records start chain
unfolding walk Found
walk-Lineage rank fuel records none ranked below = ([], refl, base)
walk-Lineage rank zero records (some id) ranked below = absurd (omega arith)
walk-Lineage rank (suc fuel) records (some id) ranked below =
    elim (Option-cases (get_by_id records id)) [
      | inl nothing ↦ ([], rw (walk, nothing) refl, missing id nothing)
      | inr (r, found) ↦
          let (same, parent_below) = Found-below rank records id r ranked found in
          let parent_fuelled =
            IsBelow-le rank (rank id) fuel r.parent_id parent_below (omega arith) in
          let (chain, walked, lineage) =
            walk-Lineage rank fuel records r.parent_id ranked parent_fuelled in
          (r ∷ chain, rw (walk, found, walked) refl, layer id r chain found same lineage)
    ]

-- Where each record's parent is below it in some order, the loop ends after as many rounds as the
-- start is high in that order, and gives the start's record, its parent's and so on, up to the base
-- or to a parent that the store does not have.
pub ancestors-Lineage :
    (rank : ℕ → ℕ) (fuel : ℕ) (records : List StoredSnapshot) (start_id : ℕ)
    → IsRanked rank records
    → rank start_id < fuel
    → (chain : List StoredSnapshot) × (ancestors fuel records start_id ≡ some chain)
      × Lineage records (some start_id) chain
unfolding ancestors
ancestors-Lineage rank fuel records start_id ranked enough =
    walk-Lineage rank fuel records (some start_id) ranked enough
