-- ===== src/Snapshots/MainHead.antt =====
-- The head of the main chain is its latest layer.
use andler.Base.{
  ◌≡◌, refl, true, false, none, some, List, [], ◌∷◌, Text, ◌⊎◌, inl, inr, All, arith, Bool-cases,
  retain,
}
use mathlib.Core.List.{Memᴰ}
use mathlib.Core.List.Memᴰ
use mathlib.Core.Path.{ap, ◌∙◌}
use andler.Snapshots.{StoredSnapshot, text_lt, on_main, latest_from, latest, main_chain_head}

text_lt_irrefl : (s : Text) → text_lt s s ≡ false
unfolding text_lt
text_lt_irrefl [] = refl
text_lt_irrefl (x ∷ xs) = ground (arith, text_lt_irrefl xs)

-- If `t` is not after `u` and `s` is not after `t`, then `s` is not after `u`.
not_lt_trans : (s t u : Text) → text_lt t s ≡ false → text_lt u t ≡ false → text_lt u s ≡ false
unfolding text_lt
not_lt_trans [] t u h k = refl
not_lt_trans (x ∷ xs) [] u h k = cc
not_lt_trans (x ∷ xs) (y ∷ ys) [] h k = cc
not_lt_trans (x ∷ xs) (y ∷ ys) (z ∷ zs) h k = ground (arith, not_lt_trans xs ys zs)

record IsLatest (records : List StoredSnapshot) (h : StoredSnapshot) : Type 0 where
  stored : Memᴰ h records
  newest : All (λ r. text_lt h.created_at r.created_at ≡ false) records

text_lt_asym : (s t : Text) → text_lt s t ≡ true → text_lt t s ≡ false
unfolding text_lt
text_lt_asym [] [] h = cc
text_lt_asym [] (y ∷ ys) h = refl
text_lt_asym (x ∷ xs) [] h = cc
text_lt_asym (x ∷ xs) (y ∷ ys) h = ground (arith, text_lt_asym xs ys)

keep_best :
    (best r h : StoredSnapshot) (records : List StoredSnapshot)
    → text_lt r.created_at best.created_at ≡ true
    → IsLatest (best ∷ records) h
    → IsLatest (best ∷ r ∷ records) h
keep_best best r h records earlier l = record {
  stored = elim (Memᴰ.cases_cons l.stored) [
    | inl e ↦ Memᴰ.head e
    | inr m ↦ Memᴰ.tail (Memᴰ.tail m)
  ];
  newest = (
    l.newest.0,
    (
      not_lt_trans r.created_at best.created_at h.created_at
          (text_lt_asym r.created_at best.created_at earlier) l.newest.0,
      l.newest.1,
    ),
  );
}

take_next :
    (best r h : StoredSnapshot) (records : List StoredSnapshot)
    → text_lt r.created_at best.created_at ≡ false
    → IsLatest (r ∷ records) h
    → IsLatest (best ∷ r ∷ records) h
take_next best r h records later l = record {
  stored = Memᴰ.tail l.stored;
  newest = (not_lt_trans best.created_at r.created_at h.created_at later l.newest.0, l.newest);
}

latest_from-IsLatest :
    (best : StoredSnapshot) (records : List StoredSnapshot)
    → IsLatest (best ∷ records) (latest_from best records)
unfolding latest_from
latest_from-IsLatest best [] = record {
  stored = Memᴰ.head refl;
  newest = (text_lt_irrefl best.created_at, tt);
}
latest_from-IsLatest best (r ∷ records) = elim (Bool-cases (text_lt r.created_at best.created_at)) [
  | inl earlier ↦ rw earlier (
      keep_best best r (latest_from best records) records earlier
        (latest_from-IsLatest best records))
  | inr later ↦
      rw later
        (take_next best r (latest_from r records) records later (latest_from-IsLatest r records))
]

-- What the filter keeps.
retain-stored :
    (h : StoredSnapshot) (records : List StoredSnapshot)
    → Memᴰ h (retain on_main records)
    → (on_main h ≡ true) × Memᴰ h records
retain-stored h [] m = elim m [ ]
retain-stored h (r ∷ records) m = elim (Bool-cases (on_main r)) [
  | inl main ↦ elim (Memᴰ.cases_cons (rw main at m)) [
    | inl e ↦ (ap on_main e ∙ main, Memᴰ.head e)
    | inr later ↦ let (on, there) = retain-stored h records later in (on, Memᴰ.tail there)
  ]
  | inr other ↦ let (on, there) = retain-stored h records (rw other at m) in (on, Memᴰ.tail there)
]

retain-newest :
    (h : StoredSnapshot) (records : List StoredSnapshot)
    → All (λ r. text_lt h.created_at r.created_at ≡ false) (retain on_main records)
    → All (λ r. (on_main r ≡ false) ⊎ (text_lt h.created_at r.created_at ≡ false)) records
retain-newest h [] newest = tt
retain-newest h (r ∷ records) newest = elim (Bool-cases (on_main r)) [
  | inl main ↦ let (here, later) = rw main at newest in (inr here, retain-newest h records later)
  | inr other ↦ (inl other, retain-newest h records (rw other at newest))
]

retain-empty :
    (records : List StoredSnapshot)
    → retain on_main records ≡ []
    → All (λ r. on_main r ≡ false) records
retain-empty [] h = tt
retain-empty (r ∷ records) h = elim (Bool-cases (on_main r)) [
  | inl main ↦ absurd (let e = rw main at h in cc)
  | inr other ↦ (other, retain-empty records (rw other at h))
]

-- A record that is on the main branch, in the store, and no earlier than any other that is.
pub record IsMainHead (records : List StoredSnapshot) (h : StoredSnapshot) : Type 0 where
  pub main : on_main h ≡ true
  pub stored : Memᴰ h records
  pub newest : All (λ r. (on_main r ≡ false) ⊎ (text_lt h.created_at r.created_at ≡ false)) records

latest-cases :
    (kept : List StoredSnapshot)
    → ((kept ≡ []) × (latest kept ≡ none))
      ⊎ ((h : StoredSnapshot) × (latest kept ≡ some h) × IsLatest kept h)
unfolding latest
latest-cases [] = inl (refl, refl)
latest-cases (r ∷ records) = inr (latest_from r records, refl, latest_from-IsLatest r records)

-- The head of the main chain is a latest layer of the main branch, and there is none exactly where
-- the main branch has no layer.
pub main_chain_head_cases :
    (records : List StoredSnapshot)
    → ((main_chain_head records ≡ none) × All (λ r. on_main r ≡ false) records)
      ⊎ ((h : StoredSnapshot) × (main_chain_head records ≡ some h) × IsMainHead records h)
unfolding main_chain_head
main_chain_head_cases records = elim (latest-cases (retain on_main records)) [
  | inl (empty, nothing) ↦ inl (nothing, retain-empty records empty)
  | inr (h, found, l) ↦
      let (main, stored) = retain-stored h records l.stored in
      inr (
        h,
        found,
        record { main = main; stored = stored; newest = retain-newest h records l.newest },
      )
]
