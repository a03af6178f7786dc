-- ===== src/Snapshots/HeadLayer.antt =====
-- Which layer a broken chain is rebuilt on.
use andler.Base.{
  ◌≡◌, refl, ◌↔◌, true, false, Option, none, some, List, [], ◌∷◌, Text, ◌⊎◌, inl, inr, All, All-map,
  Result-cases, Bool-cases, Result, ok, err,
}
use mathlib.Core.List.{Memᴰ}
use andler.Snapshots.Backing.{
  IsBacked, IsReadable, IsUnreadable, referenced_by-IsBacked, referenced_by-IsReadable,
  referenced_by-IsUnreadable,
}
use andler.Snapshots.{
  StoredSnapshot, disk, no_head_layer, contains, is_main_layer, pick_head, referenced_by,
  find_head_layer,
}

-- Whether a layer is a head: no layer names it as its backing file.
abbrev pub IsHead : List Text → Text → Type 0
IsHead referenced layer = contains referenced layer ≡ false

abbrev pub AllBacked : List Text → List Text → Type 0
AllBacked referenced layers = All (λ layer. contains referenced layer ≡ true) layers

abbrev pub NoMainHead : List Text → List StoredSnapshot → List Text → Type 0
NoMainHead referenced records layers =
    All (λ layer. (contains referenced layer ≡ true) ⊎ (is_main_layer records layer ≡ false)) layers

pub record IsPicked (referenced : List Text) (records : List StoredSnapshot) (layers : List Text)
    (layer : Text) : Type 0 where
  pub there : Memᴰ layer layers
  pub head : IsHead referenced layer
  pub main_first : (is_main_layer records layer ≡ true) ⊎ NoMainHead referenced records layers

extend-IsPicked :
    (referenced : List Text) (records : List StoredSnapshot) (layers : List Text)
    (layer found : Text)
    → (contains referenced layer ≡ true) ⊎ (is_main_layer records layer ≡ false)
    → IsPicked referenced records layers found
    → IsPicked referenced records (layer ∷ layers) found
extend-IsPicked referenced records layers layer found passed p = record {
  there = Memᴰ.tail p.there;
  head = p.head;
  main_first = elim (p.main_first) [
    | inl main ↦ inl main
    | inr none_main ↦ inr (passed, none_main)
  ];
}

last_resort :
    (referenced : List Text) (records : List StoredSnapshot) (layers : List Text) (layer : Text)
    → contains referenced layer ≡ false
    → is_main_layer records layer ≡ false
    → AllBacked referenced layers
    → IsPicked referenced records (layer ∷ layers) layer
last_resort referenced records layers layer head side all = record {
  there = Memᴰ.head refl;
  head = head;
  main_first = inr (inr side, All-map layers (λ l backed. inl backed) all);
}

-- What the loop gives: a head of the layers, or its fallback if all of them are backed on.
Outcome : List Text → List StoredSnapshot → List Text → Option Text → Option Text → Type 0
Outcome referenced records layers fallback picked =
    ((layer : Text) × (picked ≡ some layer) × IsPicked referenced records layers layer)
    ⊎ ((picked ≡ fallback) × AllBacked referenced layers)

pick_head-Outcome :
    (referenced : List Text) (records : List StoredSnapshot) (layers : List Text)
    (fallback : Option Text)
    → Outcome referenced records layers fallback (pick_head referenced records layers fallback)
unfolding pick_head Outcome
pick_head-Outcome referenced records [] fallback = inr (refl, tt)
pick_head-Outcome referenced records (layer ∷ layers) fallback =
    elim (Bool-cases (contains referenced layer)) [
      | inl backed ↦ elim (pick_head-Outcome referenced records layers fallback) [
        | inl (found, is_found, p) ↦ inl (
          found,
          rw backed is_found,
          extend-IsPicked referenced records layers layer found (inl backed) p,
        )
        | inr (same, all) ↦ inr (rw backed same, (backed, all))
      ]
      | inr head ↦ elim (Bool-cases (is_main_layer records layer)) [
        | inl main ↦ inl (
          layer,
          rw (head, main) refl,
          record { there = Memᴰ.head refl; head = head; main_first = inl main },
        )
        | inr side ↦ elim (pick_head-Outcome referenced records layers (some layer)) [
          | inl (found, is_found, p) ↦ inl (
            found,
            rw (head, side) is_found,
            extend-IsPicked referenced records layers layer found (inr side) p,
          )
          | inr (same, all) ↦ inl (
            layer,
            rw (head, side) same,
            last_resort referenced records layers layer head side all,
          )
        ]
      ]
    ]

-- A layer that no header names, and that is on the main branch unless all those layers are off it.
pub record IsPickedHead {E : Type 0} (info : Text → Result (Option Text) E)
    (records : List StoredSnapshot) (layers : List Text) (layer : Text) : Type 0 where
  pub there : Memᴰ layer layers
  pub head : ¬ IsBacked info layers layer
  pub main_first :
      (is_main_layer records layer ≡ true)
      ⊎ All (λ l. IsBacked info layers l ⊎ (is_main_layer records l ≡ false)) layers

module _ {E : Type 0} (info : Text → Result (Option Text) E) (layers referenced : List Text) where
  IsPicked-IsPickedHead :
      (records : List StoredSnapshot) (layer : Text)
      → ((path : Text) → (contains referenced path ≡ true) ↔ IsBacked info layers path)
      → IsPicked referenced records layers layer
      → IsPickedHead info records layers layer
  IsPicked-IsPickedHead records layer backed p = record {
    there = p.there;
    head = λ b. let named = (backed layer).1 b in let head = p.head in absurd cc;
    main_first = elim (p.main_first) [
      | inl main ↦ inl main
      | inr off ↦ inr (
          All-map layers
            (λ l either. elim either [ inl named ↦ inl ((backed l).0 named) | inr side ↦ inr side ])
            off)
    ];
  }

module _ {E : Type 0} (info : Text → Result (Option Text) E) where
  -- If some layer's header cannot be read, that is the answer. Otherwise all headers are read, and a layer
  -- that no header names is picked, on the main branch if one of them is; where each layer is named by
  -- the header of another, there is no head. A name in a header is taken from the root, or from the
  -- directory of the layer that has it.
  pub find_head_layer_cases :
      (layers : List Text) (records : List StoredSnapshot)
      → ((e : E) × IsUnreadable info layers e
          × (find_head_layer info layers records ≡ err (disk e)))
        ⊎ (All (IsReadable info) layers
            × (((find_head_layer info layers records ≡ err no_head_layer)
                  × All (IsBacked info layers) layers)
                ⊎ ((layer : Text) × (find_head_layer info layers records ≡ ok layer)
                    × IsPickedHead info records layers layer)))
  unfolding find_head_layer Outcome
  find_head_layer_cases layers records = elim (Result-cases (referenced_by info layers)) [
    | inl (referenced, read) ↦
        let backed : (path : Text) → (contains referenced path ≡ true) ↔ IsBacked info layers path =
          λ path. referenced_by-IsBacked info layers referenced path read in
        inr (
          referenced_by-IsReadable info layers referenced read,
          elim (pick_head-Outcome referenced records layers none) [
            | inl (layer, found, p) ↦ inr (
              layer,
              rw (read, found) refl,
              IsPicked-IsPickedHead info layers referenced records layer backed p,
            )
            | inr (nothing, all) ↦
                inl (rw (read, nothing) refl, All-map layers (λ l named. (backed l).0 named) all)
          ],
        )
    | inr (error, failed) ↦
        let (e, unreadable, is) = referenced_by-IsUnreadable info layers error failed in
        inl (e, unreadable, rw (failed, is) refl)
  ]
