-- ===== src/Snapshots/Backing.antt =====
-- Which layers are backing files of others, by what their headers say.
use andler.Base.{
  ◌≡◌, refl, sym, ap, ◌∙◌, ◌↔◌, Bool, ◌||◌, true, false, Option, none, some, List, [], ◌∷◌, Text,
  inl, inr, All, Result-cases, Bool-cases, Result, ok, err, ◌==◌, if◌then◌else◌, text_eq,
  text_eq_iff, ◌⊎◌,
}
use mathlib.Core.List.{Memᴰ}
use mathlib.Core.List.Memᴰ
use andler.Paths.{parent, join}
use andler.Snapshots.{DaemonError, disk, contains, resolve_backing, add_backing, referenced_by}

abbrev directory : Option Text → Text
directory none = []
directory (some dir) = dir

-- Where the file is that the header of `upper` names: from the root, or from the directory of `upper`.
abbrev pub located : Text → Text → Text
located upper [] = join (directory (parent upper)) []
located upper (c ∷ t) = if c == b'/' then c ∷ t else join (directory (parent upper)) (c ∷ t)

resolve_backing-located :
    (upper backing : Text) → resolve_backing upper backing ≡ located upper backing
unfolding resolve_backing
resolve_backing-located upper [] = refl
resolve_backing-located upper (c ∷ t) = refl

-- One of the layers has a header that names `path`.
pub record IsBacked {E : Type 0} (info : Text → Result (Option Text) E) (layers : List Text)
    (path : Text) : Type 0 where
  pub upper : Text
  pub there : Memᴰ upper layers
  pub backing : Text
  pub header : info upper ≡ ok (some backing)
  pub names : path ≡ located upper backing

abbrev pub IsReadable : {E : Type 0} → (Text → Result (Option Text) E) → Text → Type 0
IsReadable info layer = (backing : Option Text) × (info layer ≡ ok backing)

pub record IsUnreadable {E : Type 0} (info : Text → Result (Option Text) E) (layers : List Text)
    (e : E) : Type 0 where
  pub layer : Text
  pub there : Memᴰ layer layers
  pub header : info layer ≡ err e

first_or_later :
    (x layer : Text) (layers : List Text) → Memᴰ x (layer ∷ layers) → (x ≡ layer) ⊎ Memᴰ x layers
first_or_later x layer layers (Memᴰ.head e) = inl e
first_or_later x layer layers (Memᴰ.tail m) = inr m

or_true : (a : Bool) {b : Bool} → b ≡ true → (a || b) ≡ true
or_true true e = refl
or_true false e = e

module _ {E : Type 0} (info : Text → Result (Option Text) E) (layer : Text)
    (layers : List Text) where
  later-IsBacked : (path : Text) → IsBacked info layers path → IsBacked info (layer ∷ layers) path
  later-IsBacked path b = record {
    upper = b.upper;
    there = Memᴰ.tail b.there;
    backing = b.backing;
    header = b.header;
    names = b.names;
  }

  -- Named by the first layer, or by a later one.
  by_first_or_later :
      (path : Text)
      → IsBacked info (layer ∷ layers) path
      → ((b : Text) × (info layer ≡ ok (some b)) × (path ≡ located layer b))
        ⊎ IsBacked info layers path
  by_first_or_later path b = elim (first_or_later b.upper layer layers b.there) [
    | inl e ↦ inl (b.backing, ap info (sym e) ∙ b.header, b.names ∙ ap (λ u. located u b.backing) e)
    | inr m ↦ inr (record {
      upper = b.upper;
      there = m;
      backing = b.backing;
      header = b.header;
      names = b.names;
    })
  ]

  add_backing-IsBacked :
      (rest : List Text) (backing : Option Text) (path : Text)
      → info layer ≡ ok backing
      → (contains rest path ≡ true) ↔ IsBacked info layers path
      → (contains (add_backing info layer backing rest) path ≡ true)
        ↔ IsBacked info (layer ∷ layers) path
  unfolding add_backing contains
  add_backing-IsBacked rest none path read rest_iff = (
    λ h. later-IsBacked path (rest_iff.0 h),
    λ b. elim (by_first_or_later path b) [
      | inl (named, header, names) ↦ absurd (let e = sym read ∙ header in cc)
      | inr later ↦ rest_iff.1 later
    ],
  )
  add_backing-IsBacked rest (some backing) path read rest_iff =
      let place = resolve_backing-located layer backing in
      let same = text_eq_iff path (resolve_backing layer backing) in
      (
        λ h. elim (Bool-cases (text_eq path (resolve_backing layer backing))) [
          | inl here ↦ record {
            upper = layer;
            there = Memᴰ.head refl;
            backing = backing;
            header = read;
            names = same.0 here ∙ place;
          }
          | inr other ↦
              later-IsBacked path (rest_iff.0 (sym (ap (λ b. b || contains rest path) other) ∙ h))
        ],
        λ b. elim (by_first_or_later path b) [
          | inl (named, header, names) ↦
              let e : ◌≡◌ {A = Result (Option Text) E} (ok (some backing)) (ok (some named)) =
                sym read ∙ header in
              let same_name : named ≡ backing = cc in
              let at : path ≡ resolve_backing layer backing =
                names ∙ ap (located layer) same_name ∙ sym place in
              rw (same.1 at) refl
          | inr later ↦ or_true (text_eq path (resolve_backing layer backing)) (rest_iff.1 later)
        ],
      )

module _ {E : Type 0} (info : Text → Result (Option Text) E) where
  -- The first loop, step by step.
  record Read (layer : Text) (layers refs : List Text) : Type 0 where
    backing : Option Text
    rest : List Text
    header : info layer ≡ ok backing
    others : referenced_by info layers ≡ ok rest
    all : refs ≡ add_backing info layer backing rest

  referenced_by-Read :
      (layer : Text) (layers refs : List Text)
      → referenced_by info (layer ∷ layers) ≡ ok refs
      → Read layer layers refs
  unfolding referenced_by
  referenced_by-Read layer layers refs h = elim (Result-cases (info layer)) [
    | inl (backing, read) ↦ elim (Result-cases (referenced_by info layers)) [
      | inl (rest, others) ↦
          let same : referenced_by info (layer ∷ layers)
              ≡ ok (add_backing info layer backing rest) =
            rw (read, others) refl in
          record { backing = backing; rest = rest; header = read; others = others; all = cc }
      | inr (e, failed) ↦
          let same : referenced_by info (layer ∷ layers) ≡ err e = rw (read, failed) refl in
          absurd cc
    ]
    | inr (e, failed) ↦
        let same : referenced_by info (layer ∷ layers) ≡ err (disk e) = rw failed refl in absurd cc
  ]

  nothing_named : (path : Text) → contains [] path ≡ true → ⊥
  unfolding contains
  nothing_named path e = cc

  pub referenced_by-IsBacked :
      (layers refs : List Text) (path : Text)
      → referenced_by info layers ≡ ok refs
      → (contains refs path ≡ true) ↔ IsBacked info layers path
  unfolding referenced_by
  referenced_by-IsBacked [] refs path h =
      let none_named : refs ≡ [] = cc in
      rw none_named (λ e. absurd (nothing_named path e), λ b. absurd (Memᴰ.not-nil b.there))
  referenced_by-IsBacked (layer ∷ layers) refs path h =
      let r = referenced_by-Read layer layers refs h in
      rw r.all (
        add_backing-IsBacked info layer layers r.rest r.backing path r.header
          (referenced_by-IsBacked layers r.rest path r.others))

  pub referenced_by-IsReadable :
      (layers refs : List Text) → referenced_by info layers ≡ ok refs → All (IsReadable info) layers
  referenced_by-IsReadable [] refs h = tt
  referenced_by-IsReadable (layer ∷ layers) refs h =
      let r = referenced_by-Read layer layers refs h in
      ((r.backing, r.header), referenced_by-IsReadable layers r.rest r.others)

  -- The first layer that cannot be read is the answer.
  pub referenced_by-IsUnreadable :
      (layers : List Text) (error : DaemonError E)
      → referenced_by info layers ≡ err error
      → (e : E) × IsUnreadable info layers e × (error ≡ disk e)
  unfolding referenced_by
  referenced_by-IsUnreadable [] error h = absurd cc
  referenced_by-IsUnreadable (layer ∷ layers) error h = elim (Result-cases (info layer)) [
    | inl (backing, read) ↦ elim (Result-cases (referenced_by info layers)) [
      | inl (rest, others) ↦
          let same : referenced_by info (layer ∷ layers)
              ≡ ok (add_backing info layer backing rest) =
            rw (read, others) refl in
          absurd cc
      | inr (e, failed) ↦
          let same : referenced_by info (layer ∷ layers) ≡ err e = rw (read, failed) refl in
          let (cause, u, is) = referenced_by-IsUnreadable layers error (failed ∙ cc) in
          (cause, record { layer = u.layer; there = Memᴰ.tail u.there; header = u.header }, is)
    ]
    | inr (e, failed) ↦
        let same : referenced_by info (layer ∷ layers) ≡ err (disk e) = rw failed refl in
        (e, record { layer = layer; there = Memᴰ.head refl; header = failed }, cc)
  ]
