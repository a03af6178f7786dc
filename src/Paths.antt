-- ===== src/Paths.antt =====
-- What the source uses of Rust's `std::path`, on texts of code points: paths with no trailing
-- slash and no `.` component, which is how the program writes them.
use andler.Base.{
  ℕ, Bool, false, Option, none, some, [], ◌∷◌, ◌++◌, Text, codes, text_eq, ◌==◌, if◌then◌else◌,
  is_empty,
}

-- The text before and after the last `sep`.
unfoldable pub before_last : ℕ → Text → Option Text
before_last sep [] = none
before_last sep (c ∷ t) = elim (before_last sep t) [
  | some s ↦ some (c ∷ s)
  | none ↦ (if c == sep then some [] else none)
]

unfoldable pub after_last : ℕ → Text → Option Text
after_last sep [] = none
after_last sep (c ∷ t) = elim (after_last sep t) [
  | some s ↦ some s
  | none ↦ (if c == sep then some t else none)
]

abbrev or_else {ℓ} : {A : Type ℓ} → Option A → A → A
or_else none d = d
or_else (some x) d = x

abbrev named : Text → Option Text
named name = if is_empty name then none else if text_eq name (codes "..") then none else some name

unfoldable pub file_name : Text → Option Text
unfolding after_last
file_name path = named (or_else (after_last b'/' path) path)

abbrev root_if_empty : Text → Text
root_if_empty [] = codes "/"
root_if_empty (c ∷ t) = c ∷ t

abbrev pub parent_of : Text → Option Text → Option Text
parent_of [] dir = none
parent_of (c ∷ t) none = some []
parent_of (c ∷ t) (some dir) =
    if text_eq (c ∷ t) (codes "/") then none else some (root_if_empty dir)

-- The parent of a name alone is the empty path; the root and the empty path have none.
unfoldable pub parent : Text → Option Text
unfolding before_last
parent path = parent_of path (before_last b'/' path)

abbrev ends_with_slash : Text → Bool
ends_with_slash t = elim (after_last b'/' t) [ some s ↦ is_empty s | none ↦ false ]

unfoldable pub join : Text → Text → Text
unfolding after_last
join dir name =
    if is_empty dir
    then name
    else if ends_with_slash dir
    then dir ++ name
    else dir ++ codes "/" ++ name

unfoldable pub with_file_name : Text → Text → Text
unfolding file_name parent join
with_file_name path name = elim (file_name path) [
  | some old ↦ join (or_else (parent path) []) name
  | none ↦ join path name
]

-- A name whose only dot is its first character has no extension.
abbrev stem : Text → Text
stem name = elim (before_last b'.' name) [ some s ↦ (if is_empty s then name else s) | none ↦ name ]

unfoldable pub with_extension : Text → Text → Text
unfolding file_name parent join before_last
with_extension path ext = elim (file_name path) [
  | some name ↦ join (or_else (parent path) []) (stem name ++ codes "." ++ ext)
  | none ↦ path
]
