-- ===== src/Hotplug/DiskPath.antt =====
-- Which paths `resolve_extra_disk_path` takes.
use andler.Base.{
  ℕ, true, false, ◌≡◌, ◌≢◌, refl, Option, none, some, [], ◌∷◌, Text, text_eq, ok, err, arith,
  if◌then◌else◌, Bool-cases, inl, inr,
}
use andler.Paths.{before_last, parent, parent_of}
use andler.Hotplug.Host.{path_not_absolute, is_absolute, has_parent, resolve_extra_disk_path}

has_parent-relative :
    (path : Text) (dir : Option Text)
    → path ≢ []
    → is_absolute path ≡ false
    → has_parent (parent_of path dir) ≡ true
unfolding text_eq
has_parent-relative [] dir nonempty relative = absurd (nonempty refl)
has_parent-relative (c ∷ rest) none nonempty relative = refl
has_parent-relative (c ∷ rest) (some dir) nonempty relative = rw relative refl

-- A requested path is taken as it is if it is absolute. A relative one that is not empty, a plain file
-- name included, is refused: it has a parent, if only the empty one, so that it is never placed in the
-- instance's directory.
pub resolve_extra_disk_path_cases :
    (path instance_dir : Text) (index : ℕ)
    → path ≢ []
    → resolve_extra_disk_path (some path) instance_dir index
      ≡ (if is_absolute path then ok path else err (path_not_absolute path))
unfolding resolve_extra_disk_path parent
resolve_extra_disk_path_cases path instance_dir index nonempty =
    elim (Bool-cases (is_absolute path)) [
      | inl absolute ↦ ground arith
      | inr relative ↦
          rw (relative, has_parent-relative path (before_last b'/' path) nonempty relative)
            (rw relative refl)
    ]
