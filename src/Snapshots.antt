-- ===== src/Snapshots.antt =====
-- apps/daemon/src/daemon/disk_chain.rs: the records of snapshots, and the layers of a disk chain.
--
-- A uuid is its 128-bit number. Reading a layer's header with qemu-img is the parameter `info`.
pub mod Ancestry
pub mod MainHead
pub mod Backing
pub mod HeadLayer
use andler.Base.{
  ℕ, zero, suc, Bool, true, false, not, ◌&&◌, ◌||◌, Option, none, some, List, [], ◌∷◌, ◌++◌, Text,
  codes, text_eq, Result, ok, err, ◌>>=◌, ltb, ◌==◌, if◌then◌else◌, any, retain, is_empty, length,
}
use andler.Config.{InstanceId}
use andler.Paths.{parent, join}

pub record StoredSnapshot : Type 0 where
  pub id : ℕ
  pub instance_id : InstanceId
  pub tag : Text
  pub description : Option Text
  pub created_at : Text
  pub layer_path : Option Text
  pub parent_id : Option ℕ
  pub branch : Option Text

abbrev pub or_this : Option StoredSnapshot → Option StoredSnapshot → Option StoredSnapshot
or_this none this = this
or_this (some later) this = some later

-- The map `by_id`, where a later record of the same id takes an earlier one's place.
unfoldable pub get_by_id : List StoredSnapshot → ℕ → Option StoredSnapshot
get_by_id [] id = none
get_by_id (r ∷ records) id =
    let later = get_by_id records id in or_this later (if r.id == id then some r else none)

abbrev pub onto_chain : StoredSnapshot → Option (List StoredSnapshot) → Option (List StoredSnapshot)
onto_chain r none = none
onto_chain r (some chain) = some (r ∷ chain)

-- The `while let` loop, on fuel; `none` is a loop that has not ended.
unfoldable pub walk : ℕ → List StoredSnapshot → Option ℕ → Option (List StoredSnapshot)
walk fuel records none = some []
walk zero records (some id) = none
walk (suc fuel) records (some id) = elim (get_by_id records id) [
  | none ↦ some []
  | some r ↦ onto_chain r (walk fuel records r.parent_id)
]

unfoldable pub ancestors : ℕ → List StoredSnapshot → ℕ → Option (List StoredSnapshot)
unfolding walk
ancestors fuel records start_id = walk fuel records (some start_id)

abbrev is_id : Option ℕ → ℕ → Bool
is_id none id = false
is_id (some p) id = p == id

unfoldable pub direct_children : List StoredSnapshot → ℕ → List StoredSnapshot
direct_children records parent_id = retain (λ r. is_id r.parent_id parent_id) records

-- `<` of `String`: by the first place at which they differ, a prefix before what it begins.
unfoldable pub text_lt : Text → Text → Bool
text_lt s [] = false
text_lt [] (y ∷ ys) = true
text_lt (x ∷ xs) (y ∷ ys) =
    let rest = text_lt xs ys in if ltb x y then true else if x == y then rest else false

abbrev pub is_some {ℓ} : {A : Type ℓ} → Option A → Bool
is_some none = false
is_some (some a) = true

abbrev pub on_main : StoredSnapshot → Bool
on_main r = is_some r.layer_path && not (is_some r.branch)

-- `max_by`, which keeps the last of several greatest.
unfoldable pub latest_from : StoredSnapshot → List StoredSnapshot → StoredSnapshot
unfolding text_lt
latest_from best [] = best
latest_from best (r ∷ records) =
    latest_from (if text_lt r.created_at best.created_at then best else r) records

abbrev pub latest : List StoredSnapshot → Option StoredSnapshot
unfolding latest_from
latest [] = none
latest (r ∷ records) = some (latest_from r records)

-- `main_chain_head`, of the records that the store has for the instance.
unfoldable pub main_chain_head : List StoredSnapshot → Option StoredSnapshot
unfolding latest
main_chain_head records = latest (retain on_main records)

abbrev is_absolute : Text → Bool
is_absolute [] = false
is_absolute (c ∷ t) = c == b'/'

abbrev parent_or_empty : Option Text → Text
parent_or_empty none = []
parent_or_empty (some dir) = dir

unfoldable pub resolve_backing : Text → Text → Text
resolve_backing layer backing =
    if is_absolute backing then backing else join (parent_or_empty (parent layer)) backing

unfoldable pub ends_with : Text → Text → Bool
unfolding text_eq
ends_with [] suffix = is_empty suffix
ends_with (c ∷ t) suffix = let rest = ends_with t suffix in text_eq (c ∷ t) suffix || rest

-- `Path::ends_with`, which compares whole components.
unfoldable pub path_ends_with : Text → Text → Bool
unfolding ends_with text_eq
path_ends_with path rel = is_empty rel || text_eq path rel || ends_with path (codes "/" ++ rel)

pub data DaemonError (E : Type 0) : Type 0 where
  disk : E → DaemonError E
  no_head_layer : DaemonError E

abbrev pub contains : List Text → Text → Bool
unfolding text_eq
contains paths path = any (text_eq path) paths

abbrev layer_matches : Text → Option Text → Bool
unfolding path_ends_with
layer_matches layer none = false
layer_matches layer (some rel) = path_ends_with layer rel

abbrev pub is_main_layer : List StoredSnapshot → Text → Bool
unfolding layer_matches
is_main_layer records layer =
    any (λ r. layer_matches layer r.layer_path && not (is_some r.branch)) records

-- The second loop.
unfoldable pub pick_head : List Text → List StoredSnapshot → List Text → Option Text → Option Text
unfolding contains is_main_layer
pick_head referenced records [] fallback = fallback
pick_head referenced records (layer ∷ layers) fallback =
    let rest = pick_head referenced records layers fallback in
    let next = pick_head referenced records layers (some layer) in
    if contains referenced layer
    then rest
    else if is_main_layer records layer
    then some layer
    else next

module _ {E : Type 0} (info : Text → Result (Option Text) E) where
  abbrev pub add_backing : Text → Option Text → List Text → List Text
  unfolding resolve_backing
  add_backing layer none referenced = referenced
  add_backing layer (some backing) referenced = resolve_backing layer backing ∷ referenced

  abbrev pub map_err : Result (Option Text) E → Result (Option Text) (DaemonError E)
  map_err (ok backing) = ok backing
  map_err (err e) = err (disk e)

  -- The first loop; the set is a list.
  unfoldable pub referenced_by : List Text → Result (List Text) (DaemonError E)
  unfolding add_backing
  referenced_by [] = ok []
  referenced_by (layer ∷ layers) = do
    backing ← map_err (info layer)
    rest ← referenced_by layers
    ok (add_backing layer backing rest)

  abbrev ok_or_no_head : Option Text → Result Text (DaemonError E)
  ok_or_no_head none = err no_head_layer
  ok_or_no_head (some layer) = ok layer

  unfoldable pub find_head_layer : List Text → List StoredSnapshot → Result Text (DaemonError E)
  unfolding referenced_by pick_head
  find_head_layer layers records = do
    referenced ← referenced_by layers
    ok_or_no_head (pick_head referenced records layers none)
