-- ===== src/Examples/Records.antt =====
-- Snapshots and log lines.
use andler.Base.{
  ℕ, ◌≡◌, ◌⊎◌, false, none, some, Option, List, [], ◌∷◌, ◌++◌, Text, codes, ok, err, Result, All,
  arith,
}
use andler.LogRing.{Line, new_ring, RingWriter, write}
use andler.LogRing.Recent.{push_all, recent, push_all-recent}
use andler.LogRing.Lines.{Splits, write-Splits}
use andler.Snapshots.{
  StoredSnapshot, ancestors, on_main, main_chain_head, no_head_layer, disk, find_head_layer,
}
use andler.Snapshots.Ancestry.{Lineage, ancestors-Lineage}
use andler.Snapshots.MainHead.{IsMainHead, main_chain_head_cases}
use andler.Snapshots.Backing.{IsBacked, IsReadable, IsUnreadable}
use andler.Snapshots.HeadLayer.{IsPickedHead, find_head_layer_cases}
use andler.Examples.Data.{vm_id}

abbrev lines : List Line
lines = (1, codes "a") ∷ (2, codes "b") ∷ []

push_all-recent_example : (push_all new_ring lines).buf ≡ recent lines
push_all-recent_example = push_all-recent lines

abbrev half_a_line : RingWriter
half_a_line = record { ring = new_ring; pending = codes "he" }

abbrev two_lines : Text
two_lines = codes "y" ++ b'\n' ∷ b'\n' ∷ codes "x"

write-Splits_example : Splits new_ring 5 (codes "he" ++ two_lines) (write half_a_line 5 two_lines)
write-Splits_example = write-Splits half_a_line 5 two_lines

abbrev snapshot_at : ℕ → Option ℕ → Text → StoredSnapshot
snapshot_at id parent at = record {
  id = id;
  instance_id = vm_id;
  tag = codes "t";
  description = none;
  created_at = at;
  layer_path = some (codes "layers" ++ codes "/" ++ at);
  parent_id = parent;
  branch = none;
}

abbrev records : List StoredSnapshot
records =
    snapshot_at 1 none (codes "2026-01-01")
    ∷ snapshot_at 2 (some 1) (codes "2026-01-02")
    ∷ snapshot_at 3 (some 2) (codes "2026-01-03")
    ∷ []

ancestors-Lineage_example :
    (chain : List StoredSnapshot) × (ancestors 4 records 3 ≡ some chain)
    × Lineage records (some 3) chain
ancestors-Lineage_example =
    ancestors-Lineage (λ n. n) 4 records 3 (tt, (omega arith, (omega arith, tt))) (omega arith)

main_chain_head_cases_example :
    ((main_chain_head records ≡ none) × All (λ r. on_main r ≡ false) records)
    ⊎ ((h : StoredSnapshot) × (main_chain_head records ≡ some h) × IsMainHead records h)
main_chain_head_cases_example = main_chain_head_cases records

abbrev layers : List Text
layers = codes "/vm/a/layers/2026-01-01" ∷ codes "/vm/a/layers/2026-01-02" ∷ []

-- The second layer is backed by the first.
abbrev info : Text → Result (Option Text) Text
info layer = ok (some (codes "2026-01-01"))

find_head_layer_cases_example :
    ((e : Text) × IsUnreadable info layers e × (find_head_layer info layers records ≡ err (disk e)))
    ⊎ (All (IsReadable info) layers
        × (((find_head_layer info layers records ≡ err no_head_layer)
              × All (IsBacked info layers) layers)
            ⊎ ((layer : Text) × (find_head_layer info layers records ≡ ok layer)
                × IsPickedHead info records layers layer)))
find_head_layer_cases_example = find_head_layer_cases info layers records
