-- ===== src/Supervisor/ConfigFile.antt =====
-- instance.toml: `reload_if_changed`, `persist`, the ladder's re-derivation, `write_instance_toml`
-- of daemon/types.rs and `parse_instance_config_toml` of core/andler-core/src/config/loader.rs.
use andler.Base.{
  ℕ, Bool, true, false, not, Option, none, some, Text, Result, ok, err, ◌==◌, text_eq,
  if◌then◌else◌,
}
use andler.Config.{InstanceConfig, SchemaError, migrate_schema}
use andler.Fsm.{is_disk_idle}
use andler.Readiness.{
  ReadinessProfile, linux_guest, android_linux_mode, android_waydroid, ladder_new, profile_of,
}
use andler.Supervisor.State.{
  Toml, TomlFile, InvalidToml, syntax, schema, unreadable, other_instance, invalid, Supervisor,
  World,
}

abbrev schema_checked : Result InstanceConfig SchemaError → Result InstanceConfig InvalidToml
schema_checked (ok cfg) = ok cfg
schema_checked (err e) = err (schema e)

abbrev migrated : Result InstanceConfig Text → Result InstanceConfig InvalidToml
migrated (ok cfg) = schema_checked (migrate_schema cfg)
migrated (err e) = err (syntax e)

unfoldable pub parse_instance_config_toml : Toml → Text → Result InstanceConfig InvalidToml
parse_instance_config_toml toml input = migrated (toml.decode input)

unfoldable pub reset_ladder : Supervisor → Supervisor
unfolding ladder_new
reset_ladder s =
    let fresh = ladder_new (profile_of s.config.kind) in
    record s { ladder = fresh; readiness_tx = fresh }

abbrev pub profile_eq : ReadinessProfile → ReadinessProfile → Bool
profile_eq linux_guest linux_guest = true
profile_eq android_linux_mode android_linux_mode = true
profile_eq android_waydroid android_waydroid = true
profile_eq _ _ = false

unfoldable pub rebase_ladder : Supervisor → Supervisor
unfolding reset_ladder
rebase_ladder s =
    if profile_eq s.ladder.profile (profile_of s.config.kind) then s else reset_ladder s

-- `self.config_mtime.is_some() && mtime == self.config_mtime`
abbrev pub is_unchanged : Option ℕ → Option ℕ → Bool
is_unchanged (some seen) (some mtime) = mtime == seen
is_unchanged _ _ = false

-- The `match` on the parsed file.
unfoldable pub accept_file : Supervisor → Option ℕ → Result InstanceConfig InvalidToml → Supervisor
unfolding rebase_ladder is_disk_idle text_eq
accept_file s mtime (err e) = record s { file_config = none; file_error = some (invalid e) }
accept_file s mtime (ok cfg) =
    let seen = record s { file_config = some cfg; config_mtime = mtime; file_error = none } in
    if not (text_eq cfg.id s.id)
    then record s { file_config = none; file_error = some other_instance }
    else if is_disk_idle s.state
    then record (rebase_ladder (record seen { config = cfg })) { config_tx = cfg }
    else seen

unfoldable pub read_file : Toml → Supervisor → Option ℕ → Option Text → Supervisor
unfolding accept_file parse_instance_config_toml
read_file toml s mtime none = record s { file_error = some unreadable }
read_file toml s mtime (some content) =
    accept_file s mtime (parse_instance_config_toml toml content)

unfoldable pub reload_from : Toml → Supervisor → Option TomlFile → Supervisor
unfolding read_file
reload_from toml s none = record s { config_mtime = none; file_config = none }
reload_from toml s (some file) =
    if is_unchanged s.config_mtime file.mtime then s else read_file toml s file.mtime file.content

unfoldable pub reload_if_changed : Toml → Supervisor → World → Supervisor
unfolding reload_from
reload_if_changed toml s w = reload_from toml s w.file

-- A failed serialisation, write or rename is logged and leaves the file as it was.
abbrev written : Option Text → World → World
written none w = w
written (some text) w =
    if w.writable
    then record w { file = some (record { content = some text; mtime = some w.now }) }
    else w

unfoldable pub write_instance_toml : Toml → InstanceConfig → World → World
write_instance_toml toml cfg w = written (toml.encode cfg) w

abbrev pub stamped : Option TomlFile → Supervisor → Supervisor
stamped none s = s
stamped (some file) s = record s { config_mtime = file.mtime }

-- What `persist` does after its reload.
unfoldable pub save_config : Toml → Supervisor → World → Supervisor × World
unfolding write_instance_toml
save_config toml s w =
    let w' = write_instance_toml toml s.config w in
    (record (stamped w'.file s) { file_config = some s.config; file_error = none }, w')

unfoldable pub persist : Toml → Supervisor → World → Supervisor × World
unfolding reload_if_changed save_config
persist toml s w = save_config toml (reload_if_changed toml s w) w
