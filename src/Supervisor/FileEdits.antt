-- ===== src/Supervisor/FileEdits.antt =====
-- What becomes of an edit of instance.toml: read while the instance is idle, overwritten by the
-- supervisor's own write otherwise.
use andler.Base.{
  ◌≡◌, refl, true, false, Option, none, some, Text, Result, ok, err, arith, if_both, ℕ, text_eq_iff,
  ap, sym, ◌∙◌,
}
use andler.Config.{InstanceConfig}
use andler.Fsm.{is_disk_idle}
use andler.Supervisor.State.{Toml, TomlFile, Supervisor, World, InvalidToml}
use andler.Supervisor.ConfigFile.{
  rebase_ladder, is_unchanged, parse_instance_config_toml, accept_file, read_file, reload_from,
  reload_if_changed, save_config, write_instance_toml, persist,
}

-- The file was changed since the supervisor last read it, and holds a configuration of this
-- instance.
pub record Edited (toml : Toml) (s : Supervisor) (w : World) (edit : InstanceConfig) : Type 0 where
  pub file : TomlFile
  pub text : Text
  pub there : w.file ≡ some file
  pub changed : is_unchanged s.config_mtime file.mtime ≡ false
  pub readable : file.content ≡ some text
  pub parses : parse_instance_config_toml toml text ≡ ok edit
  pub same_id : edit.id ≡ s.id

-- The file holds this text after a successful write at the world's time.
abbrev pub Holds : World → World → Text → Type 0
Holds before after text =
    after.file ≡ some (record { content = some text; mtime = some before.now })

pub rebase_ladder-config : (s : Supervisor) → (rebase_ladder s).config ≡ s.config
unfolding rebase_ladder
rebase_ladder-config s = ground arith

accept_file_idle :
    (s : Supervisor) (mtime : Option ℕ) (edit : InstanceConfig)
    → edit.id ≡ s.id
    → is_disk_idle s.state ≡ true
    → (accept_file s mtime (ok edit)).config ≡ edit
unfolding accept_file
accept_file_idle s mtime edit same idle =
    let seen = record s {
      config = edit;
      file_config = some edit;
      config_mtime = mtime;
      file_error = none;
    } in
    ground (arith, text_eq_iff edit.id s.id, rebase_ladder-config seen)

accept_file_busy :
    (s : Supervisor) (mtime : Option ℕ) (r : Result InstanceConfig InvalidToml)
    → is_disk_idle s.state ≡ false
    → (accept_file s mtime r).config ≡ s.config
unfolding accept_file
accept_file_busy s mtime (err e) busy = refl
accept_file_busy s mtime (ok edit) busy = ground arith

reload_from_changed :
    (toml : Toml) (s : Supervisor) (file : TomlFile) (text : Text) (edit : InstanceConfig)
    → is_unchanged s.config_mtime file.mtime ≡ false
    → file.content ≡ some text
    → parse_instance_config_toml toml text ≡ ok edit
    → reload_from toml s (some file) ≡ accept_file s file.mtime (ok edit)
unfolding reload_from read_file
reload_from_changed toml s file text edit changed readable parses = rw (changed, readable, parses)

-- An idle instance takes the edit over.
pub reload_idle :
    (toml : Toml) (s : Supervisor) (w : World) (edit : InstanceConfig)
    → Edited toml s w edit
    → is_disk_idle s.state ≡ true
    → (reload_if_changed toml s w).config ≡ edit
unfolding reload_if_changed
reload_idle toml s w edit e idle = rw (e.there) (
    rw (reload_from_changed toml s e.file e.text edit e.changed e.readable e.parses)
      (accept_file_idle s e.file.mtime edit e.same_id idle))

read_file_busy :
    (toml : Toml) (s : Supervisor) (mtime : Option ℕ) (content : Option Text)
    → is_disk_idle s.state ≡ false
    → (read_file toml s mtime content).config ≡ s.config
unfolding read_file
read_file_busy toml s mtime none busy = refl
read_file_busy toml s mtime (some text) busy =
    accept_file_busy s mtime (parse_instance_config_toml toml text) busy

reload_from_busy :
    (toml : Toml) (s : Supervisor) (file : Option TomlFile)
    → is_disk_idle s.state ≡ false
    → (reload_from toml s file).config ≡ s.config
unfolding reload_from
reload_from_busy toml s none busy = refl
reload_from_busy toml s (some file) busy =
    if_both (λ (t : Supervisor). t.config ≡ s.config) (is_unchanged s.config_mtime file.mtime) refl
      (read_file_busy toml s file.mtime file.content busy)

-- On any other the configuration in memory stays, whatever the file holds.
pub reload_busy :
    (toml : Toml) (s : Supervisor) (w : World)
    → is_disk_idle s.state ≡ false
    → (reload_if_changed toml s w).config ≡ s.config
unfolding reload_if_changed
reload_busy toml s w busy = reload_from_busy toml s w.file busy

pub save_config-file :
    (toml : Toml) (s : Supervisor) (w : World) (text : Text)
    → toml.encode s.config ≡ some text
    → w.writable ≡ true
    → (save_config toml s w).1.file ≡ some (record { content = some text; mtime = some w.now })
unfolding save_config write_instance_toml
save_config-file toml s w text encoded writable = rw (encoded, writable)

pub save_config-config :
    (toml : Toml) (s : Supervisor) (w : World) → (save_config toml s w).0.config ≡ s.config
unfolding save_config
save_config-config toml s w = ground arith

pub persist-busy_config :
    (toml : Toml) (s : Supervisor) (w : World)
    → is_disk_idle s.state ≡ false
    → (persist toml s w).0.config ≡ s.config
unfolding persist
persist-busy_config toml s w busy =
    save_config-config toml (reload_if_changed toml s w) w ∙ reload_busy toml s w busy

pub persist-busy :
    (toml : Toml) (s : Supervisor) (w : World) (text : Text)
    → is_disk_idle s.state ≡ false
    → toml.encode s.config ≡ some text
    → w.writable ≡ true
    → ((persist toml s w).0.config ≡ s.config) × Holds w (persist toml s w).1 text
unfolding persist
persist-busy toml s w text busy encoded writable =
    let same = reload_busy toml s w busy in
    let s' = reload_if_changed toml s w in
    (
      persist-busy_config toml s w busy,
      save_config-file toml s' w text (ap toml.encode same ∙ encoded) writable,
    )

pub persist-idle :
    (toml : Toml) (s : Supervisor) (w : World) (edit : InstanceConfig)
    → is_disk_idle s.state ≡ true
    → Edited toml s w edit
    → (persist toml s w).0.config ≡ edit
unfolding persist
persist-idle toml s w edit idle e =
    save_config-config toml (reload_if_changed toml s w) w ∙ reload_idle toml s w edit e idle

pub Edited-move :
    (toml : Toml) (s t : Supervisor) (w : World) (edit : InstanceConfig)
    → t.id ≡ s.id
    → t.config_mtime ≡ s.config_mtime
    → Edited toml s w edit
    → Edited toml t w edit
Edited-move toml s t w edit id_is mtime_is e = record {
  file = e.file;
  text = e.text;
  there = e.there;
  changed = ap (λ m. is_unchanged m e.file.mtime) mtime_is ∙ e.changed;
  readable = e.readable;
  parses = e.parses;
  same_id = e.same_id ∙ sym id_is;
}
