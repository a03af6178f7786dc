-- ===== src/Supervisor/Kept.antt =====
-- What reading and writing instance.toml leaves alone, and which agreements it keeps.
use andler.Base.{
  ℕ, ◌≡◌, refl, ◌∙◌, Bool, true, false, Option, none, some, Text, Result, ok, err, arith,
  Option-cases, inl, inr, if◌then◌else◌,
}
use andler.Config.{InstanceId, InstanceConfig}
use andler.Readiness.{ReadinessProfile, profile_of}
use andler.Supervisor.State.{
  Toml, TomlFile, FileError, unreadable, other_instance, invalid, InvalidToml, Supervisor, World,
}
use andler.Supervisor.ConfigFile.{
  profile_eq, rebase_ladder, accept_file, read_file, reload_from, reload_if_changed, save_config,
  persist, parse_instance_config_toml, write_instance_toml,
}

-- The fields that describe the supervisor's operation.
pub record Slots : Type 0 where
  pub active_op : Option ℕ
  pub key : Option Text
  pub new_id : Option InstanceId
  pub cancelled : Bool
  pub seq : Option ℕ
  pub next : ℕ
  pub cancel : Option ℕ

abbrev pub slots : Supervisor → Slots
slots s = record {
  active_op = s.active_op;
  key = s.active_op_key;
  new_id = s.active_op_new_id;
  cancelled = s.active_op_cancelled;
  seq = s.active_op_seq;
  next = s.next_op_seq;
  cancel = s.op_cancel;
}

-- From `s` to `s'` only the configuration, what is known of its file, and the ladder may change.
pub record Kept (s s' : Supervisor) : Type 0 where
  pub slots_kept : slots s' ≡ slots s
  pub id_kept : s'.id ≡ s.id
  pub state_kept : s'.state ≡ s.state
  pub state_tx_kept : s'.state_tx ≡ s.state_tx
  pub handle_kept : s'.handle ≡ s.handle
  pub handle_tx_kept : s'.handle_tx ≡ s.handle_tx
  pub config_agrees : s.config_tx ≡ s.config → s'.config_tx ≡ s'.config
  pub ladder_agrees : s.readiness_tx ≡ s.ladder → s'.readiness_tx ≡ s'.ladder
  pub profile_agrees :
      s.ladder.profile ≡ profile_of s.config.kind → s'.ladder.profile ≡ profile_of s'.config.kind

pub Kept-refl : (s : Supervisor) → Kept s s
Kept-refl s = record {
  slots_kept = refl;
  id_kept = refl;
  state_kept = refl;
  state_tx_kept = refl;
  handle_kept = refl;
  handle_tx_kept = refl;
  config_agrees = λ h. h;
  ladder_agrees = λ h. h;
  profile_agrees = λ h. h;
}

pub Kept-trans : (s t u : Supervisor) → Kept s t → Kept t u → Kept s u
Kept-trans s t u a b = record {
  slots_kept = b.slots_kept ∙ a.slots_kept;
  id_kept = b.id_kept ∙ a.id_kept;
  state_kept = b.state_kept ∙ a.state_kept;
  state_tx_kept = b.state_tx_kept ∙ a.state_tx_kept;
  handle_kept = b.handle_kept ∙ a.handle_kept;
  handle_tx_kept = b.handle_tx_kept ∙ a.handle_tx_kept;
  config_agrees = λ h. b.config_agrees (a.config_agrees h);
  ladder_agrees = λ h. b.ladder_agrees (a.ladder_agrees h);
  profile_agrees = λ h. b.profile_agrees (a.profile_agrees h);
}

profile_eq→eq : (a b : ReadinessProfile) → profile_eq a b ≡ true → a ≡ b
profile_eq→eq a b h = ground arith

-- After a re-derivation the ladder is that of the effective profile, whatever it was.
pub rebase_ladder-profile :
    (s : Supervisor) → (rebase_ladder s).ladder.profile ≡ profile_of (rebase_ladder s).config.kind
unfolding rebase_ladder
rebase_ladder-profile s = ground (arith, profile_eq→eq s.ladder.profile (profile_of s.config.kind))

pub Kept-if : (s t u : Supervisor) (b : Bool) → Kept s t → Kept s u → Kept s (if b then t else u)
Kept-if s t u true a b = a
Kept-if s t u false a b = b

-- A change of what is known of the file alone.
know_file-Kept :
    (s : Supervisor) (mtime : Option ℕ) (cfg : Option InstanceConfig) (e : Option FileError)
    → Kept s (record s { config_mtime = mtime; file_config = cfg; file_error = e })
know_file-Kept s mtime cfg e = record {
  slots_kept = refl;
  id_kept = refl;
  state_kept = refl;
  state_tx_kept = refl;
  handle_kept = refl;
  handle_tx_kept = refl;
  config_agrees = λ h. h;
  ladder_agrees = λ h. h;
  profile_agrees = λ h. h;
}

-- A new configuration, published, with the ladder derived from it.
pub adopt-Kept :
    (s : Supervisor) (cfg : InstanceConfig)
    → Kept s (record (rebase_ladder (record s { config = cfg })) { config_tx = cfg })
unfolding rebase_ladder
adopt-Kept s cfg = record {
  slots_kept = ground arith;
  id_kept = ground arith;
  state_kept = ground arith;
  state_tx_kept = ground arith;
  handle_kept = ground arith;
  handle_tx_kept = ground arith;
  config_agrees = λ h. ground arith;
  ladder_agrees = λ h. ground arith;
  profile_agrees = λ h. rebase_ladder-profile (record s { config = cfg });
}

accept_file-Kept :
    (s : Supervisor) (mtime : Option ℕ) (r : Result InstanceConfig InvalidToml)
    → Kept s (accept_file s mtime r)
unfolding accept_file
accept_file-Kept s mtime (err e) = know_file-Kept s s.config_mtime none (some (invalid e))
accept_file-Kept s mtime (ok cfg) =
    let seen = record s { file_config = some cfg; config_mtime = mtime; file_error = none } in
    let known = know_file-Kept s mtime (some cfg) none in
    Kept-if s _ _ _ (know_file-Kept s s.config_mtime none (some other_instance))
      (Kept-if s _ _ _ (Kept-trans s seen _ known (adopt-Kept seen cfg)) known)

read_file-Kept :
    (toml : Toml) (s : Supervisor) (mtime : Option ℕ) (content : Option Text)
    → Kept s (read_file toml s mtime content)
unfolding read_file
read_file-Kept toml s mtime none = know_file-Kept s s.config_mtime s.file_config (some unreadable)
read_file-Kept toml s mtime (some text) =
    accept_file-Kept s mtime (parse_instance_config_toml toml text)

reload_from-Kept :
    (toml : Toml) (s : Supervisor) (file : Option TomlFile) → Kept s (reload_from toml s file)
unfolding reload_from
reload_from-Kept toml s none = know_file-Kept s none none s.file_error
reload_from-Kept toml s (some file) =
    Kept-if s _ _ _ (Kept-refl s) (read_file-Kept toml s file.mtime file.content)

-- Reading the file changes nothing but the configuration, what is known of the file and the
-- ladder, and keeps their agreements.
pub reload-Kept : (toml : Toml) (s : Supervisor) (w : World) → Kept s (reload_if_changed toml s w)
unfolding reload_if_changed
reload-Kept toml s w = reload_from-Kept toml s w.file

save_config-Kept : (toml : Toml) (s : Supervisor) (w : World) → Kept s (save_config toml s w).0
unfolding save_config
save_config-Kept toml s w = elim (Option-cases (write_instance_toml toml s.config w).file) [
  | inl gone ↦ rw gone (know_file-Kept s s.config_mtime (some s.config) none)
  | inr (file, there) ↦ rw there (know_file-Kept s file.mtime (some s.config) none)
]

-- So does writing it.
pub persist-Kept : (toml : Toml) (s : Supervisor) (w : World) → Kept s (persist toml s w).0
unfolding persist
persist-Kept toml s w =
    Kept-trans s (reload_if_changed toml s w) _ (reload-Kept toml s w)
      (save_config-Kept toml (reload_if_changed toml s w) w)

-- A write never touches the channels of operations.
pub persist-cancels :
    (toml : Toml) (s : Supervisor) (w : World) → (persist toml s w).1.cancels ≡ w.cancels
unfolding persist save_config write_instance_toml
persist-cancels toml s w = ground arith
