-- ===== src/Supervisor/Persistence.antt =====
-- What a transition and a `SetConfig` do to instance.toml and to edits of it that are pending.
use andler.Base.{
  ◌≡◌, refl, sym, ap, ◌∙◌, Bool, true, false, Option, none, some, Text, ok, arith, ℕ, ◌==◌,
}
use andler.Config.{InstanceConfig, Resolution}
use andler.Fsm
use andler.Fsm.{InstanceState, InstanceEvent, FsmError, is_disk_idle}
use andler.Supervisor.State.{Toml, Supervisor, World}
use andler.Supervisor.ConfigFile.{
  rebase_ladder, reload_from, reload_if_changed, save_config, write_instance_toml, persist,
}
use andler.Supervisor.Transitions.{
  ends_ladder, reset_if, enter_state, transition_to, apply_transition, set_config, applied_live,
}
use andler.Supervisor.Kept.{persist-Kept}
use andler.Supervisor.FileEdits.{
  Edited, Holds, save_config-config, persist-busy, persist-busy_config, persist-idle, Edited-move,
}

-- What a transition leaves of `s` before it persists.
record Entered (s moved : Supervisor) (state : InstanceState) : Type 0 where
  state_is : moved.state ≡ state
  id_is : moved.id ≡ s.id
  config_is : moved.config ≡ s.config
  mtime_is : moved.config_mtime ≡ s.config_mtime

reset_if-Entered :
    (s : Supervisor) (state : InstanceState) (b : Bool)
    → Entered s (reset_if b (record s { state = state })) state
unfolding reset_if
reset_if-Entered s state true = record {
  state_is = refl;
  id_is = refl;
  config_is = refl;
  mtime_is = refl;
}
reset_if-Entered s state false = record {
  state_is = refl;
  id_is = refl;
  config_is = refl;
  mtime_is = refl;
}

-- A transition into a state that is not idle keeps the configuration in memory and overwrites
-- instance.toml with it, whatever the file held, if the configuration has a text and the file can be
-- written.
pub busy_transition_overwrites :
    (toml : Toml) (s : Supervisor) (w : World) (event : InstanceEvent) (state : InstanceState)
    (text : Text)
    → Fsm.apply s.state event ≡ ok state
    → is_disk_idle state ≡ false
    → toml.encode s.config ≡ some text
    → w.writable ≡ true
    → ((apply_transition toml s w event).0.config ≡ s.config)
      × Holds w (apply_transition toml s w event).1 text
unfolding apply_transition transition_to enter_state
busy_transition_overwrites toml s w event state text accepted busy encoded writable =
    let moved = reset_if (ends_ladder state) (record s { state = state }) in
    let entered = reset_if-Entered s state (ends_ladder state) in
    let (kept, holds) =
      persist-busy toml moved w text (ap is_disk_idle entered.state_is ∙ busy)
        (ap toml.encode entered.config_is ∙ encoded) writable in
    rw accepted (kept ∙ entered.config_is, holds)

-- A transition into an idle state takes an unread edit of the file over.
pub idle_transition_adopts :
    (toml : Toml) (s : Supervisor) (w : World) (event : InstanceEvent) (state : InstanceState)
    (edit : InstanceConfig)
    → Fsm.apply s.state event ≡ ok state
    → is_disk_idle state ≡ true
    → Edited toml s w edit
    → (apply_transition toml s w event).0.config ≡ edit
unfolding apply_transition transition_to enter_state
idle_transition_adopts toml s w event state edit accepted idle e =
    let moved = reset_if (ends_ladder state) (record s { state = state }) in
    let entered = reset_if-Entered s state (ends_ladder state) in
    rw accepted (
      persist-idle toml moved w edit (ap is_disk_idle entered.state_is ∙ idle)
        (Edited-move toml s moved w edit entered.id_is entered.mtime_is e))

eq_self : (n : ℕ) → (n == n) ≡ true
eq_self n = ground arith

-- What `SetConfig` has before it persists.
abbrev given_config : Supervisor → InstanceConfig → Option Resolution → Supervisor
given_config s cfg live = record (rebase_ladder (record (applied_live live s) { config = cfg })) {
  config_tx = cfg;
}

applied_live-fields :
    (s : Supervisor) (live : Option Resolution)
    → ((applied_live live s).state ≡ s.state)
      × ((applied_live live s).config_mtime ≡ s.config_mtime)
      × ((applied_live live s).id ≡ s.id)
applied_live-fields s none = (refl, refl, refl)
applied_live-fields s (some resolution) = (refl, refl, refl)

rebase_ladder-fields :
    (s : Supervisor)
    → ((rebase_ladder s).config ≡ s.config)
      × ((rebase_ladder s).state ≡ s.state)
      × ((rebase_ladder s).config_mtime ≡ s.config_mtime)
      × ((rebase_ladder s).id ≡ s.id)
unfolding rebase_ladder
rebase_ladder-fields s = (ground arith, ground arith, ground arith, ground arith)

given_config-fields :
    (s : Supervisor) (cfg : InstanceConfig) (live : Option Resolution)
    → let given = given_config s cfg live in
      (given.config ≡ cfg)
      × (given.state ≡ s.state)
      × (given.config_mtime ≡ s.config_mtime)
      × (given.id ≡ s.id)
given_config-fields s cfg live =
    let (config_is, state_is, mtime_is, id_is) =
      rebase_ladder-fields (record (applied_live live s) { config = cfg }) in
    let (state_live, mtime_live, id_live) = applied_live-fields s live in
    (config_is, state_is ∙ state_live, mtime_is ∙ mtime_live, id_is ∙ id_live)

given_config-handle :
    (s : Supervisor) (cfg : InstanceConfig) (live : Option Resolution)
    → (given_config s cfg live).handle ≡ s.handle
unfolding rebase_ladder
given_config-handle s cfg none = ground arith
given_config-handle s cfg (some resolution) = ground arith

save_config_settles :
    (toml : Toml) (s : Supervisor) (w : World) (text : Text)
    → toml.encode s.config ≡ some text
    → w.writable ≡ true
    → let (s', w') = save_config toml s w in
      (reload_if_changed toml s' w' ≡ s') × (s'.file_config ≡ some s'.config)
unfolding save_config write_instance_toml reload_if_changed reload_from
save_config_settles toml s w text encoded writable =
    rw (encoded, writable) (rw (eq_self w.now) refl, refl)

-- Right after a successful write the file counts as read: reloading changes nothing, and the
-- cached file configuration is the one in memory.
pub persist_settles :
    (toml : Toml) (s : Supervisor) (w : World) (text : Text)
    → toml.encode (persist toml s w).0.config ≡ some text
    → w.writable ≡ true
    → let (s', w') = persist toml s w in
      (reload_if_changed toml s' w' ≡ s') × (s'.file_config ≡ some s'.config)
unfolding persist
persist_settles toml s w text encoded writable =
    let s' = reload_if_changed toml s w in
    save_config_settles toml s' w text
      (ap toml.encode (sym (save_config-config toml s' w)) ∙ encoded) writable

-- `SetConfig` on an instance that is not idle takes the new configuration over and writes it,
-- whatever the file held, if the configuration has a text and the file can be written.
pub set_config_busy :
    (toml : Toml) (s : Supervisor) (w : World) (cfg : InstanceConfig) (live : Option Resolution)
    (text : Text)
    → is_disk_idle s.state ≡ false
    → toml.encode cfg ≡ some text
    → w.writable ≡ true
    → let (s', w') = set_config toml s w cfg live in (s'.config ≡ cfg) × Holds w w' text
unfolding set_config
set_config_busy toml s w cfg live text busy encoded writable =
    let given = given_config s cfg live in
    let (config_is, state_is, mtime_is, id_is) = given_config-fields s cfg live in
    let (kept, holds) =
      persist-busy toml given w text (ap is_disk_idle state_is ∙ busy)
        (ap toml.encode config_is ∙ encoded) writable in
    (kept ∙ config_is, holds)

-- `SetConfig` on an idle instance whose file has an unread edit is answered as done, and the edit
-- takes the place of the configuration that was given.
pub set_config_yields :
    (toml : Toml) (s : Supervisor) (w : World) (cfg edit : InstanceConfig)
    (live : Option Resolution)
    → is_disk_idle s.state ≡ true
    → Edited toml s w edit
    → (set_config toml s w cfg live).0.config ≡ edit
unfolding set_config
set_config_yields toml s w cfg edit live idle e =
    let given = given_config s cfg live in
    let (config_is, state_is, mtime_is, id_is) = given_config-fields s cfg live in
    persist-idle toml given w edit (ap is_disk_idle state_is ∙ idle)
      (Edited-move toml s given w edit id_is mtime_is e)

-- Whatever becomes of the file, an instance that is not idle takes the configuration over and stays
-- in its state with its handle.
pub set_config-busy :
    (toml : Toml) (s : Supervisor) (w : World) (cfg : InstanceConfig) (live : Option Resolution)
    → is_disk_idle s.state ≡ false
    → let s' = (set_config toml s w cfg live).0 in
      (s'.config ≡ cfg) × (s'.state ≡ s.state) × (s'.handle ≡ s.handle)
unfolding set_config
set_config-busy toml s w cfg live busy =
    let given = given_config s cfg live in
    let (config_is, state_is, mtime_is, id_is) = given_config-fields s cfg live in
    let kept = persist-Kept toml given w in
    (
      persist-busy_config toml given w (ap is_disk_idle state_is ∙ busy) ∙ config_is,
      kept.state_kept ∙ state_is,
      kept.handle_kept ∙ given_config-handle s cfg live,
    )
