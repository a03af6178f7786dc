-- ===== src/Examples/Files.antt =====
-- The supervisor and instance.toml.
use andler.Base.{◌≡◌, refl, none, some, codes}
use andler.Fsm
use andler.Fsm.{created, running, stopping, stopped, stop, start, starting, stop_completed}
use andler.Supervisor.{spawn_supervisor, apply_transition, parse_instance_config_toml, set_config}
use andler.Config.{migrate_schema}
use andler.Supervisor.FileEdits.{Edited, Holds}
use andler.Supervisor.Persistence.{
  busy_transition_overwrites, idle_transition_adopts, set_config_yields,
}
use andler.Examples.Data.{vm, edited, names, with_edit, supervised}

edit_pending : (state : Fsm.InstanceState) → Edited names (supervised state) with_edit edited
unfolding spawn_supervisor parse_instance_config_toml migrate_schema
edit_pending state = record {
  file = record { content = some (codes "b"); mtime = some 5 };
  text = codes "b";
  there = refl;
  changed = refl;
  readable = refl;
  parses = refl;
  same_id = refl;
}

-- The edit was made while the guest ran, and `Stop` writes the old name over it.
busy_transition_overwrites_example :
    ((apply_transition names (supervised running) with_edit stop).0.config ≡ vm)
    × Holds with_edit (apply_transition names (supervised running) with_edit stop).1 (codes "a")
unfolding spawn_supervisor Fsm.apply Fsm.is_disk_idle
busy_transition_overwrites_example =
    busy_transition_overwrites names (supervised running) with_edit stop stopping (codes "a") refl
      refl refl refl

idle_transition_adopts_example :
    (apply_transition names (supervised stopping) with_edit stop_completed).0.config ≡ edited
unfolding spawn_supervisor Fsm.apply Fsm.is_disk_idle
idle_transition_adopts_example =
    idle_transition_adopts names (supervised stopping) with_edit stop_completed stopped edited refl
      refl (edit_pending stopping)

set_config_yields_example :
    (set_config names (supervised created) with_edit vm none).0.config ≡ edited
unfolding spawn_supervisor Fsm.is_disk_idle
set_config_yields_example =
    set_config_yields names (supervised created) with_edit vm edited none refl
      (edit_pending created)
