-- ===== src/Hotplug/Running.antt =====
-- Steps of hotplug requests on an instance that is up.
use andler.Base.{◌≡◌, refl, ap, ◌∙◌, true, false, Option, none, some, Text, ok, arith}
use andler.Config.{InstanceConfig}
use andler.Fsm.{InstanceState, is_disk_idle}
use andler.Supervisor.{Toml}
use andler.Supervisor.Agreement.{Agrees, set_config-Agrees}
use andler.Supervisor.Persistence.{set_config-busy}
use andler.Qmp.Effects.{Io, followed, ◌>>=◌}
use andler.Qmp.Backend.{RunningInstance, QemuError}
use andler.Hotplug.Host.{answered, Host, takes_hotplug, target_of, hotplug_target}
use andler.Hotplug.Operations.{configured, delivered, by_entry, on_backend, update_config}

-- The instance takes hotplug: its supervisor publishes what it holds, is up and has a handle, whose
-- entry in the backend has an open QMP connection; and the supervisor answers.
pub record IsUp {S D : Type 0} (host : Host S D) : Type 0 where
  pub agrees : Agrees host.sup
  pub up : takes_hotplug host.sup.state ≡ true
  pub handle : Text
  pub has_handle : host.sup.handle ≡ some handle
  pub instance : RunningInstance S
  pub entry : host.running ≡ some instance
  pub connected : instance.qmp_client ≡ true
  pub answers : host.delivery ≡ answered

takes_hotplug-busy :
    (state : InstanceState) → takes_hotplug state ≡ true → is_disk_idle state ≡ false
unfolding is_disk_idle
takes_hotplug-busy state h = ground arith

pub target_of-ok :
    (state : InstanceState) (o : Option Text) {handle : Text}
    → takes_hotplug state ≡ true
    → o ≡ some handle
    → target_of state o ≡ ok tt
target_of-ok state o up e = rw (e, up) refl

module _ {S D : Type 0} where
  pub hotplug_target-ok : (host : Host S D) → IsUp host → hotplug_target host ≡ (host, ok tt)
  unfolding hotplug_target
  hotplug_target-ok host u =
      let found : target_of host.sup.state_tx host.sup.handle_tx ≡ ok tt =
        target_of-ok _ _ (ap takes_hotplug u.agrees.state_agrees ∙ u.up)
          (u.agrees.handle_agrees ∙ u.has_handle) in
      ap (λ r. (host, r)) found

  pub configured-IsUp :
      (toml : Toml) (change : InstanceConfig → InstanceConfig) (host : Host S D) (u : IsUp host)
      → let host' = configured toml change host in
        (up : IsUp host') × (up.instance ≡ u.instance)
        × (host'.sup.config_tx ≡ change host.sup.config_tx)
  configured-IsUp toml change host u =
      let agrees =
        set_config-Agrees toml host.sup host.world (change host.sup.config_tx) none u.agrees in
      let (config_is, state_is, handle_is) =
        set_config-busy toml host.sup host.world (change host.sup.config_tx) none
          (takes_hotplug-busy host.sup.state u.up) in
      (
        record {
          agrees = agrees;
          up = ap takes_hotplug state_is ∙ u.up;
          handle = u.handle;
          has_handle = handle_is ∙ u.has_handle;
          instance = u.instance;
          entry = u.entry;
          connected = u.connected;
          answers = u.answers;
        },
        refl,
        agrees.config_agrees ∙ config_is,
      )

  pub update_config-answered :
      (toml : Toml) (change : InstanceConfig → InstanceConfig) (host : Host S D)
      → host.delivery ≡ answered
      → update_config toml change host ≡ (configured toml change host, ok tt)
  update_config-answered toml change host e = ap (delivered toml change host) e

module _ {S E A B : Type 0} where
  pub >>=-eq :
      (m : Io S E A) (next : A → Io S E B) (s : S) {t : S} {a : A}
      → m s ≡ (t, ok a)
      → (m >>= next) s ≡ next a t
  >>=-eq m next s e = ap (followed next) e

module _ {S D A : Type 0} where
  pub by_entry-ok :
      (op : Io (RunningInstance S) QemuError A) (host : Host S D) (o : Option (RunningInstance S))
      {i i' : RunningInstance S} {a : A}
      → o ≡ some i
      → op i ≡ (i', ok a)
      → by_entry op host o ≡ (record host { running = some i' }, ok a)
  by_entry-ok op host o e runs = rw e (rw runs refl)

  pub on_backend-ok :
      (op : Io (RunningInstance S) QemuError A) (host : Host S D) (u : IsUp host)
      {i' : RunningInstance S} {a : A}
      → op u.instance ≡ (i', ok a)
      → on_backend op host ≡ (record host { running = some i' }, ok a)
  on_backend-ok op host u runs = by_entry-ok op host host.running u.entry runs
