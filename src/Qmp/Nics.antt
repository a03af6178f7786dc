-- ===== src/Qmp/Nics.antt =====
-- backends/andler-qemu/src/backend.rs: hotplug of network interfaces. The host side is set up before
-- QEMU is asked, and torn down when QEMU refuses.
use andler.Base.{
  ℕ, Bool, true, false, Option, none, some, List, [], ◌∷◌, ◌++◌, Text, text_eq, Result, ok, err,
  if◌then◌else◌,
}
use andler.Config.{NatBackend, NetworkMode, NetworkConfig}
use andler.Cmdline.Machine.{isolated_extra_nic}
use andler.Cmdline.Nics.{extra_net_id, extra_net_bridge_tap_iface}
use andler.Qmp.Effects.{Io, pure, fail, catch, ◌>>=◌}
use andler.Qmp.Monitor.{
  QmpCommand, QmpError, Monitor, netdev_add_user, netdev_add_passt, netdev_add_tap,
}
use andler.Qmp.Client.{run_command, device_add_net_at, detach_net_device}
use andler.Qmp.Backend.{
  NetworkInfo, bridged, isolated_net, nat_net, RunningInstance, QemuError, network_failed,
  not_configurable, NetworkService, run_qmp_operation, unplug_timeout,
}

abbrev pub is_isolated : NetworkInfo → Bool
is_isolated isolated_net = true
is_isolated other = false

abbrev keep_first :
    Text × NetworkInfo
    → Option (NetworkInfo × List (Text × NetworkInfo))
    → Option (NetworkInfo × List (Text × NetworkInfo))
keep_first entry none = none
keep_first entry (some (found, others)) = some (found, entry ∷ others)

-- `position` and `remove`: the first entry of the id, and the others.
unfoldable pub take_info :
    Text → List (Text × NetworkInfo) → Option (NetworkInfo × List (Text × NetworkInfo))
take_info netdev_id [] = none
take_info netdev_id ((id, info) ∷ rest) =
    let later = keep_first (id, info) (take_info netdev_id rest) in
    if text_eq id netdev_id then some (info, rest) else later

module _ {S : Type 0} where
  abbrev on_network :
      RunningInstance S
      → S × Result (Unit {0}) Text
      → RunningInstance S × Result (Unit {0}) QemuError
  on_network instance (s, ok done) = (record instance { machine = s }, ok tt)
  on_network instance (s, err e) = (record instance { machine = s }, err (network_failed e))

  unfoldable pub setup_extra_network :
      NetworkService S → NetworkMode → ℕ → Text → Io (RunningInstance S) QemuError NetworkInfo
  setup_extra_network nets (NetworkMode.bridge interface) index instance_id =
      let tap_iface = extra_net_bridge_tap_iface instance_id index in
      do
        _ ← λ instance. on_network instance (nets.setup_bridge interface tap_iface instance.machine)
        pure (bridged interface tap_iface)
  setup_extra_network nets NetworkMode.isolated index instance_id =
      fail (not_configurable (isolated_extra_nic index))
  setup_extra_network nets NetworkMode.nat index instance_id = pure nat_net

  -- What comes of the service's calls is not looked at.
  unfoldable pub teardown_network_info : NetworkService S → NetworkInfo → S → S
  teardown_network_info nets (bridged bridge tap_iface) s = nets.teardown_bridge bridge tap_iface s
  teardown_network_info nets isolated_net s = nets.teardown_isolated s
  teardown_network_info nets nat_net s = s

  abbrev pub torn_down : NetworkService S → NetworkInfo → RunningInstance S → RunningInstance S
  torn_down nets info instance = record instance {
    machine = teardown_network_info nets info instance.machine;
  }

  abbrev pub keep_info : Text → NetworkInfo → RunningInstance S → RunningInstance S
  keep_info netdev_id info instance = record instance {
    extra_network_infos = instance.extra_network_infos ++ (netdev_id, info) ∷ [];
  }

  abbrev pub drop_info :
      NetworkService S
      → Option (NetworkInfo × List (Text × NetworkInfo))
      → RunningInstance S
      → RunningInstance S
  drop_info nets none instance = instance
  drop_info nets (some (info, others)) instance =
      torn_down nets info (record instance { extra_network_infos = others })

abbrev pub nat_netdev : NatBackend → Text → QmpCommand
nat_netdev NatBackend.slirp netdev_id = netdev_add_user netdev_id
nat_netdev NatBackend.passt netdev_id = netdev_add_passt netdev_id

-- A tap where there is a bridge behind it, else the NAT backend.
abbrev pub extra_netdev_command : NetworkInfo → NatBackend → Text → QmpCommand
extra_netdev_command (bridged interface tap_iface) nat_backend netdev_id =
    netdev_add_tap netdev_id tap_iface
extra_netdev_command isolated_net nat_backend netdev_id = nat_netdev nat_backend netdev_id
extra_netdev_command nat_net nat_backend netdev_id = nat_netdev nat_backend netdev_id

module _ {V S : Type 0} (qmp : Monitor V S) (nets : NetworkService S) where
  unfoldable pub plug_net : QmpCommand → Text → Text → ℕ → Io S QmpError (Unit {0})
  plug_net netdev netdev_id model index = do
    _ ← run_command qmp netdev
    device_add_net_at qmp netdev_id netdev_id model index

  unfoldable pub attach_network_at :
      Text → NetworkConfig → ℕ → Io (RunningInstance S) QemuError (Unit {0})
  attach_network_at instance_id network index instance =
      if is_isolated instance.network_info
      then (instance, err (not_configurable (isolated_extra_nic index)))
      else plug instance
    where
      netdev_id : Text
      netdev_id = extra_net_id index

      plug : Io (RunningInstance S) QemuError (Unit {0})
      plug = do
        info ← setup_extra_network nets network.mode index instance_id
        _ ←
            catch
              (run_qmp_operation qmp (
                plug_net (extra_netdev_command info network.nat_backend netdev_id) netdev_id
                  network.device_model index))
              (λ e later. (torn_down nets info later, err e))
        λ later. (keep_info netdev_id info later, ok tt)

  unfoldable pub detach_network_at : ℕ → Io (RunningInstance S) QemuError (Unit {0})
  detach_network_at index = do
    _ ←
        run_qmp_operation qmp
          (detach_net_device qmp (extra_net_id index) (extra_net_id index) unplug_timeout)
    λ later.
        (drop_info nets (take_info (extra_net_id index) later.extra_network_infos) later, ok tt)
