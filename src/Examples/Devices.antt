-- ===== src/Examples/Devices.antt =====
-- Command lines.
use andler.Base.{◌-◌, ◌%◌, ◌≤◌, ◌≡◌, ◌≢◌, ◌↔◌, refl, List, Text, codes, length, ok, arith}
use andler.Config.{InstanceConfig, NetworkMode, network_default, cpu_default}
use andler.InstanceId.{fmt}
use andler.Sizes.{parse_size, mib}
use andler.Cmdline.Machine.{qemu_size_suffix}
use andler.Cmdline.Drives.{extra_disk_slot}
use andler.Cmdline.Nics.{
  primary_net_bridge_tap_iface, extra_net_bridge_tap_iface, extra_net_slot, network_args,
  check_isolated, primary_network_args, extra_network_args,
}
use andler.Cmdline.Build.{build_args}
use andler.Cmdline.Bootable.{
  Succeeds, IsBootable, build_args_iff, isolated_args, isolated_has_one_nic,
}
use andler.Cmdline.Taps.{ifname_max, tap_names_fit}
use andler.Cmdline.Ports.{HasPort, devices_have_ports, qemu_size-rounds}
use andler.Examples.Data.{vm, vm_id}

abbrev qmp_path : Text
qmp_path = codes "/run/a/qmp.sock"

abbrev console_path : Text
console_path = codes "/run/a/console.sock"

build_args_iff_example : Succeeds (build_args vm qmp_path console_path) ↔ IsBootable vm
build_args_iff_example = build_args_iff vm qmp_path console_path

abbrev alone : InstanceConfig
alone = record vm { network = record network_default { mode = NetworkMode.isolated } }

abbrev alone_args : List Text
alone_args = isolated_args alone.network.device_model

isolated_has_one_nic_example : alone_args ≡ isolated_args alone.network.device_model
unfolding network_args check_isolated primary_network_args extra_network_args
isolated_has_one_nic_example = isolated_has_one_nic alone alone_args refl refl

tap_names_fit_example :
    (length (primary_net_bridge_tap_iface (fmt vm_id)) ≤ ifname_max)
    × (length (extra_net_bridge_tap_iface (fmt vm_id) 99) ≤ ifname_max)
    × (extra_net_bridge_tap_iface (fmt vm_id) 99 ≢ primary_net_bridge_tap_iface (fmt vm_id))
    × (extra_net_bridge_tap_iface (fmt vm_id) 99 ≢ extra_net_bridge_tap_iface (fmt vm_id) 1)
tap_names_fit_example = tap_names_fit (fmt vm_id) 99 1 (omega arith) (omega arith)

devices_have_ports_example :
    HasPort cpu_default (extra_disk_slot 7)
    × HasPort cpu_default (extra_net_slot 7)
    × (extra_disk_slot 7 ≢ extra_disk_slot 0)
    × (extra_net_slot 7 ≢ extra_net_slot 0)
    × (extra_disk_slot 7 ≢ extra_net_slot 0)
    × (extra_disk_slot 7 ≢ extra_net_slot 7)
devices_have_ports_example =
    devices_have_ports cpu_default 7 0 (omega arith) (omega arith) (omega arith)

qemu_size-rounds_example :
    parse_size (qemu_size_suffix 2000000000) ≡ ok (2000000000 - 2000000000 % mib)
qemu_size-rounds_example = qemu_size-rounds 2000000000 (omega arith)
