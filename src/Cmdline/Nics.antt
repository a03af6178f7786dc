-- ===== src/Cmdline/Nics.antt =====
-- backends/andler-qemu/src/cmdline.rs: `network_args` and the names of the host's tap interfaces.
use andler.Base.{
  ℕ, suc, ◌+◌, ◌%◌, Option, none, some, List, [], ◌∷◌, ◌++◌, map, Text, codes, Result, ok, err,
  ◌>>=◌, length, take,
}
use andler.Decimal.{to_text}
use andler.InstanceId.{fmt}
use andler.Config.{
  NatBackend, NetworkMode, PortForwardProtocol, PortForward, NetworkConfig, InstanceConfig,
}
use andler.Cmdline.Machine.{BackendError, isolated_takes_no_nics, isolated_extra_nic, concat}

unfoldable pub extra_net_id : ℕ → Text
extra_net_id index = codes "net-extra" ++ to_text index

unfoldable pub primary_net_bridge_tap_iface : Text → Text
primary_net_bridge_tap_iface instance_id = codes "tap" ++ take 8 instance_id

unfoldable pub extra_net_bridge_tap_iface : Text → ℕ → Text
extra_net_bridge_tap_iface instance_id index =
    codes "tap" ++ take 8 instance_id ++ codes "-e" ++ to_text index

abbrev pub primary_net_isolated_iface : Text
primary_net_isolated_iface = codes "andler0"

abbrev pub protocol_name : PortForwardProtocol → Text
protocol_name PortForwardProtocol.tcp = codes "tcp"
protocol_name PortForwardProtocol.udp = codes "udp"

abbrev hostfwd : PortForward → Option Text → Text
hostfwd fwd (some addr) = concat (
    codes ",hostfwd="
    ∷ protocol_name fwd.protocol
    ∷ codes ":"
    ∷ addr
    ∷ codes ":"
    ∷ to_text fwd.host_port
    ∷ codes "-:"
    ∷ to_text fwd.guest_port
    ∷ [])
hostfwd fwd none = concat (
    codes ",hostfwd="
    ∷ protocol_name fwd.protocol
    ∷ codes "::"
    ∷ to_text fwd.host_port
    ∷ codes "-:"
    ∷ to_text fwd.guest_port
    ∷ [])

unfoldable pub hostfwd_args : List PortForward → Text
hostfwd_args forwards = concat (map (λ fwd. hostfwd fwd fwd.host_address) forwards)

abbrev passt_item : PortForward → Text
passt_item fwd = concat (
    protocol_name fwd.protocol
    ∷ codes ":"
    ∷ to_text fwd.host_port
    ∷ codes ":"
    ∷ to_text fwd.guest_port
    ∷ [])

-- `join(",")` of the items after the first, each behind its comma.
abbrev comma_items : List PortForward → Text
comma_items [] = []
comma_items (fwd ∷ rest) = codes "," ++ passt_item fwd ++ comma_items rest

unfoldable pub passt_port_args : List PortForward → Text
passt_port_args [] = []
passt_port_args (fwd ∷ rest) = codes ",-" ++ passt_item fwd ++ comma_items rest

abbrev device_on_net0 : Text → List Text
device_on_net0 model = codes "-device" ∷ (model ++ codes ",netdev=net0") ∷ []

abbrev nat_args : NatBackend → NetworkConfig → List Text
unfolding hostfwd_args passt_port_args
nat_args NatBackend.slirp net =
    codes "-nic"
    ∷ concat (codes "user,model=" ∷ net.device_model ∷ hostfwd_args net.port_forwards ∷ [])
    ∷ []
nat_args NatBackend.passt net =
    codes "-netdev"
    ∷ (codes "passt,id=net0" ++ passt_port_args net.port_forwards)
    ∷ device_on_net0 net.device_model

unfoldable pub primary_network_args : Text → NetworkConfig → NetworkMode → List Text
unfolding primary_net_bridge_tap_iface nat_args
primary_network_args instance_id net NetworkMode.nat = nat_args net.nat_backend net
primary_network_args instance_id net (NetworkMode.bridge interface) =
    codes "-netdev"
    ∷ concat (
        codes "tap,id=net0,ifname="
        ∷ primary_net_bridge_tap_iface instance_id
        ∷ codes ",bridge="
        ∷ interface
        ∷ codes ",script=no,downscript=no"
        ∷ [])
    ∷ device_on_net0 net.device_model
primary_network_args instance_id net NetworkMode.isolated =
    codes "-netdev"
    ∷ concat (
        codes "tap,id=net0,ifname="
        ∷ primary_net_isolated_iface
        ∷ codes ",script=no,downscript=no"
        ∷ [])
    ∷ device_on_net0 net.device_model

abbrev extra_nat_netdev : NatBackend → Text → Text
extra_nat_netdev NatBackend.slirp netdev_id = codes "user,id=" ++ netdev_id
extra_nat_netdev NatBackend.passt netdev_id = codes "passt,id=" ++ netdev_id

unfoldable pub extra_netdev : Text → ℕ → NetworkConfig → NetworkMode → Result Text BackendError
unfolding extra_net_id extra_net_bridge_tap_iface
extra_netdev instance_id index extra NetworkMode.nat =
    ok (extra_nat_netdev extra.nat_backend (extra_net_id index))
extra_netdev instance_id index extra (NetworkMode.bridge interface) = ok (
    concat (
      codes "tap,id="
      ∷ extra_net_id index
      ∷ codes ",ifname="
      ∷ extra_net_bridge_tap_iface instance_id index
      ∷ codes ",bridge="
      ∷ interface
      ∷ codes ",script=no,downscript=no"
      ∷ []))
extra_netdev instance_id index extra NetworkMode.isolated = err (isolated_extra_nic index)

-- The slots of the extra interfaces.
unfoldable pub extra_net_slot : ℕ → ℕ
extra_net_slot index = 8 + index % 8

-- The loop over `extra_networks.iter().enumerate()`, from `index` on.
unfoldable pub extra_network_args : Text → ℕ → List NetworkConfig → Result (List Text) BackendError
unfolding extra_netdev extra_net_slot
extra_network_args instance_id index [] = ok []
extra_network_args instance_id index (extra ∷ rest) = do
  netdev ← extra_netdev instance_id index extra extra.mode
  args ← extra_network_args instance_id (suc index) rest
  ok (
      codes "-netdev"
      ∷ netdev
      ∷ codes "-device"
      ∷ concat (
          extra.device_model
          ∷ codes ",netdev="
          ∷ extra_net_id index
          ∷ codes ",bus=root-port-"
          ∷ to_text (extra_net_slot index)
          ∷ [])
      ∷ args)

-- The first `if`: an isolated guest takes no other interface.
unfoldable pub check_isolated : NetworkMode → List NetworkConfig → Result (Unit {0}) BackendError
check_isolated NetworkMode.isolated [] = ok tt
check_isolated NetworkMode.isolated (extra ∷ rest) =
    err (isolated_takes_no_nics (length (extra ∷ rest)))
check_isolated NetworkMode.nat extras = ok tt
check_isolated (NetworkMode.bridge interface) extras = ok tt

unfoldable pub network_args : InstanceConfig → Result (List Text) BackendError
unfolding check_isolated primary_network_args extra_network_args
network_args cfg = do
  _ ← check_isolated cfg.network.mode cfg.extra_networks
  extras ← extra_network_args (fmt cfg.id) 0 cfg.extra_networks
  ok (primary_network_args (fmt cfg.id) cfg.network cfg.network.mode ++ extras)
