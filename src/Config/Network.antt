-- ===== src/Config/Network.antt =====
-- core/andler-core/src/config/network.rs. The messages of `validate` are values of an error type
-- that names the check that failed, with the numbers that its text shows.
use andler.Base.{ℕ, Option, List, [], ◌∷◌, Text, codes, Result, ok, err, ◌>>=◌, ◌==◌, if◌then◌else◌}

pub data NatBackend : Type 0 where
  slirp passt : NatBackend

pub data NetworkMode : Type 0 where
  nat isolated : NetworkMode
  bridge : Text → NetworkMode

pub data PortForwardProtocol : Type 0 where
  tcp udp : PortForwardProtocol

pub record PortForward : Type 0 where
  pub protocol : PortForwardProtocol
  pub host_port : ℕ
  pub guest_port : ℕ
  pub host_address : Option Text

pub record NetworkConfig : Type 0 where
  pub mode : NetworkMode
  pub device_model : Text
  pub nat_backend : NatBackend
  pub port_forwards : List PortForward

abbrev pub network_default : NetworkConfig
network_default = record {
  mode = NetworkMode.nat;
  device_model = codes "virtio-net-pci";
  nat_backend = NatBackend.slirp;
  port_forwards = [];
}

pub data ConfigError : Type 0 where
  zero_cores zero_memory zero_disk : ConfigError
  hostmem_out_of_range : ℕ → ConfigError
  zero_resolution : ℕ → ℕ → ConfigError
  extra_disk_zero : Text → ConfigError
  zero_host_port : ℕ → ConfigError
  zero_guest_port : ℕ → ConfigError
  forwards_need_nat : ConfigError

-- The `for` loop over the forwards.
unfoldable pub check_forwards : List PortForward → Result (Unit {0}) ConfigError
check_forwards [] = ok tt
check_forwards (fwd ∷ rest) =
    let later = check_forwards rest in
    if fwd.host_port == 0
    then err (zero_host_port fwd.guest_port)
    else if fwd.guest_port == 0
    then err (zero_guest_port fwd.host_port)
    else later

-- The `if !self.port_forwards.is_empty()` block.
unfoldable pub check_mode : List PortForward → NetworkMode → Result (Unit {0}) ConfigError
check_mode [] mode = ok tt
check_mode (fwd ∷ rest) NetworkMode.nat = ok tt
check_mode (fwd ∷ rest) (NetworkMode.bridge interface) = err forwards_need_nat
check_mode (fwd ∷ rest) NetworkMode.isolated = err forwards_need_nat

unfoldable pub validate_network : NetworkConfig → Result (Unit {0}) ConfigError
unfolding check_forwards check_mode
validate_network net = do
  _ ← check_forwards net.port_forwards
  check_mode net.port_forwards net.mode
