-- ===== src/Rpc/Carried.antt =====
-- What a message can carry: a configuration as a client or the daemon gets to see it on the other
-- side, described without the messages.
use andler.Base.{
  ◌%◌, ◌^◌, ◌<◌, ◌≡◌, ◌≢◌, ◌↔◌, refl, sym, ap, Option, none, some, List, [], ◌∷◌, map, All, arith,
}
use andler.Config.{
  CpuConfig, DiskConfig, PortForward, NetworkConfig, InstanceConfig, current_schema_version,
}

module _ {ℓ} {A : Type ℓ} where
  -- An empty text or list stands for an absent one.
  unfoldable pub carried_option : Option (List A) → Option (List A)
  carried_option none = none
  carried_option (some []) = none
  carried_option (some (x ∷ xs)) = some (x ∷ xs)

  pub carried_option_iff : (o : Option (List A)) → (carried_option o ≡ o) ↔ (o ≢ some [])
  unfolding carried_option
  carried_option_iff none = (λ _. λ e. absurd cc, λ _. refl)
  carried_option_iff (some []) = (λ e. absurd cc, λ h. absurd (h refl))
  carried_option_iff (some (x ∷ xs)) = (λ _. λ e. absurd cc, λ _. refl)

abbrev pub carried_cpu : CpuConfig → CpuConfig
carried_cpu c = record c { affinity = carried_option c.affinity }

abbrev pub carried_disk : DiskConfig → DiskConfig
carried_disk d = record d { base_image = carried_option d.base_image }

-- A port has 16 bits.
abbrev pub carried_forward : PortForward → PortForward
carried_forward f = record f {
  host_port = f.host_port % 2 ^ 16;
  guest_port = f.guest_port % 2 ^ 16;
  host_address = carried_option f.host_address;
}

abbrev pub carried_network : NetworkConfig → NetworkConfig
carried_network n = record n { port_forwards = map carried_forward n.port_forwards }

abbrev pub carried : InstanceConfig → InstanceConfig
carried cfg = record cfg {
  schema_version = current_schema_version;
  cpu = carried_cpu cfg.cpu;
  disk = carried_disk cfg.disk;
  network = carried_network cfg.network;
  extra_disks = map carried_disk cfg.extra_disks;
  extra_networks = map carried_network cfg.extra_networks;
}

-- Both ports are `u16`, and a host address is not the empty text.
pub record IsWireForward (f : PortForward) : Type 0 where
  pub host_port : f.host_port < 2 ^ 16
  pub guest_port : f.guest_port < 2 ^ 16
  pub host_address : f.host_address ≢ some []

abbrev pub IsWireNetwork : NetworkConfig → Type 0
IsWireNetwork n = All IsWireForward n.port_forwards

abbrev pub IsWireDisk : DiskConfig → Type 0
IsWireDisk d = d.base_image ≢ some []

-- What a configuration must be like for a message to carry all of it.
pub record IsWire (cfg : InstanceConfig) : Type 0 where
  pub schema_version : cfg.schema_version ≡ current_schema_version
  pub affinity : cfg.cpu.affinity ≢ some []
  pub disk : IsWireDisk cfg.disk
  pub network : IsWireNetwork cfg.network
  pub extra_disks : All IsWireDisk cfg.extra_disks
  pub extra_networks : All IsWireNetwork cfg.extra_networks

module _ {ℓ κ} {A : Type ℓ} {P : A → Type κ} {f : A → A} where
  map-eq-self_iff : ((x : A) → (f x ≡ x) ↔ P x) → (xs : List A) → (map f xs ≡ xs) ↔ All P xs
  map-eq-self_iff h [] = (λ _. tt, λ _. refl)
  map-eq-self_iff h (x ∷ xs) = (
    λ e. ((h x).0 cc, (map-eq-self_iff h xs).0 cc),
    λ all. rw ((h x).1 all.0, (map-eq-self_iff h xs).1 all.1) refl,
  )

carried_forward_iff : (f : PortForward) → (carried_forward f ≡ f) ↔ IsWireForward f
carried_forward_iff f = (
  λ e. record {
    host_port = omega (arith, ap (λ (x : PortForward). x.host_port) e);
    guest_port = omega (arith, ap (λ (x : PortForward). x.guest_port) e);
    host_address =
        (carried_option_iff f.host_address).0 (ap (λ (x : PortForward). x.host_address) e);
  },
  λ h.
      let host : f.host_port % 2 ^ 16 ≡ f.host_port = omega (arith, h.host_port) in
      let guest : f.guest_port % 2 ^ 16 ≡ f.guest_port = omega (arith, h.guest_port) in
      let address : carried_option f.host_address ≡ f.host_address =
        (carried_option_iff f.host_address).1 h.host_address in
      λ i. record f { host_port = host i; guest_port = guest i; host_address = address i },
)

carried_network_iff : (n : NetworkConfig) → (carried_network n ≡ n) ↔ IsWireNetwork n
carried_network_iff n =
    let forwards = map-eq-self_iff carried_forward_iff n.port_forwards in
    (
      λ e. forwards.0 (ap (λ (x : NetworkConfig). x.port_forwards) e),
      λ h. λ i. record n { port_forwards = forwards.1 h i },
    )

carried_disk_iff : (d : DiskConfig) → (carried_disk d ≡ d) ↔ IsWireDisk d
carried_disk_iff d = (
  λ e. (carried_option_iff d.base_image).0 (ap (λ (x : DiskConfig). x.base_image) e),
  λ h. λ i. record d { base_image = (carried_option_iff d.base_image).1 h i },
)

-- A message carries all of a configuration exactly when it has the current schema version, no empty
-- affinity, base image or host address, and ports of 16 bits.
pub carried_iff : (cfg : InstanceConfig) → (carried cfg ≡ cfg) ↔ IsWire cfg
carried_iff cfg =
    let affinity = carried_option_iff cfg.cpu.affinity in
    let disks = map-eq-self_iff carried_disk_iff cfg.extra_disks in
    let networks = map-eq-self_iff carried_network_iff cfg.extra_networks in
    (
      λ e. record {
        schema_version = sym (ap (λ (x : InstanceConfig). x.schema_version) e);
        affinity = affinity.0 (ap (λ (x : InstanceConfig). x.cpu.affinity) e);
        disk = (carried_disk_iff cfg.disk).0 (ap (λ (x : InstanceConfig). x.disk) e);
        network = (carried_network_iff cfg.network).0 (ap (λ (x : InstanceConfig). x.network) e);
        extra_disks = disks.0 (ap (λ (x : InstanceConfig). x.extra_disks) e);
        extra_networks = networks.0 (ap (λ (x : InstanceConfig). x.extra_networks) e);
      },
      λ h. λ i. record cfg {
        schema_version = sym h.schema_version i;
        cpu = record cfg.cpu { affinity = affinity.1 h.affinity i };
        disk = (carried_disk_iff cfg.disk).1 h.disk i;
        network = (carried_network_iff cfg.network).1 h.network i;
        extra_disks = disks.1 h.extra_disks i;
        extra_networks = networks.1 h.extra_networks i;
      },
    )
