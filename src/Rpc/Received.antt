-- ===== src/Rpc/Received.antt =====
-- What the daemon can get from a request, whatever a client puts in it.
use andler.Base.{◌≡◌, ◌≢◌, refl, sym, some, List, [], ◌∷◌, Result, ok, ◌>>=◌, >>=-eq-ok, All, arith}
use andler.Config.{InstanceId, InstanceConfig, CpuConfig}
use andler.Rpc.Messages.{ProtoCpuConfig, ProtoDiskConfig, ProtoPortForward, ProtoNetworkConfig}
use andler.Rpc.Requests.{UpdateInstanceConfigRequest}
use andler.Rpc.Errors.{ok_or, unless_empty, collect}
use andler.Rpc.Enums.{
  cpu_priority_from_proto, disk_format_from_proto, protocol_from_proto, backend_from_proto,
}
use andler.Rpc.Devices.{
  cpu_from_proto, disk_from_proto, display_from_proto, gpu_from_proto, audio_from_proto,
}
use andler.Rpc.Inputs.{port_forward_from_proto, network_mode_from_proto, network_from_proto}
use andler.Rpc.Instances.{kind_from_proto, update_request_to_instance_config}
use andler.Rpc.Carried.{IsWireForward, IsWireNetwork, IsWireDisk, IsWire}

-- What holds of the value, if there is one.
record Yields {ℓ κ} {A : Type ℓ} {E : Type κ} (P : A → Type 0) (r : Result A E) : Type (ℓ ⊔ κ) where
  holds : (x : A) → r ≡ ok x → P x

module _ {ℓ κ μ} {A : Type ℓ} {B : Type κ} {E : Type μ} {Q : B → Type 0} where
  >>=-Yields :
      {P : A → Type 0} (r : Result A E) (next : A → Result B E)
      → Yields P r
      → ((x : A) → P x → Yields Q (next x))
      → Yields Q (r >>= next)
  >>=-Yields r next h k = record {
    holds =
        λ y e. let (x, found, rest) = >>=-eq-ok r next e in (k x (h.holds x found)).holds y rest;
  }

  -- A step of which nothing needs to be known.
  >>=-Yields_any :
      (r : Result A E) (next : A → Result B E)
      → ((x : A) → Yields Q (next x))
      → Yields Q (r >>= next)
  >>=-Yields_any r next k = record {
    holds = λ y e. let (x, found, rest) = >>=-eq-ok r next e in (k x).holds y rest;
  }

module _ {ℓ κ} {A : Type ℓ} {E : Type κ} {P : A → Type 0} where
  ok-Yields : (x : A) → P x → Yields {E = E} P (ok x)
  ok-Yields x h = record { holds = λ y e. let same : x ≡ y = cc in rw (sym same) h }

module _ {ℓ κ μ} {A : Type ℓ} {B : Type κ} {E : Type μ} {Q : B → Type 0} where
  collect-Yields :
      (f : A → Result B E)
      → ((x : A) → Yields Q (f x))
      → (xs : List A) → Yields (All Q) (collect f xs)
  unfolding collect
  collect-Yields f h [] = ok-Yields [] tt
  collect-Yields f h (x ∷ xs) = >>=-Yields (f x) _ (h x) (λ y py.
      >>=-Yields (collect f xs) _ (collect-Yields f h xs) (λ ys pys. ok-Yields _ (py, pys)))

unless_empty_lem {ℓ} : {A : Type ℓ} (xs : List A) → unless_empty xs ≢ some []
unfolding unless_empty
unless_empty_lem [] e = absurd cc
unless_empty_lem (x ∷ xs) e = absurd cc

cpu-Yields :
    (m : ProtoCpuConfig) → Yields (λ (c : CpuConfig). c.affinity ≢ some []) (cpu_from_proto m)
unfolding cpu_from_proto
cpu-Yields m =
    >>=-Yields_any (cpu_priority_from_proto m.priority) _
      (λ priority. ok-Yields _ (unless_empty_lem m.affinity))

disk-Yields : (m : ProtoDiskConfig) → Yields IsWireDisk (disk_from_proto m)
unfolding disk_from_proto
disk-Yields m =
    >>=-Yields_any (disk_format_from_proto m.format) _
      (λ format. ok-Yields _ (unless_empty_lem m.base_image))

port_forward-Yields : (m : ProtoPortForward) → Yields IsWireForward (port_forward_from_proto m)
unfolding port_forward_from_proto
port_forward-Yields m = >>=-Yields_any (protocol_from_proto m.protocol) _ (λ protocol.
    ok-Yields _ (record {
      host_port = omega arith;
      guest_port = omega arith;
      host_address = unless_empty_lem m.host_address;
    }))

network-Yields : (m : ProtoNetworkConfig) → Yields IsWireNetwork (network_from_proto m)
unfolding network_from_proto
network-Yields m = >>=-Yields_any (ok_or _ m.mode) _ λ message.
    >>=-Yields_any (network_mode_from_proto message) _ λ mode.
      >>=-Yields (collect port_forward_from_proto m.port_forwards) _
        (collect-Yields _ port_forward-Yields m.port_forwards) λ forwards h. ok-Yields _ h

update-Yields :
    (id : InstanceId) (req : UpdateInstanceConfigRequest)
    → Yields IsWire (update_request_to_instance_config id req)
unfolding update_request_to_instance_config
update-Yields id req = >>=-Yields_any (backend_from_proto req.backend) _ λ backend.
    >>=-Yields_any (ok_or _ req.kind) _ λ kind_message.
      >>=-Yields_any (kind_from_proto kind_message) _ λ kind.
        >>=-Yields_any (ok_or _ req.cpu) _ λ cpu_message.
          >>=-Yields (cpu_from_proto cpu_message) _ (cpu-Yields cpu_message) λ cpu affinity.
            >>=-Yields_any (ok_or _ req.memory) _ λ memory.
              >>=-Yields_any (ok_or _ req.disk) _ λ disk_message.
                >>=-Yields (disk_from_proto disk_message) _ (disk-Yields disk_message)
                  λ disk disk_wire. >>=-Yields_any (ok_or _ req.display) _ λ display_message.
                    >>=-Yields_any (display_from_proto display_message) _ λ display.
                      >>=-Yields_any (ok_or _ req.gpu) _ λ gpu_message.
                        >>=-Yields_any (gpu_from_proto gpu_message) _ λ gpu.
                          >>=-Yields_any (ok_or _ req.network) _ λ network_message.
                            >>=-Yields (network_from_proto network_message) _
                              (network-Yields network_message)
                              λ network network_wire.
                                >>=-Yields (collect disk_from_proto req.extra_disks) _
                                  (collect-Yields _ disk-Yields req.extra_disks)
                                  λ disks disks_wire.
                                    >>=-Yields (collect network_from_proto req.extra_networks) _
                                      (collect-Yields _ network-Yields req.extra_networks)
                                      λ networks networks_wire.
                                        >>=-Yields_any (ok_or _ req.firmware) _ λ firmware.
                                          >>=-Yields_any (ok_or _ req.audio) _ λ audio_message.
                                            >>=-Yields_any (audio_from_proto audio_message) _
                                              λ audio. >>=-Yields_any (ok_or _ req.input) _ λ input.
                                                ok-Yields _ (record {
                                                  schema_version = refl;
                                                  affinity = affinity;
                                                  disk = disk_wire;
                                                  network = network_wire;
                                                  extra_disks = disks_wire;
                                                  extra_networks = networks_wire;
                                                })

-- Whatever a client sends, a configuration that the daemon gets from it has ports of 16 bits, no
-- empty affinity, base image or host address and the current schema version, so that it can be sent
-- again without a loss.
pub update_accepted-IsWire :
    (id : InstanceId) (req : UpdateInstanceConfigRequest) {cfg : InstanceConfig}
    → update_request_to_instance_config id req ≡ ok cfg
    → IsWire cfg
update_accepted-IsWire id req e = (update-Yields id req).holds _ e
