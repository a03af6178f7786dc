-- ===== src/Examples/Messages.antt =====
-- Update requests.
use andler.Base.{◌≡◌, ◌↔◌, refl, some, [], ◌∷◌, codes, ok, arith}
use andler.Config.{InstanceConfig, PortForward, PortForwardProtocol, disk_overlay, gib}
use andler.Rpc.Requests.{UpdateInstanceConfigRequest}
use andler.Rpc.Instances.{instance_config_to_update_request, update_request_to_instance_config}
use andler.Rpc.Carried.{IsWire}
use andler.Rpc.Exchange.{update_round_trip_iff}
use andler.Rpc.Accepted.{IsComplete, update_accepted_iff}
use andler.Rpc.Received.{update_accepted-IsWire}
use andler.Examples.Data.{vm}

abbrev ssh : PortForward
ssh = record {
  protocol = PortForwardProtocol.tcp;
  host_port = 2222;
  guest_port = 22;
  host_address = some (codes "127.0.0.1");
}

-- With a pinned CPU, an extra overlay and a forwarded port.
abbrev server : InstanceConfig
server = record vm {
  cpu = record vm.cpu { affinity = some (0 ∷ 2 ∷ []) };
  network = record vm.network { port_forwards = ssh ∷ [] };
  extra_disks = disk_overlay (codes "/vm/a/extra.qcow2") (codes "/base.qcow2") gib ∷ [];
}

server-IsWire : IsWire server
server-IsWire = record {
  schema_version = refl;
  affinity = λ e. absurd cc;
  disk = λ e. absurd cc;
  network = (
    record { host_port = omega arith; guest_port = omega arith; host_address = λ e. absurd cc },
    tt,
  );
  extra_disks = (λ e. absurd cc, tt);
  extra_networks = tt;
}

abbrev request : UpdateInstanceConfigRequest
request = instance_config_to_update_request server (codes "a")

update_round_trip_iff_example :
    (update_request_to_instance_config server.id request ≡ ok server) ↔ IsWire server
update_round_trip_iff_example = update_round_trip_iff server (codes "a")

update_accepted_iff_example :
    ((cfg : InstanceConfig) × (update_request_to_instance_config server.id request ≡ ok cfg))
    ↔ IsComplete request
update_accepted_iff_example = update_accepted_iff server.id request

update_accepted-IsWire_example : IsWire server
update_accepted-IsWire_example =
    update_accepted-IsWire server.id request
      ((update_round_trip_iff server (codes "a")).1 server-IsWire)
