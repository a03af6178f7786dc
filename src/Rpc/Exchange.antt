-- ===== src/Rpc/Exchange.antt =====
-- Sending a whole configuration and reading it back, in a response and in an update.
use andler.Base.{arith, ◌<◌, length, [], ◌∷◌, ◌≡◌, ◌↔◌, refl, ap, ◌∙◌, some, Text, ok, ◌>>=◌}
use andler.Config.{
  InstanceId, InstanceKind, linux_vm, android_vm, InstanceConfig, BackendKind, CdromBus,
}
use andler.InstanceId.{fmt, from_str}
use andler.InstanceId.RoundTrip.{IsId, from_str-fmt}
use andler.Rpc.Errors.{ok_or}
use andler.Rpc.Enums.{
  cdrom_bus_from_proto, cdrom_bus_to_proto, backend_from_proto, backend_to_proto,
}
use andler.Rpc.Instances.{
  parse_instance_id, required_cdrom_bus, kind_of_message, kind_from_proto, message_of_kind,
  kind_to_proto, config_to_response, config_from_response, instance_config_to_update_request,
  update_request_to_instance_config,
}
use andler.Rpc.Carried.{carried, carried_disk, carried_network, IsWire, carried_iff}
use andler.Rpc.RoundTrip.{
  cpu_round_trip, memory_round_trip, disk_round_trip, display_round_trip, gpu_round_trip,
  network_round_trip, firmware_round_trip, audio_round_trip, input_round_trip, profile_round_trip,
  collect-map,
}

cdrom_bus_round_trip :
    (name : Text) (b : CdromBus)
    → (required_cdrom_bus name (cdrom_bus_to_proto b) >>= λ bus. ok (cdrom_bus_from_proto bus))
      ≡ ok b
unfolding required_cdrom_bus cdrom_bus_to_proto cdrom_bus_from_proto
cdrom_bus_round_trip name CdromBus.virtio_scsi = refl
cdrom_bus_round_trip name CdromBus.ide = refl

kind_round_trip : (k : InstanceKind) → kind_from_proto (kind_to_proto k) ≡ ok k
unfolding kind_from_proto kind_to_proto kind_of_message message_of_kind required_cdrom_bus
    cdrom_bus_to_proto cdrom_bus_from_proto ok_or
kind_round_trip (linux_vm iso_path CdromBus.virtio_scsi) = refl
kind_round_trip (linux_vm iso_path CdromBus.ide) = refl
kind_round_trip (android_vm profile) = rw (profile_round_trip profile) refl

backend_round_trip : (b : BackendKind) → backend_from_proto (backend_to_proto b) ≡ ok b
unfolding backend_from_proto backend_to_proto
backend_round_trip BackendKind.qemu = refl

parse_instance_id-eq-ok :
    (raw : Text) {id : InstanceId}
    → 0 < length raw
    → from_str raw ≡ some id
    → parse_instance_id raw ≡ ok id
unfolding parse_instance_id ok_or
parse_instance_id-eq-ok [] h e = absurd (omega arith)
parse_instance_id-eq-ok (c ∷ rest) h e = rw e refl

parse_instance_id-fmt : (id : InstanceId) → IsId id → parse_instance_id (fmt id) ≡ ok id
parse_instance_id-fmt id h =
    let (parsed, count) = from_str-fmt id h in
    parse_instance_id-eq-ok (fmt id) (omega (arith, count)) parsed

pub update_round_trip :
    (cfg : InstanceConfig) (instance_ref : Text)
    → update_request_to_instance_config cfg.id (instance_config_to_update_request cfg instance_ref)
      ≡ ok (carried cfg)
unfolding update_request_to_instance_config instance_config_to_update_request config_to_response
    ok_or
update_round_trip cfg instance_ref =
    rw
      (
        backend_round_trip cfg.backend,
        kind_round_trip cfg.kind,
        cpu_round_trip cfg.cpu,
        memory_round_trip cfg.memory,
        disk_round_trip cfg.disk,
        display_round_trip cfg.display,
        gpu_round_trip cfg.gpu,
        network_round_trip cfg.network,
        collect-map _ _ carried_disk disk_round_trip cfg.extra_disks,
        collect-map _ _ carried_network network_round_trip cfg.extra_networks,
        firmware_round_trip cfg.firmware,
        audio_round_trip cfg.audio,
        input_round_trip cfg.input,
      )
      refl

-- The daemon rebuilds from an update request what the client sent, without what a message cannot
-- carry: whatever the configuration, it is not refused, and it comes back whole exactly when it is
-- `IsWire`.
pub update_round_trip_iff :
    (cfg : InstanceConfig) (instance_ref : Text)
    → (update_request_to_instance_config cfg.id (instance_config_to_update_request cfg instance_ref)
        ≡ ok cfg)
      ↔ IsWire cfg
update_round_trip_iff cfg instance_ref = (
  λ e. (carried_iff cfg).0 (ground (arith, update_round_trip cfg instance_ref)),
  λ h. update_round_trip cfg instance_ref ∙ ap ok ((carried_iff cfg).1 h),
)

-- A client reads from the response what the daemon put in, without what a message cannot carry.
pub response_round_trip :
    (cfg : InstanceConfig)
    → IsId cfg.id
    → config_from_response (config_to_response cfg) ≡ ok (carried cfg)
unfolding config_from_response config_to_response ok_or
response_round_trip cfg h =
    rw
      (
        backend_round_trip cfg.backend,
        parse_instance_id-fmt cfg.id h,
        kind_round_trip cfg.kind,
        cpu_round_trip cfg.cpu,
        memory_round_trip cfg.memory,
        disk_round_trip cfg.disk,
        display_round_trip cfg.display,
        gpu_round_trip cfg.gpu,
        network_round_trip cfg.network,
        collect-map _ _ carried_disk disk_round_trip cfg.extra_disks,
        collect-map _ _ carried_network network_round_trip cfg.extra_networks,
        firmware_round_trip cfg.firmware,
        audio_round_trip cfg.audio,
        input_round_trip cfg.input,
      )
      refl
