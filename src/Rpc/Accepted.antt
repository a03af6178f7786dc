-- ===== src/Rpc/Accepted.antt =====
-- Which update requests the daemon accepts, and what it gets from one.
use andler.Base.{◌≡◌, ◌≢◌, ◌↔◌, ok, All}
use andler.Config.{InstanceId, InstanceConfig}
use andler.Rpc.Messages.{ProtoInstanceKind, ProtoBackendKind}
use andler.Rpc.Requests.{UpdateInstanceConfigRequest}
use andler.Rpc.Errors.{ok_or, collect}
use andler.Rpc.Enums.{backend_from_proto}
use andler.Rpc.Devices.{disk_from_proto}
use andler.Rpc.Inputs.{network_from_proto}
use andler.Rpc.Instances.{update_request_to_instance_config}
use andler.Rpc.Acceptance.{
  Given, IsGiven, Accepts, Accepts-iff, >>=-Accepts, required-Accepts, ok_or-Accepts, last-Accepts,
  collect-Accepts,
}
use andler.Rpc.Complete.{
  IsCompleteKind, IsCompleteCpu, IsCompleteDisk, IsCompleteDisplay, IsCompleteGpu,
  IsCompleteNetwork, IsCompleteAudio, backend-Accepts, kind-Accepts, cpu-Accepts, disk-Accepts,
  display-Accepts, gpu-Accepts, network-Accepts, audio-Accepts,
}

-- Every message is there, and every enum that has no default is specified, in every message that the
-- request holds.
pub record IsComplete (req : UpdateInstanceConfigRequest) : Type 0 where
  pub backend : req.backend ≢ ProtoBackendKind.unspecified
  pub kind : Given (λ (m : ProtoInstanceKind). Given IsCompleteKind m.kind) req.kind
  pub cpu : Given IsCompleteCpu req.cpu
  pub memory : IsGiven req.memory
  pub disk : Given IsCompleteDisk req.disk
  pub display : Given IsCompleteDisplay req.display
  pub gpu : Given IsCompleteGpu req.gpu
  pub network : Given IsCompleteNetwork req.network
  pub extra_disks : All IsCompleteDisk req.extra_disks
  pub extra_networks : All IsCompleteNetwork req.extra_networks
  pub firmware : IsGiven req.firmware
  pub audio : Given IsCompleteAudio req.audio
  pub input : IsGiven req.input

-- The same, in the order in which the conversion asks.
abbrev Asked : UpdateInstanceConfigRequest → Type 0
Asked req =
    (req.backend ≢ ProtoBackendKind.unspecified)
    × ((Given (λ (m : ProtoInstanceKind). Given IsCompleteKind m.kind) req.kind)
        × ((Given IsCompleteCpu req.cpu)
            × ((IsGiven req.memory)
                × ((Given IsCompleteDisk req.disk)
                    × ((Given IsCompleteDisplay req.display)
                        × ((Given IsCompleteGpu req.gpu)
                            × ((Given IsCompleteNetwork req.network)
                                × ((All IsCompleteDisk req.extra_disks)
                                    × ((All IsCompleteNetwork req.extra_networks)
                                        × ((IsGiven req.firmware)
                                            × ((Given IsCompleteAudio req.audio)
                                                × (IsGiven req.input))))))))))))

update-Accepts :
    (id : InstanceId) (req : UpdateInstanceConfigRequest)
    → Accepts (update_request_to_instance_config id req) ↔ Asked req
unfolding update_request_to_instance_config
update-Accepts id req =
    >>=-Accepts (backend_from_proto req.backend) _ (backend-Accepts req.backend) λ backend.
      required-Accepts _ req.kind _ _ kind-Accepts λ kind.
        required-Accepts _ req.cpu _ _ cpu-Accepts λ cpu.
          >>=-Accepts (ok_or _ req.memory) _ (ok_or-Accepts _ req.memory) λ memory.
            required-Accepts _ req.disk _ _ disk-Accepts λ disk.
              required-Accepts _ req.display _ _ display-Accepts λ display.
                required-Accepts _ req.gpu _ _ gpu-Accepts λ gpu.
                  required-Accepts _ req.network _ _ network-Accepts λ network.
                    >>=-Accepts (collect disk_from_proto req.extra_disks) _
                      (collect-Accepts _ disk-Accepts req.extra_disks)
                      λ disks.
                        >>=-Accepts (collect network_from_proto req.extra_networks) _
                          (collect-Accepts _ network-Accepts req.extra_networks)
                          λ networks.
                            >>=-Accepts (ok_or _ req.firmware) _ (ok_or-Accepts _ req.firmware)
                              λ firmware. required-Accepts _ req.audio _ _ audio-Accepts λ audio.
                                last-Accepts (ok_or _ req.input) _ (ok_or-Accepts _ req.input)

Asked-IsComplete : (req : UpdateInstanceConfigRequest) → Asked req → IsComplete req
Asked-IsComplete req h = record {
  backend = h.0;
  kind = h.1.0;
  cpu = h.1.1.0;
  memory = h.1.1.1.0;
  disk = h.1.1.1.1.0;
  display = h.1.1.1.1.1.0;
  gpu = h.1.1.1.1.1.1.0;
  network = h.1.1.1.1.1.1.1.0;
  extra_disks = h.1.1.1.1.1.1.1.1.0;
  extra_networks = h.1.1.1.1.1.1.1.1.1.0;
  firmware = h.1.1.1.1.1.1.1.1.1.1.0;
  audio = h.1.1.1.1.1.1.1.1.1.1.1.0;
  input = h.1.1.1.1.1.1.1.1.1.1.1.1;
}

IsComplete-Asked : (req : UpdateInstanceConfigRequest) → IsComplete req → Asked req
IsComplete-Asked req h = (
  h.backend,
  (
    h.kind,
    (
      h.cpu,
      (
        h.memory,
        (
          h.disk,
          (
            h.display,
            (
              h.gpu,
              (h.network, (h.extra_disks, (h.extra_networks, (h.firmware, (h.audio, h.input))))),
            ),
          ),
        ),
      ),
    ),
  ),
)

-- An update request becomes a configuration exactly when every message is there and every enum that
-- its conversion gives no default is specified, in the extra disks and interfaces as well. The NAT
-- backend, the audio device, the pointer mode, the ARM translator and the boot mode have a default; the
-- audio backend has none.
pub update_accepted_iff :
    (id : InstanceId) (req : UpdateInstanceConfigRequest)
    → ((cfg : InstanceConfig) × (update_request_to_instance_config id req ≡ ok cfg))
      ↔ IsComplete req
update_accepted_iff id req =
    let accepts = Accepts-iff (update_request_to_instance_config id req) in
    let complete = update-Accepts id req in
    (
      λ h. Asked-IsComplete req (complete.0 (accepts.1 h)),
      λ h. accepts.0 (complete.1 (IsComplete-Asked req h)),
    )
