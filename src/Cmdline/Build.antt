-- ===== src/Cmdline/Build.antt =====
-- backends/andler-qemu/src/cmdline.rs: `build_args`.
use andler.Base.{Option, none, some, List, [], ◌∷◌, ◌++◌, Text, codes, Result, ok, ◌>>=◌}
use andler.Config.{InstanceConfig}
use andler.Cmdline.Machine.{
  BackendError, name_args, machine_and_cpu_args, memory_args, firmware_args, qmp_args,
  guest_agent_args, serial_args,
}
use andler.Cmdline.Peripherals.{
  gpu_display_args, display_resolution_fwcfg_args, input_args, audio_args,
}
use andler.Cmdline.Drives.{disk_args}
use andler.Cmdline.Nics.{network_args}

abbrev or_none : Option (List Text) → List Text
or_none none = []
or_none (some args) = args

-- `console_socket_path` is the value of the paths module's function for this instance.
unfoldable pub build_args : InstanceConfig → Text → Text → Result (List Text) BackendError
unfolding gpu_display_args network_args
build_args cfg qmp_socket_path console_socket_path = do
  gpu ← gpu_display_args cfg
  net ← network_args cfg
  ok (
      name_args cfg.name
      ++ machine_and_cpu_args cfg.cpu
      ++ memory_args cfg.memory
      ++ firmware_args cfg.firmware
      ++ gpu
      ++ or_none (display_resolution_fwcfg_args cfg.display.resolution)
      ++ disk_args cfg
      ++ input_args cfg.input
      ++ net
      ++ audio_args cfg.audio.backend cfg.audio.device
      ++ qmp_args qmp_socket_path
      ++ guest_agent_args cfg.input qmp_socket_path
      ++ serial_args cfg.disk.path console_socket_path
      ++ codes "-boot" ∷ codes "menu=on" ∷ [])
