-- ===== src/Cmdline/Machine.antt =====
-- backends/andler-qemu/src/cmdline.rs: the machine, its memory, firmware, display, sound, input and
-- sockets. A path is shown as its text.
use andler.Base.{
  ℕ, zero, suc, ◌+◌, ◌/◌, ◌%◌, ◌^◌, Bool, true, false, not, none, some, List, [], ◌∷◌, ◌++◌, Text,
  codes, Result, ok, err, ◌==◌, if◌then◌else◌,
}
use andler.Decimal.{to_text}
use andler.Config.{
  DisplayEngine, RenderBackend, GpuConfig, InputConfig, MemoryConfig, FirmwareConfig, CpuConfig,
}
use andler.Paths.{file_name, with_file_name, with_extension, parent, join}

-- `BackendError::NotImplemented` and `InvalidConfig`; a reason is kept as what it names.
pub data BackendError : Type 0 where
  not_implemented : Text → BackendError
  isolated_takes_no_nics : ℕ → BackendError
  isolated_extra_nic : ℕ → BackendError

-- `format!` of several parts.
unfoldable pub concat : List Text → Text
concat [] = []
concat (t ∷ ts) = t ++ concat ts

unfoldable pub name_args : Text → List Text
name_args name = codes "-name" ∷ concat (name ∷ codes ",process=" ∷ name ∷ []) ∷ []

unfoldable pub events_socket_path_for : Text → Text
events_socket_path_for path = elim (file_name path) [
  | some name ↦ with_file_name path (name ++ codes ".events.sock")
  | none ↦ with_file_name path (codes "qmp.sock.events.sock")
]

unfoldable pub qmp_args : Text → List Text
qmp_args path =
    codes "-qmp"
    ∷ concat (codes "unix:" ∷ path ∷ codes ",server,nowait" ∷ [])
    ∷ codes "-qmp"
    ∷ concat (codes "unix:" ∷ events_socket_path_for path ∷ codes ",server,nowait" ∷ [])
    ∷ []

abbrev pub serial_bus : Text
serial_bus = codes "virtio-serial-pci"

unfoldable pub guest_agent_args : InputConfig → Text → List Text
guest_agent_args input path =
    codes "-chardev"
      ∷ concat (
          codes "socket,id=qga,path="
          ∷ with_extension path (codes "qga.sock")
          ∷ codes ",server=on,wait=off"
          ∷ [])
      ∷ (if not input.clipboard_enabled then codes "-device" ∷ serial_bus ∷ [] else [])
    ++ codes "-device" ∷ codes "virtserialport,chardev=qga,id=qga,name=org.qemu.guest_agent.0" ∷ []

-- `console_socket_path` is of the paths module, which reads the environment: its value is given.
unfoldable pub serial_args : Text → Text → List Text
serial_args disk_path console_socket_path = elim (parent disk_path) [
  | none ↦ []
  | some instance_dir ↦
      codes "-chardev"
      ∷ concat (
          codes "socket,id=console0,path="
          ∷ console_socket_path
          ∷ codes ",server=on,wait=off,logfile="
          ∷ join instance_dir (codes "console.log")
          ∷ codes ",logappend=on"
          ∷ [])
      ∷ codes "-serial"
      ∷ codes "chardev:console0"
      ∷ []
]

-- The loop `for slot in 0..16`, counted down in `left`.
unfoldable pub root_ports : ℕ → ℕ → List Text
root_ports zero slot = []
root_ports (suc left) slot =
    codes "-device"
    ∷ concat (
        codes "pcie-root-port,id=root-port-"
        ∷ to_text slot
        ∷ codes ",chassis="
        ∷ to_text (slot + 1)
        ∷ codes ",slot="
        ∷ to_text slot
        ∷ [])
    ∷ root_ports left (slot + 1)

unfoldable pub machine_and_cpu_args : CpuConfig → List Text
machine_and_cpu_args cpu =
    codes "-machine" ∷ codes "q35,accel=kvm,usb=on" ∷ root_ports 16 0
    ++ codes "-cpu"
      ∷ codes "host,kvm=on,+topoext,migratable=no"
      ∷ codes "-smp"
      ∷ concat (
          codes "cpus="
          ∷ to_text cpu.cores
          ∷ codes ",sockets="
          ∷ to_text cpu.sockets
          ∷ codes ",dies=1,cores="
          ∷ to_text cpu.cores
          ∷ codes ",threads="
          ∷ to_text cpu.threads
          ∷ [])
      ∷ []

unfoldable pub qemu_size_suffix : ℕ → Text
qemu_size_suffix bytes =
    if bytes % 2 ^ 30 == 0
    then to_text (bytes / 2 ^ 30) ++ codes "G"
    else to_text (bytes / 2 ^ 20) ++ codes "M"

abbrev on_off : Bool → Text
on_off true = codes "on"
on_off false = codes "off"

unfoldable pub memory_args : MemoryConfig → List Text
unfolding qemu_size_suffix
memory_args memory =
    let size = qemu_size_suffix memory.size_bytes in
    let share = on_off memory.ksm in
    codes "-m"
    ∷ size
    ∷ codes "-object"
    ∷ (if memory.hugepages
        then concat (
            codes "memory-backend-file,id=mem1,size="
            ∷ size
            ∷ codes ",share="
            ∷ share
            ∷ codes ",mem-path=/dev/hugepages,preallocate=true"
            ∷ [])
        else concat
            (codes "memory-backend-memfd,id=mem1,size=" ∷ size ∷ codes ",share=" ∷ share ∷ []))
    ∷ codes "-machine"
    ∷ codes "memory-backend=mem1"
    ∷ (if memory.mem_lock
        then codes "-overcommit" ∷ codes "mem-lock=on" ∷ codes "-mem-prealloc" ∷ []
        else [])

unfoldable pub firmware_args : FirmwareConfig → List Text
firmware_args fw =
    if not fw.enable_uefi
    then []
    else codes "-drive"
      ∷ (codes "if=pflash,format=raw,readonly=on,file=" ++ fw.ovmf_code_path)
      ∷ codes "-drive"
      ∷ (codes "if=pflash,format=raw,file=" ++ fw.ovmf_vars_path)
      ∷ []

abbrev show_bool : Bool → Text
show_bool true = codes "true"
show_bool false = codes "false"

abbrev gl_device : GpuConfig → Text → List Text
gl_device gpu suffix =
    codes "-vga"
    ∷ codes "none"
    ∷ codes "-device"
    ∷ concat (
        codes "virtio-gpu-gl,hostmem="
        ∷ qemu_size_suffix gpu.hostmem_bytes
        ∷ codes ",blob="
        ∷ show_bool gpu.blob
        ∷ suffix
        ∷ [])
    ∷ []

-- The `match` on the render backend.
unfoldable pub render_args : GpuConfig → RenderBackend → Result (List Text) BackendError
unfolding qemu_size_suffix
render_args gpu RenderBackend.cpu = ok (codes "-vga" ∷ codes "std" ∷ [])
render_args gpu RenderBackend.virtio_gpu =
    ok (codes "-vga" ∷ codes "none" ∷ codes "-device" ∷ codes "virtio-gpu-pci" ∷ [])
render_args gpu RenderBackend.virgl = ok (gl_device gpu [])
render_args gpu RenderBackend.venus = ok (gl_device gpu (codes ",venus=true"))
render_args gpu (RenderBackend.passthrough device) =
    err (not_implemented (codes "RenderBackend::Passthrough"))

unfoldable pub display_str : DisplayEngine → Bool → Bool → Text
display_str DisplayEngine.sdl gl show_cursor = concat (
    codes "sdl,gl="
    ∷ on_off gl
    ∷ codes ",show-cursor="
    ∷ on_off show_cursor
    ∷ codes ",window-close=off"
    ∷ [])
display_str DisplayEngine.gtk gl show_cursor = concat (
    codes "gtk,gl="
    ∷ on_off gl
    ∷ codes ",show-cursor="
    ∷ on_off show_cursor
    ∷ codes ",clipboard=on,window-close=off"
    ∷ [])
display_str DisplayEngine.spice gl show_cursor = codes "spice-app"
display_str DisplayEngine.dbus gl show_cursor = codes "dbus"
display_str DisplayEngine.no_display gl show_cursor = codes "none"
