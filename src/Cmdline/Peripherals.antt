-- ===== src/Cmdline/Peripherals.antt =====
-- backends/andler-qemu/src/cmdline.rs: the display, its resolution, input and sound.
use andler.Base.{
  not, ◌&&◌, Option, none, some, List, [], ◌∷◌, ◌++◌, Text, codes, Result, ok, ◌>>=◌, ltb,
  if◌then◌else◌,
}
use andler.Decimal.{to_text}
use andler.Config.{AudioBackend, AudioDevice, PointerMode, Resolution, InstanceConfig, InputConfig}
use andler.Cmdline.Machine.{BackendError, concat, render_args, display_str, serial_bus}

unfoldable pub gpu_display_args : InstanceConfig → Result (List Text) BackendError
gpu_display_args cfg = do
  args ← render_args cfg.gpu cfg.gpu.render_backend
  ok (
      args
      ++ codes "-display"
        ∷ display_str cfg.display.display_engine cfg.gpu.gl (not cfg.input.hide_host_cursor)
        ∷ [])

unfoldable pub display_resolution_fwcfg_args : Resolution → Option (List Text)
display_resolution_fwcfg_args res =
    if ltb 0 res.width && ltb 0 res.height
    then some (
        codes "-fw_cfg"
        ∷ concat (
            codes "name=opt/andler/display-resolution,string="
            ∷ to_text res.width
            ∷ codes "x"
            ∷ to_text res.height
            ∷ [])
        ∷ [])
    else none

abbrev pointer_args : PointerMode → List Text
pointer_args PointerMode.tablet = codes "-device" ∷ codes "virtio-tablet-pci,id=tablet0" ∷ []
pointer_args PointerMode.mouse = codes "-device" ∷ codes "virtio-mouse-pci,id=mouse0" ∷ []

unfoldable pub input_args : InputConfig → List Text
input_args input =
    pointer_args input.pointer_mode
    ++ (if input.clipboard_enabled
        then codes "-device"
          ∷ serial_bus
          ∷ codes "-device"
          ∷ codes "virtserialport,chardev=ch1,id=ch1,name=com.redhat.spice.0"
          ∷ codes "-chardev"
          ∷ codes "qemu-vdagent,id=ch1,name=vdagent,clipboard=on,mouse=on"
          ∷ []
        else [])

abbrev sound_device_args : AudioDevice → List Text
sound_device_args AudioDevice.virtio_sound =
    codes "-device" ∷ codes "virtio-sound-pci,audiodev=snd0" ∷ []
sound_device_args AudioDevice.ich9_hda =
    codes "-device"
    ∷ codes "ich9-intel-hda"
    ∷ codes "-device"
    ∷ codes "hda-output,audiodev=snd0"
    ∷ []

unfoldable pub audio_args : AudioBackend → AudioDevice → List Text
audio_args AudioBackend.no_audio device = []
audio_args AudioBackend.pipewire device =
    codes "-audiodev" ∷ codes "pipewire,id=snd0" ∷ sound_device_args device
audio_args AudioBackend.pulseaudio device =
    codes "-audiodev" ∷ codes "pulseaudio,id=snd0" ∷ sound_device_args device
