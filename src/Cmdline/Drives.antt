-- ===== src/Cmdline/Drives.antt =====
-- backends/andler-qemu/src/cmdline.rs: `disk_args`, and the ids of hotplugged disks.
use andler.Base.{ℕ, suc, ◌%◌, List, [], ◌∷◌, ◌++◌, Text, codes}
use andler.Decimal.{to_text}
use andler.Config.{
  DiskFormat, DiskConfig, InstanceKind, linux_vm, android_vm, CdromBus, InstanceConfig,
}
use andler.Cmdline.Machine.{concat}

unfoldable pub extra_disk_drive_id : ℕ → Text
extra_disk_drive_id index = codes "drive-extra" ++ to_text index

unfoldable pub extra_disk_device_id : ℕ → Text
extra_disk_device_id index = codes "extra" ++ to_text index

-- The main disk's two nodes.
unfoldable pub main_disk_args : Text → DiskFormat → List Text
main_disk_args path DiskFormat.qcow2 =
    codes "-blockdev"
    ∷ concat (
        codes "driver=file,node-name=file-disk0,filename="
        ∷ path
        ∷ codes ",aio=threads,discard=unmap"
        ∷ [])
    ∷ codes "-blockdev"
    ∷ codes "driver=qcow2,node-name=drive-disk0,file=file-disk0,detect-zeroes=on"
    ∷ []
main_disk_args path DiskFormat.raw =
    codes "-blockdev"
    ∷ concat (
        codes "driver=file,node-name=file-disk0,filename="
        ∷ path
        ∷ codes ",aio=threads,discard=unmap"
        ∷ [])
    ∷ codes "-blockdev"
    ∷ codes "driver=raw,node-name=drive-disk0,file=file-disk0"
    ∷ []
main_disk_args path DiskFormat.vdi =
    codes "-blockdev"
    ∷ concat (codes "driver=file,node-name=file-disk0,filename=" ∷ path ∷ codes ",aio=threads" ∷ [])
    ∷ codes "-blockdev"
    ∷ codes "driver=vdi,node-name=drive-disk0,file=file-disk0"
    ∷ []

abbrev format_name : DiskFormat → Text
format_name DiskFormat.qcow2 = codes "qcow2"
format_name DiskFormat.raw = codes "raw"
format_name DiskFormat.vdi = codes "vdi"

-- The slots of the extra disks.
unfoldable pub extra_disk_slot : ℕ → ℕ
extra_disk_slot index = index % 8

-- The loop over `extra_disks.iter().enumerate()`, from `index` on.
unfoldable pub extra_disk_args : ℕ → List DiskConfig → List Text
unfolding extra_disk_drive_id extra_disk_device_id extra_disk_slot
extra_disk_args index [] = []
extra_disk_args index (extra ∷ rest) =
    codes "-drive"
    ∷ concat (
        codes "file="
        ∷ extra.path
        ∷ codes ",format="
        ∷ format_name extra.format
        ∷ codes ",if=none,id="
        ∷ extra_disk_drive_id index
        ∷ codes ",discard=on,detect-zeroes=on,aio=threads"
        ∷ [])
    ∷ codes "-device"
    ∷ concat (
        codes "virtio-blk-pci,drive="
        ∷ extra_disk_drive_id index
        ∷ codes ",id="
        ∷ extra_disk_device_id index
        ∷ codes ",bus=root-port-"
        ∷ to_text (extra_disk_slot index)
        ∷ [])
    ∷ extra_disk_args (suc index) rest

abbrev cdrom_device_args : CdromBus → List Text
cdrom_device_args CdromBus.ide =
    codes "-device" ∷ codes "ide-cd,drive=drive-cd0,id=cd0,bootindex=2" ∷ []
cdrom_device_args CdromBus.virtio_scsi =
    codes "-device"
    ∷ codes "virtio-scsi-pci,id=scsi0"
    ∷ codes "-device"
    ∷ codes "scsi-cd,drive=drive-cd0,bus=scsi0.0,id=cd0,bootindex=2"
    ∷ []

unfoldable pub cdrom_args : InstanceKind → List Text
cdrom_args (linux_vm iso_path bus) =
    codes "-drive"
    ∷ concat (codes "file=" ∷ iso_path ∷ codes ",media=cdrom,if=none,id=drive-cd0" ∷ [])
    ∷ cdrom_device_args bus
cdrom_args (android_vm profile) = []

unfoldable pub disk_args : InstanceConfig → List Text
disk_args cfg =
    main_disk_args cfg.disk.path cfg.disk.format
    ++ codes "-device"
      ∷ codes "virtio-blk-pci,drive=drive-disk0,id=disk0,bootindex=1,num-queues=4"
      ∷ extra_disk_args 0 cfg.extra_disks
    ++ cdrom_args cfg.kind
