-- ===== src/Examples/Data.antt =====
-- An instance, an edit of its file, and operations on it.
use andler.Base.{ℕ, true, false, none, some, List, [], ◌∷◌, Text, codes, ok}
use andler.Config.{
  InstanceConfig, InstanceId, disk_default, cpu_default, memory_default, display_default,
  gpu_default, network_default, firmware_default, audio_default, input_default, linux_vm, CdromBus,
  qemu, current_schema_version,
}
use andler.Fsm.{InstanceState}
use andler.Supervisor.{OperationKind, Operation, Toml, Supervisor, World, spawn_supervisor, queued}

abbrev pub id_bytes : ℕ → List ℕ
id_bytes ℕ.zero = []
id_bytes (ℕ.suc n) = 171 ∷ id_bytes n

abbrev pub vm_id : InstanceId
vm_id = id_bytes 32

abbrev pub vm : InstanceConfig
vm = record {
  id = vm_id;
  name = codes "a";
  kind = linux_vm (codes "/iso/linux.iso") CdromBus.ide;
  backend = qemu;
  schema_version = current_schema_version;
  cpu = cpu_default;
  memory = memory_default;
  disk = disk_default (codes "/vm/a/disk.qcow2");
  display = display_default;
  gpu = gpu_default;
  network = network_default;
  extra_disks = [];
  extra_networks = [];
  firmware = firmware_default (codes "/vm/a/vars.fd");
  audio = audio_default;
  input = input_default;
  autostart = false;
}

-- What a hand edit of the file made of it.
abbrev pub edited : InstanceConfig
edited = record vm { name = codes "b" }

-- A file is the name of its configuration.
abbrev pub names : Toml
names = record { decode = λ text. ok (record vm { name = text }); encode = λ cfg. some cfg.name }

abbrev pub boot_op : Operation
boot_op = record {
  op_id = codes "op-1";
  instance_id = vm_id;
  kind = OperationKind.start;
  current_phase = none;
  state = queued;
  error = none;
}

abbrev pub compact_op : Operation
compact_op = record boot_op { op_id = codes "op-2"; kind = OperationKind.compact }

abbrev pub quiet : World
quiet = record {
  file = none;
  now = 7;
  writable = true;
  bus = [];
  ops = λ seq. boot_op;
  cancels = λ seq. false;
}

-- The file was edited by hand.
abbrev pub with_edit : World
with_edit = record quiet { file = some (record { content = some (codes "b"); mtime = some 5 }) }

abbrev pub supervised : InstanceState → Supervisor
supervised state = spawn_supervisor vm_id vm state none

abbrev pub retry_key : Text
retry_key = codes "k"
