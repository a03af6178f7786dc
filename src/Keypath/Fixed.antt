-- ===== src/Keypath/Fixed.antt =====
-- What no key can set.
use andler.Base.{
  ℕ, ◌≡◌, refl, Option, none, some, List, ◌++◌, Text, Result, ok, >>=-eq-ok, All, All-append, arith,
}
use mathlib.Core.Path.{subst}
use andler.Config.{
  InstanceConfig, InstanceId, InstanceKind, BackendKind, DiskFormat, PortForward, DiskConfig,
  NetworkConfig,
}
use andler.Keypath.Values.{KeyFault}
use andler.Keypath.Table.{
  ConfigKey, Setter, setter, instance_keys, machine_keys, disk_keys, display_keys, device_keys,
  fixed_keys, config_keys,
}

-- The parts of a configuration that its keys call immutable.
pub record Fixed : Type 0 where
  pub id : InstanceId
  pub kind : InstanceKind
  pub backend : BackendKind
  pub schema_version : ℕ
  pub affinity : Option (List ℕ)
  pub disk_path : Text
  pub disk_size : ℕ
  pub disk_format : DiskFormat
  pub base_image : Option Text
  pub port_forwards : List PortForward
  pub ovmf_code_path : Text
  pub ovmf_vars_path : Text
  pub extra_disks : List DiskConfig
  pub extra_networks : List NetworkConfig

abbrev pub fixed : InstanceConfig → Fixed
fixed cfg = record {
  id = cfg.id;
  kind = cfg.kind;
  backend = cfg.backend;
  schema_version = cfg.schema_version;
  affinity = cfg.cpu.affinity;
  disk_path = cfg.disk.path;
  disk_size = cfg.disk.size_bytes;
  disk_format = cfg.disk.format;
  base_image = cfg.disk.base_image;
  port_forwards = cfg.network.port_forwards;
  ovmf_code_path = cfg.firmware.ovmf_code_path;
  ovmf_vars_path = cfg.firmware.ovmf_vars_path;
  extra_disks = cfg.extra_disks;
  extra_networks = cfg.extra_networks;
}

-- A row whose setter leaves those parts alone.
abbrev pub Keeps : Option Setter → Type 0
Keeps none = Unit
Keeps (some set) =
    (cfg : InstanceConfig) (value : Text) (after : InstanceConfig)
    → set cfg value ≡ ok after
    → fixed after ≡ fixed cfg

abbrev pub RowKeeps : ConfigKey → Type 0
RowKeeps row = Keeps row.set

put-Keeps :
    {A : Type 0} (read : Text → Result A KeyFault) (put : InstanceConfig → A → InstanceConfig)
    → ((cfg : InstanceConfig) (x : A) → fixed (put cfg x) ≡ fixed cfg)
    → Keeps (some (setter read put))
put-Keeps read put same cfg value after h =
    let (x, is_read, is_put) = >>=-eq-ok (read value) (λ x. ok (put cfg x)) h in
    subst (λ c. fixed c ≡ fixed cfg) (ok_Injective (put cfg x) after is_put) (same cfg x)
  where
    ok_Injective :
        (a b : InstanceConfig) → ◌≡◌ {A = Result InstanceConfig KeyFault} (ok a) (ok b) → a ≡ b
    ok_Injective a b e = ground (arith, e)

module _ (one_decimal : ℕ → ℕ → Text) where
  instance_keys-RowKeeps : All RowKeeps (instance_keys one_decimal)
  unfolding instance_keys
  instance_keys-RowKeeps =
      (tt, (put-Keeps _ _ (λ cfg x. refl), (tt, (tt, (tt, (put-Keeps _ _ (λ cfg x. refl), tt))))))

  machine_keys-RowKeeps : All RowKeeps (machine_keys one_decimal)
  unfolding machine_keys
  machine_keys-RowKeeps = (
    put-Keeps _ _ (λ cfg x. refl),
    (
      put-Keeps _ _ (λ cfg x. refl),
      (
        put-Keeps _ _ (λ cfg x. refl),
        (
          put-Keeps _ _ (λ cfg x. refl),
          (
            tt,
            (
              put-Keeps _ _ (λ cfg x. refl),
              (
                put-Keeps _ _ (λ cfg x. refl),
                (
                  put-Keeps _ _ (λ cfg x. refl),
                  (
                    put-Keeps _ _ (λ cfg x. refl),
                    (put-Keeps _ _ (λ cfg x. refl), (put-Keeps _ _ (λ cfg x. refl), tt)),
                  ),
                ),
              ),
            ),
          ),
        ),
      ),
    ),
  )

  disk_keys-RowKeeps : All RowKeeps (disk_keys one_decimal)
  unfolding disk_keys
  disk_keys-RowKeeps = (
    tt,
    (
      tt,
      (
        tt,
        (
          tt,
          (
            put-Keeps _ _ (λ cfg x. refl),
            (
              put-Keeps _ _ (λ cfg x. refl),
              (put-Keeps _ _ (λ cfg x. refl), (put-Keeps _ _ (λ cfg x. refl), tt)),
            ),
          ),
        ),
      ),
    ),
  )

  display_keys-RowKeeps : All RowKeeps (display_keys one_decimal)
  unfolding display_keys
  display_keys-RowKeeps = (
    put-Keeps _ _ (λ cfg x. refl),
    (
      put-Keeps _ _ (λ cfg x. refl),
      (
        put-Keeps _ _ (λ cfg x. refl),
        (
          put-Keeps _ _ (λ cfg x. refl),
          (
            put-Keeps _ _ (λ cfg x. refl),
            (
              put-Keeps _ _ (λ cfg x. refl),
              (
                put-Keeps _ _ (λ cfg x. refl),
                (put-Keeps _ _ (λ cfg x. refl), (put-Keeps _ _ (λ cfg x. refl), tt)),
              ),
            ),
          ),
        ),
      ),
    ),
  )

  device_keys-RowKeeps : All RowKeeps (device_keys one_decimal)
  unfolding device_keys
  device_keys-RowKeeps = (
    put-Keeps _ _ (λ cfg x. refl),
    (
      put-Keeps _ _ (λ cfg x. refl),
      (
        put-Keeps _ _ (λ cfg x. refl),
        (
          tt,
          (
            put-Keeps _ _ (λ cfg x. refl),
            (
              put-Keeps _ _ (λ cfg x. refl),
              (
                put-Keeps _ _ (λ cfg x. refl),
                (put-Keeps _ _ (λ cfg x. refl), (put-Keeps _ _ (λ cfg x. refl), tt)),
              ),
            ),
          ),
        ),
      ),
    ),
  )

  fixed_keys-RowKeeps : All RowKeeps (fixed_keys one_decimal)
  unfolding fixed_keys
  fixed_keys-RowKeeps =
      (put-Keeps _ _ (λ cfg x. refl), (tt, (tt, (tt, (tt, (tt, (tt, (tt, tt))))))))

  pub config_keys-RowKeeps : All RowKeeps (config_keys one_decimal)
  unfolding config_keys
  config_keys-RowKeeps =
      let o = one_decimal in
      let two = instance_keys o ++ machine_keys o in
      let three = two ++ disk_keys o in
      let four = three ++ display_keys o in
      let five = four ++ device_keys o in
      All-append RowKeeps five (fixed_keys o)
        (All-append RowKeeps four (device_keys o)
          (All-append RowKeeps three (display_keys o)
            (All-append RowKeeps two (disk_keys o)
              (All-append RowKeeps (instance_keys o) (machine_keys o) instance_keys-RowKeeps
                machine_keys-RowKeeps)
              disk_keys-RowKeeps)
            display_keys-RowKeeps)
          device_keys-RowKeeps)
        fixed_keys-RowKeeps
