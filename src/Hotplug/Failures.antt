-- ===== src/Hotplug/Failures.antt =====
-- A hotplug request that fails leaves the supervisor alone: its configuration, its file and its state.
use andler.Base.{
  ◌⊎◌, ℕ, ◌≡◌, refl, sym, ap, ◌∙◌, Bool, true, false, Option, none, some, Text, Result, ok, err,
  Result-cases, inl, inr, if◌then◌else◌, length, is_empty, if_both, ◌==◌,
}
use andler.Config.{InstanceConfig, NetworkConfig}
use andler.Supervisor.{Toml}
use andler.Qmp.Effects.{Io, catch, lift, pure, ◌>>=◌}
use andler.Qmp.Monitor.{Monitor}
use andler.Qmp.Backend.{NetworkService, attach_disk_at, detach_disk_at}
use andler.Qmp.Nics.{attach_network_at, detach_network_at}
use andler.Hotplug.Host.{
  Delivery, answered, not_taken, not_answered, supervisor_gone, HotplugError, disk_already_attached,
  empty_device_model, DiskTools, Host, hotplug_target, resolve_extra_disk_path,
}
use andler.Hotplug.Operations.{
  delivered, disk_position, found_disk, on_backend, update_config, created_image, image_size,
  discard_image, is_attached, add_disk, drop_disk, add_network, drop_network, hot_disk, plug_disk,
  attach_disk, detach_disk, attach_network, attached_network, detach_network,
}
use andler.Hotplug.Untouched.{
  IsKept, pure-FailKeeps, owned, Keeps, FailKeeps, lift-Keeps, on_backend-Keeps, catch-Keeps,
  >>=-FailKeeps,
}

module _ {S D : Type 0} where
  hotplug_target-Keeps : Keeps {S = S} {D = D} hotplug_target
  unfolding hotplug_target
  hotplug_target-Keeps = record { keeps = λ host. refl }

  delivered-IsKept :
      (toml : Toml) (change : InstanceConfig → InstanceConfig) (host : Host S D) (d : Delivery)
      (e : HotplugError)
      → (delivered toml change host d).1 ≡ err e
      → (owned (delivered toml change host d).0 ≡ owned host)
        ⊎ ((e ≡ supervisor_gone) × (d ≡ not_answered))
  delivered-IsKept toml change host answered e fails = absurd cc
  delivered-IsKept toml change host not_taken e fails = inl refl
  delivered-IsKept toml change host not_answered e fails = inr (cc, refl)

  -- A change of the configuration is the last step that can do anything.
  update_config-FailKeeps :
      (toml : Toml) (change : InstanceConfig → InstanceConfig)
      → FailKeeps {S = S} {D = D} (update_config toml change)
  update_config-FailKeeps toml change = record {
    keeps = λ host e fails. delivered-IsKept toml change host host.delivery e fails;
  }

  update_then-FailKeeps :
      {A : Type 0} (toml : Toml) (change : InstanceConfig → InstanceConfig) (a : A)
      → FailKeeps {S = S} {D = D} (update_config toml change >>= λ _. pure a)
  update_then-FailKeeps toml change a =
      pure-FailKeeps (update_config toml change) a (update_config-FailKeeps toml change)

  created_image-owned :
      (tools : DiskTools D) (size : ℕ) (host : Host S D) (p : D × Result (Unit {0}) Text)
      → owned (created_image tools size host p).0 ≡ owned host
  created_image-owned tools size host (images, ok done) = refl
  created_image-owned tools size host (images, err e) = refl

  image_size-Keeps :
      (tools : DiskTools D) (path : Text) (size : ℕ)
      → Keeps {S = S} {D = D} (image_size tools path size)
  unfolding image_size
  image_size-Keeps tools path size = record {
    keeps = λ host.
        if_both (λ (p : Host S D × Result (ℕ × Bool) HotplugError). owned p.0 ≡ owned host)
          (tools.exists path host.images) refl
          (if_both (λ (p : Host S D × Result (ℕ × Bool) HotplugError). owned p.0 ≡ owned host)
            (size == 0) refl
            (created_image-owned tools size host (tools.create path size host.images)));
  }

  discard_image-owned :
      (tools : DiskTools D) (created : Bool) (path : Text) (host : Host S D)
      → owned (discard_image tools created path host) ≡ owned host
  discard_image-owned tools true path host = refl
  discard_image-owned tools false path host = refl

module _ {V S D : Type 0} (qmp : Monitor V S) (toml : Toml) where
  plug_disk-FailKeeps :
      (tools : DiskTools D) (size : ℕ) (path : Text) (config : InstanceConfig) (index : ℕ)
      → FailKeeps {S = S} {D = D} (plug_disk qmp toml tools size path config index)
  unfolding plug_disk
  plug_disk-FailKeeps tools size path config index =
      >>=-FailKeeps
        (lift (if is_attached path config then err (disk_already_attached path) else ok tt)) _
        (lift-Keeps _)
        λ _.
          >>=-FailKeeps (image_size tools path size) _ (image_size-Keeps tools path size) λ image.
            >>=-FailKeeps
              (catch (on_backend (attach_disk_at qmp (hot_disk path image.0) index))
                (λ e later. (discard_image tools image.1 path later, err e)))
              _
              (catch-Keeps (on_backend (attach_disk_at qmp (hot_disk path image.0) index))
                (λ e later. (discard_image tools image.1 path later, err e))
                (on_backend-Keeps (attach_disk_at qmp (hot_disk path image.0) index))
                (λ e. record { keeps = λ host. discard_image-owned tools image.1 path host }))
              (λ _. update_then-FailKeeps toml (add_disk (hot_disk path image.0)) (path, index))

  attach_disk-FailKeeps :
      (tools : DiskTools D) (instance_dir : Text) (requested : Option Text) (size : ℕ)
      → FailKeeps {S = S} {D = D} (attach_disk qmp toml tools instance_dir requested size)
  unfolding attach_disk
  attach_disk-FailKeeps tools instance_dir requested size =
      >>=-FailKeeps hotplug_target _ hotplug_target-Keeps λ _.
        >>=-FailKeeps (λ host. (host, ok host.sup.config_tx)) _ (record { keeps = λ host. refl })
          λ config.
            >>=-FailKeeps
              (lift (resolve_extra_disk_path requested instance_dir (length config.extra_disks))) _
              (lift-Keeps _)
              (λ path. plug_disk-FailKeeps tools size path config (length config.extra_disks))

  detach_disk-FailKeeps : (path : Text) → FailKeeps {S = S} {D = D} (detach_disk qmp toml path)
  unfolding detach_disk
  detach_disk-FailKeeps path = >>=-FailKeeps hotplug_target _ hotplug_target-Keeps λ _.
      >>=-FailKeeps
        (λ host. (host, found_disk path (disk_position path host.sup.config_tx.extra_disks))) _
        (record { keeps = λ host. refl })
        λ index.
          >>=-FailKeeps (on_backend (detach_disk_at qmp index)) _
            (on_backend-Keeps (detach_disk_at qmp index))
            (λ _. update_config-FailKeeps toml (drop_disk index))

  attach_network-FailKeeps :
      (nets : NetworkService S) (instance_id : Text) (network : NetworkConfig)
      → FailKeeps {S = S} {D = D} (attach_network qmp toml nets instance_id network)
  unfolding attach_network
  attach_network-FailKeeps nets instance_id network =
      >>=-FailKeeps (lift (if is_empty network.device_model then err empty_device_model else ok tt))
        _ (lift-Keeps _)
        λ _. >>=-FailKeeps hotplug_target _ hotplug_target-Keeps λ _.
          >>=-FailKeeps (λ host. (host, ok (length host.sup.config_tx.extra_networks))) _
            (record { keeps = λ host. refl })
            λ index.
              >>=-FailKeeps (on_backend (attach_network_at qmp nets instance_id network index)) _
                (on_backend-Keeps (attach_network_at qmp nets instance_id network index))
                (λ _. update_then-FailKeeps toml (add_network network) index)

  detach_network-FailKeeps :
      (nets : NetworkService S) (index : ℕ)
      → FailKeeps {S = S} {D = D} (detach_network qmp toml nets index)
  unfolding detach_network
  detach_network-FailKeeps nets index = >>=-FailKeeps hotplug_target _ hotplug_target-Keeps λ _.
      >>=-FailKeeps
        (λ host. (host, attached_network index (length host.sup.config_tx.extra_networks))) _
        (record { keeps = λ host. refl })
        λ _.
          >>=-FailKeeps (on_backend (detach_network_at qmp nets index)) _
            (on_backend-Keeps (detach_network_at qmp nets index))
            (λ _. update_config-FailKeeps toml (drop_network index))

-- The four requests.
pub data HotplugRequest (S D : Type 0) : Type 0 where
  plug_in_disk : DiskTools D → Text → Option Text → ℕ → HotplugRequest S D
  unplug_disk : Text → HotplugRequest S D
  plug_in_network : NetworkService S → Text → NetworkConfig → HotplugRequest S D
  unplug_network : NetworkService S → ℕ → HotplugRequest S D

module _ {S D A : Type 0} where
  -- A request's host and its error, if it has one.
  abbrev outcome : Host S D × Result A HotplugError → Host S D × Option HotplugError
  outcome (host, ok a) = (host, none)
  outcome (host, err e) = (host, some e)

  outcome-FailKeeps :
      (m : Io (Host S D) HotplugError A) (host : Host S D) (e : HotplugError)
      → FailKeeps m
      → (outcome (m host)).1 ≡ some e
      → IsKept host e (outcome (m host)).0
  outcome-FailKeeps m host e k fails = elim (Result-cases (m host).1) [
    | inl (a, r) ↦
        let answered : none ≡ some e = sym (ap (λ x. (outcome ((m host).0, x)).1) r) ∙ fails in
        absurd cc
    | inr (e', r) ↦
        let answer : some e' ≡ some e = sym (ap (λ x. (outcome ((m host).0, x)).1) r) ∙ fails in
        let same : e' ≡ e = cc in rw r (k.keeps host e (r ∙ ap err same))
  ]

module _ {V S D : Type 0} (qmp : Monitor V S) (toml : Toml) where
  abbrev pub run_request : HotplugRequest S D → Host S D → Host S D × Option HotplugError
  run_request (plug_in_disk tools instance_dir requested size) host =
      outcome (attach_disk qmp toml tools instance_dir requested size host)
  run_request (unplug_disk path) host = outcome (detach_disk qmp toml path host)
  run_request (plug_in_network nets instance_id network) host =
      outcome (attach_network qmp toml nets instance_id network host)
  run_request (unplug_network nets index) host = outcome (detach_network qmp toml nets index host)

  -- A hotplug request that is answered with an error leaves the supervisor as it was, its configuration
  -- and its file included, whatever step fails. The one exception is a last step whose command the
  -- supervisor took and whose answer was lost: the error is then that the supervisor is gone.
  pub failed_hotplug_keeps :
      (request : HotplugRequest S D) (host : Host S D) (e : HotplugError)
      → (run_request request host).1 ≡ some e
      → IsKept host e (run_request request host).0
  failed_hotplug_keeps (plug_in_disk tools instance_dir requested size) host e =
      outcome-FailKeeps (attach_disk qmp toml tools instance_dir requested size) host e
        (attach_disk-FailKeeps qmp toml tools instance_dir requested size)
  failed_hotplug_keeps (unplug_disk path) host e =
      outcome-FailKeeps (detach_disk qmp toml path) host e (detach_disk-FailKeeps qmp toml path)
  failed_hotplug_keeps (plug_in_network nets instance_id network) host e =
      outcome-FailKeeps (attach_network qmp toml nets instance_id network) host e
        (attach_network-FailKeeps qmp toml nets instance_id network)
  failed_hotplug_keeps (unplug_network nets index) host e =
      outcome-FailKeeps (detach_network qmp toml nets index) host e
        (detach_network-FailKeeps qmp toml nets index)
