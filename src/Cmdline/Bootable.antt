-- ===== src/Cmdline/Bootable.antt =====
-- When `build_args` gives a command line.
use andler.Base.{
  ◌≡◌, refl, ◌↔◌, ◌≢◌, ◌⊎◌, List, [], ◌∷◌, ◌++◌, Text, codes, All, Result, ok, ◌>>=◌, >>=-eq-ok,
  arith, ℕ, suc,
}
use andler.Config.{InstanceConfig, NetworkMode, NetworkConfig, RenderBackend, GpuConfig}
use andler.InstanceId.{fmt}
use andler.Cmdline.Machine.{BackendError, render_args, concat}
use andler.Cmdline.Peripherals.{gpu_display_args}
use andler.Cmdline.Nics.{
  network_args, check_isolated, extra_network_args, extra_netdev, primary_network_args,
  primary_net_isolated_iface,
}
use andler.Cmdline.Build.{build_args}

abbrev IsPassthrough : RenderBackend → Type 0
IsPassthrough backend = (device : Text) × (backend ≡ RenderBackend.passthrough device)

abbrev pub Succeeds : Result (List Text) BackendError → Type 0
Succeeds r = (args : List Text) × (r ≡ ok args)

-- The configurations that the backend can start: the GPU is no passed-through device, no extra
-- interface is isolated, and an isolated guest has no extra interface.
pub record IsBootable (cfg : InstanceConfig) : Type 0 where
  pub own_gpu : ¬ IsPassthrough cfg.gpu.render_backend
  pub attached : All (λ net. net.mode ≢ NetworkMode.isolated) cfg.extra_networks
  pub alone : (cfg.network.mode ≢ NetworkMode.isolated) ⊎ (cfg.extra_networks ≡ [])

render_args_iff :
    (gpu : GpuConfig) (backend : RenderBackend)
    → Succeeds (render_args gpu backend) ↔ (¬ IsPassthrough backend)
unfolding render_args
render_args_iff gpu RenderBackend.cpu = ground arith
render_args_iff gpu RenderBackend.virtio_gpu = ground arith
render_args_iff gpu RenderBackend.virgl = ground arith
render_args_iff gpu RenderBackend.venus = ground arith
render_args_iff gpu (RenderBackend.passthrough device) =
    (λ succeeds same. cc, λ h. absurd (h (device, refl)))

extra_netdev_iff :
    (instance_id : Text) (index : ℕ) (extra : NetworkConfig) (mode : NetworkMode)
    → ((netdev : Text) × (extra_netdev instance_id index extra mode ≡ ok netdev))
      ↔ (mode ≢ NetworkMode.isolated)
unfolding extra_netdev
extra_netdev_iff instance_id index extra NetworkMode.nat = (λ succeeds same. cc, λ h. (_, refl))
extra_netdev_iff instance_id index extra (NetworkMode.bridge interface) =
    (λ succeeds same. cc, λ h. (_, refl))
extra_netdev_iff instance_id index extra NetworkMode.isolated =
    (λ succeeds. cc, λ h. absurd (h refl))

extra_network_args_iff :
    (instance_id : Text) (index : ℕ) (extras : List NetworkConfig)
    → Succeeds (extra_network_args instance_id index extras)
      ↔ All (λ net. net.mode ≢ NetworkMode.isolated) extras
unfolding extra_network_args
extra_network_args_iff instance_id index [] = (λ s. tt, λ h. ([], refl))
extra_network_args_iff instance_id index (extra ∷ rest) =
    let one = extra_netdev_iff instance_id index extra extra.mode in
    let more = extra_network_args_iff instance_id (suc index) rest in
    (
      λ s.
          let (netdev, first, later) = >>=-eq-ok _ _ s.1 in
          let (args, second, _) = >>=-eq-ok _ _ later in
          (one.0 (netdev, first), more.0 (args, second)),
      λ h.
          let (netdev, first) = one.1 h.0 in
          let (args, second) = more.1 h.1 in rw (first, second) (_, refl),
    )

check_isolated_iff :
    (mode : NetworkMode) (extras : List NetworkConfig)
    → (check_isolated mode extras ≡ ok tt) ↔ ((mode ≢ NetworkMode.isolated) ⊎ (extras ≡ []))
unfolding check_isolated
check_isolated_iff NetworkMode.isolated [] = ground arith
check_isolated_iff NetworkMode.isolated (extra ∷ rest) = ground arith
check_isolated_iff NetworkMode.nat extras = ground arith
check_isolated_iff (NetworkMode.bridge interface) extras = ground arith

-- `build_args` gives a command line for the configurations that `IsBootable` describes and for no
-- other.
pub build_args_iff :
    (cfg : InstanceConfig) (qmp console : Text)
    → Succeeds (build_args cfg qmp console) ↔ IsBootable cfg
unfolding build_args gpu_display_args network_args
build_args_iff cfg qmp console =
    let render = render_args_iff cfg.gpu cfg.gpu.render_backend in
    let isolated = check_isolated_iff cfg.network.mode cfg.extra_networks in
    let extras = extra_network_args_iff (fmt cfg.id) 0 cfg.extra_networks in
    (
      λ s.
          let (gpu, displayed, net) = >>=-eq-ok _ _ s.1 in
          let (rendered, r, _) = >>=-eq-ok _ _ displayed in
          let (nics, networked, _) = >>=-eq-ok _ _ net in
          let (_, i, attached) = >>=-eq-ok _ _ networked in
          let (args, e, _) = >>=-eq-ok _ _ attached in
          record {
            own_gpu = render.0 (rendered, r);
            attached = extras.0 (args, e);
            alone = isolated.0 i;
          },
      λ h.
          let (rendered, r) = render.1 h.own_gpu in
          let (args, e) = extras.1 h.attached in rw (r, isolated.1 h.alone, e) (_, refl),
    )

abbrev pub isolated_args : Text → List Text
isolated_args device_model =
    codes "-netdev"
    ∷ concat (
        codes "tap,id=net0,ifname="
        ∷ primary_net_isolated_iface
        ∷ codes ",script=no,downscript=no"
        ∷ [])
    ∷ codes "-device"
    ∷ (device_model ++ codes ",netdev=net0")
    ∷ []

isolated_alone :
    (id : Text) (net : NetworkConfig) (mode : NetworkMode) (extras : List NetworkConfig)
    (args : List Text)
    → mode ≡ NetworkMode.isolated
    → (check_isolated mode extras >>= λ _.
        extra_network_args id 0 extras >>= λ more. ok (primary_network_args id net mode ++ more))
      ≡ ok args
    → args ≡ isolated_args net.device_model
unfolding primary_network_args extra_network_args check_isolated
isolated_alone id net NetworkMode.isolated [] args is built = ground arith
isolated_alone id net NetworkMode.isolated (extra ∷ rest) args is built = cc
isolated_alone id net NetworkMode.nat extras args is built = cc
isolated_alone id net (NetworkMode.bridge interface) extras args is built = cc

-- An isolated guest for which there are network arguments has one interface, the tap that is named
-- in its own network namespace, and no host bridge, no port forward and no interface beside it.
pub isolated_has_one_nic :
    (cfg : InstanceConfig) (args : List Text)
    → cfg.network.mode ≡ NetworkMode.isolated
    → network_args cfg ≡ ok args
    → args ≡ isolated_args cfg.network.device_model
unfolding network_args
isolated_has_one_nic cfg args mode built =
    isolated_alone (fmt cfg.id) cfg.network cfg.network.mode cfg.extra_networks args mode built
