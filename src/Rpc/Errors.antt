-- ===== src/Rpc/Errors.antt =====
-- services/andler-rpc/src/convert.rs: `ConvertError`, and the calls of the standard library that the
-- conversions share.
use andler.Base.{Option, none, some, List, [], ◌∷◌, Text, Result, ok, err, ◌>>=◌}

pub data ConvertError : Type 0 where
  missing_android_version missing_instance_id missing_cpu_priority missing_disk_format
        missing_display_engine missing_audio_backend missing_render_backend_kind
        missing_network_mode_kind missing_clone_mode missing_backend_kind
        missing_port_forward_protocol :
      ConvertError
  invalid_instance_id missing_field client_supplied_shell : Text → ConvertError

-- `Option::ok_or`.
unfoldable pub ok_or {ℓ κ} : {A : Type ℓ} {E : Type κ} → E → Option A → Result A E
ok_or reason none = err reason
ok_or reason (some x) = ok x

-- `Option::unwrap_or_default` of a text or a list, and the way back: an empty one is absent.
unfoldable pub unwrap_or_default {ℓ} : {A : Type ℓ} → Option (List A) → List A
unwrap_or_default none = []
unwrap_or_default (some xs) = xs

unfoldable pub unless_empty {ℓ} : {A : Type ℓ} → List A → Option (List A)
unless_empty [] = none
unless_empty (x ∷ xs) = some (x ∷ xs)

-- `map(TryInto::try_into).collect::<Result<Vec<_>, _>>()`.
unfoldable pub collect {ℓ κ μ} :
    {A : Type ℓ} {B : Type κ} {E : Type μ} → (A → Result B E) → List A → Result (List B) E
collect f [] = ok []
collect f (x ∷ xs) = let rest = collect f xs in do y ← f x; ys ← rest; ok (y ∷ ys)
