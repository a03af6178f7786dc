-- ===== src/Hotplug/Untouched.antt =====
-- Steps of a hotplug request that leave the supervisor alone, or do so when they fail.
use andler.Base.{
  ◌⊎◌, ◌≡◌, refl, sym, ap, ◌∙◌, Option, none, some, Result, ok, err, Result-cases, inl, inr,
}
use andler.Supervisor.{Supervisor, World}
use andler.Qmp.Effects.{Io, followed, catch, lift, pure, ◌>>=◌}
use andler.Qmp.Backend.{RunningInstance, QemuError}
use andler.Hotplug.Host.{HotplugError, Host, Delivery, supervisor_gone, not_answered}
use andler.Hotplug.Operations.{by_entry, back_in_host, on_backend}

module _ {S D : Type 0} where
  -- What of the host a change of the configuration goes through.
  abbrev pub owned : Host S D → Supervisor × World × Delivery
  owned host = (host.sup, host.world, host.delivery)

-- It is as it was, or a change was taken and its answer lost.
abbrev pub IsKept : {S D : Type 0} → Host S D → HotplugError → Host S D → Type 0
IsKept host e after =
    (owned after ≡ owned host) ⊎ ((e ≡ supervisor_gone) × (host.delivery ≡ not_answered))

-- Steps that leave it alone, and steps that do so when they fail.
pub record Keeps {S D A : Type 0} (m : Io (Host S D) HotplugError A) : Type 0 where
  pub keeps : (host : Host S D) → owned (m host).0 ≡ owned host

pub record FailKeeps {S D A : Type 0} (m : Io (Host S D) HotplugError A) : Type 0 where
  pub keeps : (host : Host S D) (e : HotplugError) → (m host).1 ≡ err e → IsKept host e (m host).0

module _ {S D A : Type 0} where
  pub lift-Keeps : (r : Result A HotplugError) → Keeps {S = S} {D = D} (lift r)
  lift-Keeps r = record { keeps = λ host. refl }

  back_in_host-owned :
      (host : Host S D) (p : RunningInstance S × Result A QemuError)
      → owned (back_in_host host p).0 ≡ owned host
  back_in_host-owned host (instance, ok a) = refl
  back_in_host-owned host (instance, err e) = refl

  by_entry-owned :
      (op : Io (RunningInstance S) QemuError A) (host : Host S D) (o : Option (RunningInstance S))
      → owned (by_entry op host o).0 ≡ owned host
  by_entry-owned op host none = refl
  by_entry-owned op host (some instance) = back_in_host-owned host (op instance)

  pub on_backend-Keeps :
      (op : Io (RunningInstance S) QemuError A) → Keeps {S = S} {D = D} (on_backend op)
  on_backend-Keeps op = record { keeps = λ host. by_entry-owned op host host.running }

  pub catch-Keeps :
      (m : Io (Host S D) HotplugError A) (handler : HotplugError → Io (Host S D) HotplugError A)
      → Keeps m
      → ((e : HotplugError) → Keeps (handler e))
      → Keeps (catch m handler)
  catch-Keeps m handler km kh = record {
    keeps = λ host. elim (Result-cases (m host).1) [
      | inl (a, e) ↦ rw e (km.keeps host)
      | inr (e, r) ↦ rw r ((kh e).keeps (m host).0 ∙ km.keeps host)
    ];
  }

module _ {S D A B : Type 0} where
  pub >>=-FailKeeps :
      (m : Io (Host S D) HotplugError A) (next : A → Io (Host S D) HotplugError B)
      → Keeps m
      → ((a : A) → FailKeeps (next a))
      → FailKeeps (m >>= next)
  >>=-FailKeeps m next km kn = record {
    keeps = λ host e fails. elim (Result-cases (m host).1) [
      | inl (a, r) ↦
          let there = sym (ap (λ x. (followed next ((m host).0, x)).1) r) ∙ fails in
          let same = km.keeps host in
          rw r (elim ((kn a).keeps (m host).0 e there) [
            | inl kept ↦ inl (kept ∙ same)
            | inr (gone, lost) ↦ inr (gone, sym (ap (λ o. o.2) same) ∙ lost)
          ])
      | inr (e', r) ↦ rw r (inl (km.keeps host))
    ];
  }

  -- An answer after the last step.
  pub pure-FailKeeps :
      (m : Io (Host S D) HotplugError A) (b : B) → FailKeeps m → FailKeeps (m >>= λ a. pure b)
  pure-FailKeeps m b k = record {
    keeps = λ host e fails.
        let next : A → Io (Host S D) HotplugError B = λ a. pure b in
        elim (Result-cases (m host).1) [
          | inl (a, r) ↦
              let there = sym (ap (λ x. (followed next ((m host).0, x)).1) r) ∙ fails in absurd cc
          | inr (e', r) ↦
              let there = sym (ap (λ x. (followed next ((m host).0, x)).1) r) ∙ fails in
              let same : e' ≡ e = cc in rw r (k.keeps host e (r ∙ ap err same))
        ];
  }
