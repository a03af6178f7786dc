-- ===== src/Qmp/Polling.antt =====
-- The loops of qmp.rs that ask, sleep and ask again until they know or until it is late, and that
-- they end.
use andler.Base.{
  ℕ, zero, suc, ◌+◌, ◌*◌, ◌≤◌, ◌<◌, ◌≡◌, refl, Option, none, some, Result, arith, Option-cases, inl,
  inr,
}
use andler.Qmp.Effects.{Io}

module _ {S E A : Type 0} where
  -- What a round of the loop knows: an answer, or that it has to go on.
  abbrev pub decided : (S → S × Result A E) → S × Option (Result A E) → S × Result A E
  decided next (s, none) = next s
  decided next (s, some answer) = (s, answer)

  -- On fuel; `late` is the answer of a round that is not left.
  unfoldable pub poll : (S → S) → (S → S × Option (Result A E)) → Result A E → ℕ → Io S E A
  poll sleep round late zero s = (s, late)
  poll sleep round late (suc fuel) s =
      decided (λ s'. poll sleep round late fuel (sleep s')) (round s)

  -- When a round that is past its deadline knows the answer, and each round takes at least `ms`, then
  -- a round more than the time that is left has room for is enough: more fuel makes no difference.
  pub poll-enough :
      (now : S → ℕ) (sleep : S → S) (round : S → S × Option (Result A E)) (late : Result A E)
      (deadline ms : ℕ)
      → ((s : S) → now s + ms ≤ now (sleep s))
      → ((s : S) → now s ≤ now (round s).0)
      → ((s : S) → (round s).1 ≡ none → now (round s).0 < deadline)
      → (fuel more : ℕ) (s : S) → fuel ≤ more
      → deadline ≤ now s + ms * fuel
      → poll sleep round late (suc more) s ≡ poll sleep round late (suc fuel) s
  unfolding poll
  poll-enough now sleep round late deadline ms slept forward decides zero more s le enough =
      elim (Option-cases (round s).1) [
        | inl e ↦ absurd (omega (arith, forward s, decides s e))
        | inr (answer, e) ↦ rw e refl
      ]
  poll-enough now sleep round late deadline ms slept forward decides (suc fuel) zero s le enough =
      absurd (omega arith)
  poll-enough now sleep round late deadline ms slept forward decides (suc fuel) (suc more) s le
        enough =
      elim (Option-cases (round s).1) [
        | inl e ↦ rw e (
            poll-enough now sleep round late deadline ms slept forward decides fuel more
              (sleep (round s).0) (omega arith) (omega (arith, forward s, slept (round s).0)))
        | inr (answer, e) ↦ rw e refl
      ]
