-- ===== src/Supervisor/Tasks.antt =====
-- Lists of task generations, newest first: what holds of them, and what ending one leaves.
use andler.Base.{
  ℕ, zero, suc, ◌≤◌, ◌<◌, ◌≡◌, ◌≢◌, refl, ◌⊎◌, inl, inr, Bool, true, Option, some, List, [], ◌∷◌,
  arith, All, if◌then◌else◌, ◌+◌,
}
use mathlib.Core.Path.{subst}
use mathlib.Core.Option.{some-injective}
use andler.Supervisor.Run.{nth_task, without_nth}

-- Every generation is older than those before it, so no two are the same.
abbrev pub Descending : List ℕ → Type 0
Descending [] = Unit
Descending (seq ∷ tasks) = All (λ t. t < seq) tasks × Descending tasks

module _ (P : ℕ → Type 0) where
  pub All-without_nth : (n : ℕ) (tasks : List ℕ) → All P tasks → All P (without_nth n tasks)
  All-without_nth zero [] h = tt
  All-without_nth (suc n) [] h = tt
  All-without_nth zero (seq ∷ tasks) h = h.1
  All-without_nth (suc n) (seq ∷ tasks) h = (h.0, All-without_nth n tasks h.1)

  pub All-nth_task :
      (n : ℕ) (tasks : List ℕ) (seq : ℕ) → All P tasks → nth_task n tasks ≡ some seq → P seq
  All-nth_task zero [] seq h e = cc
  All-nth_task (suc n) [] seq h e = cc
  All-nth_task zero (t ∷ tasks) seq h e = subst P (some-injective t seq e) h.0
  All-nth_task (suc n) (t ∷ tasks) seq h e = All-nth_task n tasks seq h.1 e

pub Descending-without_nth :
    (n : ℕ) (tasks : List ℕ) → Descending tasks → Descending (without_nth n tasks)
Descending-without_nth zero [] h = tt
Descending-without_nth (suc n) [] h = tt
Descending-without_nth zero (seq ∷ tasks) h = h.1
Descending-without_nth (suc n) (seq ∷ tasks) h =
    (All-without_nth (λ t. t < seq) n tasks h.0, Descending-without_nth n tasks h.1)

All-lt-ne : (seq : ℕ) (tasks : List ℕ) → All (λ t. t < seq) tasks → All (λ t. t ≢ seq) tasks
All-lt-ne seq [] h = tt
All-lt-ne seq (t ∷ tasks) h = (omega arith, All-lt-ne seq tasks h.1)

-- A task that ended is not among those that are left.
pub without_nth-ne :
    (n : ℕ) (tasks : List ℕ) (seq : ℕ)
    → Descending tasks
    → nth_task n tasks ≡ some seq
    → All (λ t. t ≢ seq) (without_nth n tasks)
without_nth-ne zero [] seq h e = tt
without_nth-ne (suc n) [] seq h e = tt
without_nth-ne zero (t ∷ tasks) seq h e =
    All-lt-ne seq tasks (subst (λ x. All (λ y. y < x) tasks) (some-injective t seq e) h.0)
without_nth-ne (suc n) (t ∷ tasks) seq h e =
    (ground (arith, All-nth_task (λ x. x < t) n tasks seq h.0 e), without_nth-ne n tasks seq h.1 e)

-- How many of the tasks have not been told to stop.
pub live_count : (ℕ → Bool) → List ℕ → ℕ
live_count cancels [] = 0
live_count cancels (seq ∷ tasks) = (if cancels seq then 0 else 1) + live_count cancels tasks

live_count_none :
    (cancels : ℕ → Bool) (tasks : List ℕ)
    → All (λ t. cancels t ≡ true) tasks
    → live_count cancels tasks ≡ 0
unfolding live_count
live_count_none cancels [] h = refl
live_count_none cancels (seq ∷ tasks) h =
    rw (h.0) (omega (arith, live_count_none cancels tasks h.1))

-- A task is told to stop unless it is the active one.
abbrev pub IsSuperseded : (ℕ → Bool) → Option ℕ → ℕ → Type 0
IsSuperseded cancels active seq = (cancels seq ≡ true) ⊎ (active ≡ some seq)

others_cancelled :
    (cancels : ℕ → Bool) (seq : ℕ) (tasks : List ℕ)
    → All (λ t. t < seq) tasks
    → All (IsSuperseded cancels (some seq)) tasks
    → All (λ t. cancels t ≡ true) tasks
others_cancelled cancels seq [] below h = tt
others_cancelled cancels seq (t ∷ tasks) below h = (
  elim h.0 [ inl c ↦ c | inr same ↦ absurd (ground arith) ],
  others_cancelled cancels seq tasks below.1 h.1,
)

pub live_count-le :
    (cancels : ℕ → Bool) (active : Option ℕ) (tasks : List ℕ)
    → Descending tasks
    → All (IsSuperseded cancels active) tasks
    → live_count cancels tasks ≤ 1
unfolding live_count
live_count-le cancels active [] d h = omega arith
live_count-le cancels active (seq ∷ tasks) d h = elim h.0 [
  | inl stopped ↦ rw stopped (omega (arith, live_count-le cancels active tasks d.1 h.1))
  | inr same ↦
      let rest = others_cancelled cancels seq tasks d.0 (rw (← same) h.1) in
      ground (arith, live_count_none cancels tasks rest)
]
