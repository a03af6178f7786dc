-- ===== src/Supervisor/Accounting.antt =====
-- The bookkeeping of operations: what holds of the slots, the channels and the tasks, and what keeps it.
use andler.Base.{
  ℕ, ◌+◌, ◌<◌, ◌≡◌, ◌≢◌, refl, ◌∙◌, ◌⊎◌, inl, inr, Bool, true, false, Option, none, some, List, [],
  ◌∷◌, ◌++◌, arith, All, All-append, All-map, All-map₂, Text,
}
use mathlib.Core.Path.{subst}
use andler.Config.{InstanceId}
use andler.Supervisor.Operations.{update}
use andler.Supervisor.Run.{nth_task, without_nth}
use andler.Supervisor.Kept.{Slots}
use andler.Supervisor.Tasks.{
  Descending, All-without_nth, All-nth_task, Descending-without_nth, without_nth-ne, IsSuperseded,
}

-- The value of a channel that a pointer names, if there is one.
abbrev pub AtPointer : Option ℕ → (ℕ → Type 0) → Type 0
AtPointer none P = Unit
AtPointer (some seq) P = P seq

-- The bookkeeping of the operation in the slots, against the channels.
pub record SlotsValid (s : Slots) (cancels : ℕ → Bool) : Type 0 where
  pub same_seq : s.seq ≡ s.active_op
  pub same_cancel : s.cancel ≡ s.active_op
  pub older : AtPointer s.active_op (λ seq. seq < s.next)
  pub flag : AtPointer s.active_op (λ seq. cancels seq ≡ s.cancelled)
  pub cleared : s.active_op ≡ none → (s.key ≡ none) × (s.new_id ≡ none) × (s.cancelled ≡ false)

-- The tasks that run, and those whose completion waits.
pub record TasksValid (s : Slots) (cancels : ℕ → Bool) (tasks dones : List ℕ) : Type 0 where
  pub descending : Descending tasks
  pub tasks_older : All (λ t. t < s.next) tasks
  pub dones_older : All (λ d. d < s.next) dones
  pub gone : All (λ d. All (λ t. t ≢ d) tasks) dones
  pub superseded : All (IsSuperseded cancels s.active_op) tasks

abbrev pub SlotsHold : Slots → (ℕ → Bool) → List ℕ → List ℕ → Type 0
SlotsHold s cancels tasks dones = SlotsValid s cancels × TasksValid s cancels tasks dones

-- A fresh operation, accepted when none is active or the active one was told to stop.
unfoldable pub accepted : Slots → Option Text → Option InstanceId → Slots
accepted s key new_id = record {
  active_op = some s.next;
  key = key;
  new_id = new_id;
  cancelled = false;
  seq = some s.next;
  next = s.next + 1;
  cancel = some s.next;
}

abbrev pub IsFree : Slots → Type 0
IsFree s = (s.active_op ≡ none) ⊎ (s.cancelled ≡ true)

-- Then every task so far was told to stop.
all_stopped :
    (s : Slots) (cancels : ℕ → Bool) (t : ℕ)
    → IsFree s
    → SlotsValid s cancels
    → IsSuperseded cancels s.active_op t
    → cancels t ≡ true
all_stopped s cancels t (inl nothing) v (inl stopped) = stopped
all_stopped s cancels t (inr flagged) v (inl stopped) = stopped
all_stopped s cancels t (inl nothing) v (inr active) = absurd (ground arith)
all_stopped s cancels t (inr flagged) v (inr active) =
    subst (λ o. AtPointer o (λ q. cancels q ≡ s.cancelled)) active v.flag ∙ flagged

pub accepted-valid :
    (s : Slots) (cancels : ℕ → Bool) (tasks dones : List ℕ) (key : Option Text)
    (new_id : Option InstanceId)
    → IsFree s
    → SlotsHold s cancels tasks dones
    → SlotsHold (accepted s key new_id) (update cancels s.next false) (s.next ∷ tasks) dones
unfolding accepted
accepted-valid s cancels tasks dones key new_id is_free (v, t) = (
  record {
    same_seq = refl;
    same_cancel = refl;
    older = omega arith;
    flag = ground arith;
    cleared = λ h. cc;
  },
  record {
    descending = (t.tasks_older, t.descending);
    tasks_older = (omega arith, All-map tasks (λ x (h : x < s.next). omega arith) t.tasks_older);
    dones_older = All-map dones (λ x (h : x < s.next). omega arith) t.dones_older;
    gone =
        All-map₂ dones (λ d (h : d < s.next) k. (λ e. omega (arith, e, h), k)) t.dones_older t.gone;
    superseded = (
      inr refl,
      All-map₂ tasks
          (λ x (h : x < s.next) k. inl (ground (arith, all_stopped s cancels x is_free v k)))
          t.tasks_older t.superseded,
    );
  },
)

unfoldable pub told : Slots → Slots
told s = record s { cancelled = true }

-- Telling the active operation to stop.
pub told-valid :
    (s : Slots) (cancels : ℕ → Bool) (tasks dones : List ℕ) (seq : ℕ)
    → s.active_op ≡ some seq
    → SlotsHold s cancels tasks dones
    → SlotsHold (told s) (update cancels seq true) tasks dones
unfolding told
told-valid s cancels tasks dones seq active (v, t) = (
  record {
    same_seq = v.same_seq;
    same_cancel = v.same_cancel;
    older = v.older;
    flag = rw active (ground arith);
    cleared = λ h. cc;
  },
  record {
    descending = t.descending;
    tasks_older = t.tasks_older;
    dones_older = t.dones_older;
    gone = t.gone;
    superseded =
        All-map tasks (λ x (h : IsSuperseded cancels s.active_op x). ground arith) t.superseded;
  },
)

unfoldable pub clear : Slots → Slots
clear s = record {
  active_op = none;
  key = none;
  new_id = none;
  cancelled = false;
  seq = none;
  next = s.next;
  cancel = none;
}

-- The completion of the active operation.
pub clear-valid :
    (s : Slots) (cancels : ℕ → Bool) (tasks dones : List ℕ) (seq : ℕ)
    → s.active_op ≡ some seq
    → SlotsHold s cancels tasks (seq ∷ dones)
    → SlotsHold (clear s) cancels tasks dones
unfolding clear
clear-valid s cancels tasks dones seq active (v, t) = (
  record {
    same_seq = refl;
    same_cancel = refl;
    older = tt;
    flag = tt;
    cleared = λ h. (refl, refl, refl);
  },
  record {
    descending = t.descending;
    tasks_older = t.tasks_older;
    dones_older = t.dones_older.1;
    gone = t.gone.1;
    superseded =
        All-map₂ tasks
          (λ x (h : x ≢ seq) (k : IsSuperseded cancels s.active_op x). inl (ground arith)) t.gone.0
          t.superseded;
  },
)

-- A completion of any other.
pub drop-valid :
    (s : Slots) (cancels : ℕ → Bool) (tasks dones : List ℕ) (seq : ℕ)
    → TasksValid s cancels tasks (seq ∷ dones)
    → TasksValid s cancels tasks dones
drop-valid s cancels tasks dones seq t = record {
  descending = t.descending;
  tasks_older = t.tasks_older;
  dones_older = t.dones_older.1;
  gone = t.gone.1;
  superseded = t.superseded;
}

-- The end of a task.
pub end-valid :
    (s : Slots) (cancels : ℕ → Bool) (tasks dones : List ℕ) (n seq : ℕ)
    → nth_task n tasks ≡ some seq
    → TasksValid s cancels tasks dones
    → TasksValid s cancels (without_nth n tasks) (dones ++ seq ∷ [])
end-valid s cancels tasks dones n seq there t = record {
  descending = Descending-without_nth n tasks t.descending;
  tasks_older = All-without_nth (λ x. x < s.next) n tasks t.tasks_older;
  dones_older =
      All-append (λ d. d < s.next) dones (seq ∷ []) t.dones_older
        (All-nth_task (λ x. x < s.next) n tasks seq t.tasks_older there, tt);
  gone =
      All-append (λ d. All (λ x. x ≢ d) (without_nth n tasks)) dones (seq ∷ [])
        (All-map dones (λ d (h : All (λ x. x ≢ d) tasks). All-without_nth (λ x. x ≢ d) n tasks h)
          t.gone)
        (without_nth-ne n tasks seq t.descending there, tt);
  superseded = All-without_nth (IsSuperseded cancels s.active_op) n tasks t.superseded;
}
