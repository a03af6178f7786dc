-- ===== src/Supervisor/Operations.antt =====
-- The accept rule for operations, cancelling, and the end of an operation's task.
use andler.Base.{
  ℕ, ◌+◌, Bool, true, false, ◌&&◌, Option, none, some, Text, Result, ok, err, ◌==◌, text_eq,
  opt_text_eq, if◌then◌else◌,
}
use andler.Config.{InstanceId}
use andler.Supervisor.State.{OperationKind, Operation, Supervisor, World}

-- `DaemonError::OperationAlreadyRunning`.
pub record AlreadyRunning : Type 0 where
  pub instance_id : InstanceId
  pub active_op_id : Text
  pub active_kind : OperationKind

pub data JoinDecision : Type 0 where
  joined : Operation → Option InstanceId → JoinDecision
  busy : Operation → JoinDecision
  free : JoinDecision

abbrev is_some {ℓ} : {A : Type ℓ} → Option A → Bool
is_some none = false
is_some (some a) = true

abbrev decide_join : Supervisor → World → Option Text → Option ℕ → JoinDecision
decide_join s w key none = free
decide_join s w key (some channel) =
    if is_some key && opt_text_eq key s.active_op_key
    then if s.active_op_cancelled then free else joined (w.ops channel) s.active_op_new_id
    else busy (w.ops channel)

unfoldable pub join_decision : Supervisor → World → Option Text → JoinDecision
join_decision s w key = decide_join s w key s.active_op

unfoldable pub already_running : Supervisor → Operation → AlreadyRunning
already_running s active = record {
  instance_id = s.id;
  active_op_id = active.op_id;
  active_kind = active.kind;
}

abbrev pub update {ℓ} : {A : Type ℓ} → (ℕ → A) → ℕ → A → ℕ → A
update f n a m = if m == n then a else f m

-- The bookkeeping of an accepted operation, shared by both `start` functions: new channels named by
-- the new generation.
unfoldable pub accept_operation :
    Supervisor → World → Operation → Option Text → Option InstanceId → Supervisor × World
accept_operation s w op key new_id =
    let seq = s.next_op_seq in
    (
      record s {
        next_op_seq = seq + 1;
        active_op = some seq;
        active_op_key = key;
        active_op_new_id = new_id;
        active_op_seq = some seq;
        active_op_cancelled = false;
        op_cancel = some seq;
      },
      record w { ops = update w.ops seq op; cancels = update w.cancels seq false },
    )

-- The answer, and the generation of the task that was spawned, if one was.
pub record Started (A : Type 0) : Type 0 where
  pub ack : Result (Option A) AlreadyRunning
  pub spawned : Option ℕ

unfoldable pub start_operation :
    Supervisor → World → Operation → Option Text → Supervisor × World × Started Text
unfolding join_decision already_running accept_operation
start_operation s w op key = elim (join_decision s w key) [
  | joined active new_id ↦ (s, w, record { ack = ok (some active.op_id); spawned = none })
  | busy active ↦ (s, w, record { ack = err (already_running s active); spawned = none })
  | free ↦
      let (s', w') = accept_operation s w op key none in
      (s', w', record { ack = ok none; spawned = some s.next_op_seq })
]

abbrev join_id : Supervisor → Operation → Option InstanceId → Started (Text × InstanceId)
unfolding already_running
join_id s active none = record { ack = err (already_running s active); spawned = none }
join_id s active (some new_id) = record { ack = ok (some (active.op_id, new_id)); spawned = none }

unfoldable pub start_id_operation :
    Supervisor
    → World
    → Operation
    → Option Text
    → InstanceId
    → Supervisor × World × Started (Text × InstanceId)
unfolding join_decision already_running accept_operation join_id
start_id_operation s w op key new_id = elim (join_decision s w key) [
  | joined active active_new_id ↦ (s, w, join_id s active active_new_id)
  | busy active ↦ (s, w, record { ack = err (already_running s active); spawned = none })
  | free ↦
      let (s', w') = accept_operation s w op key (some new_id) in
      (s', w', record { ack = ok none; spawned = some s.next_op_seq })
]

abbrev active_has_id : World → Option ℕ → Text → Bool
unfolding text_eq
active_has_id w none op_id = false
active_has_id w (some channel) op_id = text_eq (w.ops channel).op_id op_id

abbrev cancel_on : Supervisor → World → Option ℕ → Bool → Supervisor × World × Bool
cancel_on s w (some channel) true = (
  record s { active_op_cancelled = true },
  record w { cancels = update w.cancels channel true },
  true,
)
cancel_on s w _ _ = (s, w, false)

unfoldable pub cancel_operation : Supervisor → World → Text → Supervisor × World × Bool
unfolding active_has_id
cancel_operation s w op_id = cancel_on s w s.op_cancel (active_has_id w s.active_op op_id)

abbrev active_value : World → Option ℕ → Option Operation
active_value w none = none
active_value w (some channel) = some (w.ops channel)

unfoldable pub get_active_op : Supervisor → World → Option Operation
get_active_op s w = active_value w s.active_op

unfoldable pub join_active : Supervisor → World → Option Text → Result (Option Text) AlreadyRunning
unfolding join_decision already_running
join_active s w key = elim (join_decision s w key) [
  | joined active new_id ↦ ok (some active.op_id)
  | busy active ↦ err (already_running s active)
  | free ↦ ok none
]

abbrev is_seq : Option ℕ → ℕ → Bool
is_seq none seq = false
is_seq (some active) seq = active == seq

-- The `op_done_rx` arm of the loop.
unfoldable pub operation_done : Supervisor → ℕ → Supervisor
operation_done s seq =
    if is_seq s.active_op_seq seq
    then record s {
      active_op = none;
      active_op_key = none;
      active_op_new_id = none;
      active_op_seq = none;
      active_op_cancelled = false;
      op_cancel = none;
    }
    else s
