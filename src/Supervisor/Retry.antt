-- ===== src/Supervisor/Retry.antt =====
-- Idempotency keys: which request joins an operation, which is refused, and which starts afresh.
use andler.Base.{
  ℕ, ◌+◌, ◌≡◌, ◌≢◌, refl, ap, ◌∙◌, true, false, Option, none, some, arith, Text, ok, err,
  text_eq_iff, opt_text_eq_iff,
}
use andler.Config.{InstanceId}
use andler.Supervisor.State.{Supervisor, World, Operation}
use andler.Supervisor.Operations.{
  start_operation, start_id_operation, cancel_operation, operation_done, accept_operation, update,
  Started, join_active, already_running,
}

-- The answer to a request that was accepted afresh under a generation.
abbrev pub fresh_start : {A : Type 0} → ℕ → Started A
fresh_start seq = record { ack = ok none; spawned = some seq }

start_fresh :
    (s : Supervisor) (w : World) (op : Operation) (key : Option Text)
    → s.active_op ≡ none
    → start_operation s w op key ≡ (
      (accept_operation s w op key none).0,
      (accept_operation s w op key none).1,
      fresh_start s.next_op_seq,
    )
unfolding start_operation
start_fresh s w op key nothing = rw nothing

abbrev joined_answer : Text → Started Text
joined_answer op_id = record { ack = ok (some op_id); spawned = none }

abbrev joined_id_answer : Text → InstanceId → Started (Text × InstanceId)
joined_id_answer op_id new_id = record { ack = ok (some (op_id, new_id)); spawned = none }

abbrev refused_answer : Supervisor → Operation → Started Text
refused_answer s active = record { ack = err (already_running s active); spawned = none }

start_id_fresh :
    (s : Supervisor) (w : World) (op : Operation) (key : Option Text) (new_id : InstanceId)
    → s.active_op ≡ none
    → start_id_operation s w op key new_id ≡ (
      (accept_operation s w op key (some new_id)).0,
      (accept_operation s w op key (some new_id)).1,
      fresh_start s.next_op_seq,
    )
unfolding start_id_operation
start_id_fresh s w op key new_id nothing = rw nothing

start_joined :
    (s : Supervisor) (w : World) (op : Operation) (key : Text) (channel : ℕ)
    → s.active_op ≡ some channel
    → s.active_op_key ≡ some key
    → s.active_op_cancelled ≡ false
    → start_operation s w op (some key)
      ≡ (s, w, record { ack = ok (some (w.ops channel).op_id); spawned = none })
unfolding start_operation
start_joined s w op key channel active same running =
    rw active (ground (arith, opt_text_eq_iff (some key) s.active_op_key))

start_refused :
    (s : Supervisor) (w : World) (op : Operation) (key : Option Text) (channel : ℕ)
    → s.active_op ≡ some channel
    → key ≢ s.active_op_key
    → start_operation s w op key
      ≡ (s, w, record { ack = err (already_running s (w.ops channel)); spawned = none })
unfolding start_operation
start_refused s w op key channel active other =
    rw active (ground (arith, opt_text_eq_iff key s.active_op_key))

-- The channel of an operation that was just accepted holds it.
accepted_op :
    (s : Supervisor) (w : World) (op : Operation) (key : Option Text) (new_id : Option InstanceId)
    → (accept_operation s w op key new_id).1.ops s.next_op_seq ≡ op
unfolding accept_operation
accepted_op s w op key new_id = ground arith

-- Where no operation is active, one is accepted under any key. A request with the same key then
-- joins it and changes nothing, whatever operation it brings; a request with any other key, or with
-- none, is refused with the operation's name and kind, and changes nothing.
pub retry_joins :
    (s : Supervisor) (w : World) (op op' : Operation) (key : Text) (key' : Option Text)
    → s.active_op ≡ none
    → key' ≢ some key
    → let (s', w', answer) = start_operation s w op (some key) in
      (answer ≡ fresh_start s.next_op_seq)
      × (start_operation s' w' op' (some key)
          ≡ (s', w', record { ack = ok (some op.op_id); spawned = none }))
      × (start_operation s' w' op' key'
          ≡ (s', w', record { ack = err (already_running s op); spawned = none }))
unfolding accept_operation already_running
retry_joins s w op op' key key' nothing other =
    let (s', w') = accept_operation s w op (some key) none in
    let same = accepted_op s w op (some key) none in
    rw (start_fresh s w op (some key) nothing) (
      refl,
      start_joined s' w' op' key s.next_op_seq refl refl refl
          ∙ ap (λ (o : Operation). (s', w', joined_answer o.op_id)) same,
      start_refused s' w' op' key' s.next_op_seq refl other
          ∙ ap (λ (o : Operation). (s', w', refused_answer s' o)) same,
    )

start_id_joined :
    (s : Supervisor) (w : World) (op : Operation) (key : Text) (channel : ℕ)
    (new_id active_id : InstanceId)
    → s.active_op ≡ some channel
    → s.active_op_key ≡ some key
    → s.active_op_cancelled ≡ false
    → s.active_op_new_id ≡ some active_id
    → start_id_operation s w op (some key) new_id
      ≡ (s, w, record { ack = ok (some ((w.ops channel).op_id, active_id)); spawned = none })
unfolding start_id_operation
start_id_joined s w op key channel new_id active_id active same running id_known =
    rw active (ground (arith, opt_text_eq_iff (some key) s.active_op_key))

-- Where no operation is active, a clone is accepted under any key. If it is retried under that key,
-- the answer is the instance id that the first request is creating, not its own, and nothing changes.
pub clone_retry_joins :
    (s : Supervisor) (w : World) (op op' : Operation) (key : Text) (new_id new_id' : InstanceId)
    → s.active_op ≡ none
    → let (s', w', answer) = start_id_operation s w op (some key) new_id in
      (answer ≡ fresh_start s.next_op_seq)
      × (start_id_operation s' w' op' (some key) new_id'
          ≡ (s', w', record { ack = ok (some (op.op_id, new_id)); spawned = none }))
unfolding accept_operation
clone_retry_joins s w op op' key new_id new_id' nothing =
    let (s', w') = accept_operation s w op (some key) (some new_id) in
    rw (start_id_fresh s w op (some key) new_id nothing) (
      refl,
      start_id_joined s' w' op' key s.next_op_seq new_id' new_id refl refl refl refl
          ∙ ap (λ (o : Operation). (s', w', joined_id_answer o.op_id new_id))
              (accepted_op s w op (some key) (some new_id)),
    )

-- `JoinActive` answers every request as `RunOperation` would.
pub join_active-start :
    (s : Supervisor) (w : World) (op : Operation) (key : Option Text)
    → join_active s w key ≡ (start_operation s w op key).2.ack
unfolding join_active start_operation
join_active-start s w op key = ground arith

cancel_active :
    (s : Supervisor) (w : World) (op_id : Text) (channel : ℕ)
    → s.active_op ≡ some channel
    → s.op_cancel ≡ some channel
    → (w.ops channel).op_id ≡ op_id
    → cancel_operation s w op_id ≡ (
      record s { active_op_cancelled = true },
      record w { cancels = update w.cancels channel true },
      true,
    )
unfolding cancel_operation
cancel_active s w op_id channel active cancel same =
    ground (arith, text_eq_iff (w.ops channel).op_id op_id)

start_after_cancel :
    (s : Supervisor) (w : World) (op : Operation) (key : Text) (channel : ℕ)
    → s.active_op ≡ some channel
    → s.active_op_key ≡ some key
    → s.active_op_cancelled ≡ true
    → start_operation s w op (some key) ≡ (
      (accept_operation s w op (some key) none).0,
      (accept_operation s w op (some key) none).1,
      fresh_start s.next_op_seq,
    )
unfolding start_operation
start_after_cancel s w op key channel active same stopped =
    rw active (ground (arith, opt_text_eq_iff (some key) s.active_op_key))

-- Where no operation is active, one is accepted under a key and then cancelled. A retry under that
-- key starts a new one instead of joining it; the old operation stays told to stop, and its late
-- completion leaves the new one in place.
pub retry_after_cancel :
    (s : Supervisor) (w : World) (op op' : Operation) (key : Text)
    → s.active_op ≡ none
    → let (s₁, w₁, first) = start_operation s w op (some key) in
      let (s₂, w₂, sent) = cancel_operation s₁ w₁ op.op_id in
      let (s₃, w₃, second) = start_operation s₂ w₂ op' (some key) in
      (sent ≡ true)
      × (second ≡ fresh_start (s.next_op_seq + 1))
      × (operation_done s₃ s.next_op_seq ≡ s₃)
      × (w₃.cancels s.next_op_seq ≡ true)
      × (w₃.ops (s.next_op_seq + 1) ≡ op')
unfolding accept_operation operation_done
retry_after_cancel s w op op' key nothing =
    let (s₁, w₁) = accept_operation s w op (some key) none in
    let s₂ = record s₁ { active_op_cancelled = true } in
    let w₂ = record w₁ { cancels = update w₁.cancels s.next_op_seq true } in
    rw (start_fresh s w op (some key) nothing) (
      rw
        (cancel_active s₁ w₁ op.op_id s.next_op_seq refl refl
          (ap (λ (o : Operation). o.op_id) (accepted_op s w op (some key) none)))
        (rw (start_after_cancel s₂ w₂ op' key s.next_op_seq refl refl refl)
          (refl, refl, ground arith, ground arith, ground arith)))
