-- ===== src/Queue/Safety.antt =====
-- The handle of components/queue-comp/queue-comp.cpp.
use esp32sx_c_plus_wrappers.Base.{
  ℕ, List, [], ◌∷◌, ◌==◌, ◌≡◌, ◌≢◌, refl, sym, ◌∙◌, Option, none, some, arith, Bool-cases, inl, inr,
}
use esp32sx_c_plus_wrappers.Driver.{Env, World}
use esp32sx_c_plus_wrappers.Driver.Handles.{Handles, alive, AllAlive}
use esp32sx_c_plus_wrappers.Queue.{
  Queue, Call, queue_create, queue_delete, queue_reset, queue_messages_waiting, queue_send,
  queue_receive, queue_peek, queue_overwrite, guarded, create, remove, send, receive, peek,
  overwrite, reset, count,
}

-- What the calls do with the handle.
abbrev pub handle_after : Env Call → List Call → Call → ℕ → ℕ
handle_after env log (queue_create n size) h = env.code log (queue_create n size)
handle_after env log (queue_delete _) h = 0
handle_after env log _ h = h

abbrev pub handle_used : Call → Option ℕ
handle_used (queue_create _ _) = none
handle_used (queue_delete h) = some h
handle_used (queue_reset h) = some h
handle_used (queue_messages_waiting h) = some h
handle_used (queue_send h _ _) = some h
handle_used (queue_receive h _) = some h
handle_used (queue_peek h _) = some h
handle_used (queue_overwrite h _) = some h

abbrev pub handles : Env Call → Handles Call
handles env = record { after = handle_after env; used = handle_used }

pub data Op : Type 0 where
  creating : ℕ → ℕ → Op
  removing resetting counting : Op
  sending : List ℕ → ℕ → Op
  receiving peeking : ℕ → Op
  overwriting : List ℕ → Op

-- The object holds the handle that is alive, and has used no other.
pub record Held (env : Env Call) (w : World Queue Call) : Type 0 where
  pub holds : w.dev.queue_handle ≡ alive (handles env) w.log
  pub uses : AllAlive (handles env) w.log

module _ (env : Env Call) where
  abbrev pub run : Op → World Queue Call → World Queue Call
  run (creating n size) w = (create env n size w).1
  run removing w = (remove env w).1
  run resetting w = (reset env w).1
  run counting w = (count env w).1
  run (sending item wait) w = (send env item wait w).1
  run (receiving wait) w = (receive env wait w).1
  run (peeking wait) w = (peek env wait w).1
  run (overwriting item) w = (overwrite env item w).1

  abbrev pub run_all : List Op → World Queue Call → World Queue Call
  run_all [] w = w
  run_all (op ∷ ops) w = run_all ops (run op w)

  -- A call that uses the handle, and leaves it alive.
  use-Held :
      (c : Call) (w : World Queue Call)
      → Held env w
      → w.dev.queue_handle ≢ 0
      → handle_used c ≡ some w.dev.queue_handle
      → ((h : ℕ) → handle_after env w.log c h ≡ h)
      → Held env (record w { log = c ∷ w.log })
  use-Held c w h there u kept = record {
    holds = h.holds ∙ sym (kept _);
    uses = (rw u (h.holds, there), h.uses);
  }

  guarded-Held :
      (call : ℕ → Call) (w : World Queue Call)
      → ((h : ℕ) → handle_used (call h) ≡ some h)
      → ((h k : ℕ) → handle_after env w.log (call h) k ≡ k)
      → Held env w
      → Held env (guarded env call w).1
  guarded-Held call w u kept h = elim (Bool-cases (w.dev.queue_handle == 0)) [
    | inl none_there ↦ rw none_there h
    | inr there ↦
        rw there
          (use-Held (call w.dev.queue_handle) w h (ground arith) (u _) (kept w.dev.queue_handle))
  ]

  remove-Held : (w : World Queue Call) → Held env w → Held env (remove env w).1
  unfolding remove
  remove-Held w h = elim (Bool-cases (w.dev.queue_handle == 0)) [
    | inl none_there ↦ rw none_there h
    | inr there ↦ rw there (record { holds = refl; uses = ((h.holds, ground arith), h.uses) })
  ]

  reset-guarded : (w : World Queue Call) → (reset env w).1 ≡ (guarded env queue_reset w).1
  unfolding reset
  reset-guarded w = ground arith

  count-guarded :
      (w : World Queue Call) → (count env w).1 ≡ (guarded env queue_messages_waiting w).1
  unfolding count
  count-guarded w = ground arith

  run-Held : (op : Op) (w : World Queue Call) → Held env w → Held env (run op w)
  unfolding create send receive peek overwrite
  run-Held (creating n size) w h = record { holds = refl; uses = (tt, h.uses) }
  run-Held removing w h = remove-Held w h
  run-Held resetting w h =
      rw (reset-guarded w) (guarded-Held queue_reset w (λ _. refl) (λ _ _. refl) h)
  run-Held counting w h =
      rw (count-guarded w) (guarded-Held queue_messages_waiting w (λ _. refl) (λ _ _. refl) h)
  run-Held (sending item wait) w h =
      guarded-Held (λ q. queue_send q item wait) w (λ _. refl) (λ _ _. refl) h
  run-Held (receiving wait) w h =
      guarded-Held (λ q. queue_receive q wait) w (λ _. refl) (λ _ _. refl) h
  run-Held (peeking wait) w h = guarded-Held (λ q. queue_peek q wait) w (λ _. refl) (λ _ _. refl) h
  run-Held (overwriting item) w h =
      guarded-Held (λ q. queue_overwrite q item) w (λ _. refl) (λ _ _. refl) h

  -- No sequence of operations of a queue object uses a handle that `create` has not given, or that
  -- `remove` has deleted, or NULL.
  pub run_all-Held : (ops : List Op) (w : World Queue Call) → Held env w → Held env (run_all ops w)
  run_all-Held [] w h = h
  run_all-Held (op ∷ ops) w h = run_all-Held ops (run op w) (run-Held op w h)
