-- ===== src/Events.antt =====
-- components/events-comp: an event loop behind its handle, where 0 is NULL, and the default loop,
-- of which the class knows whether it runs.
pub mod Loops
mod Tests
use esp32sx_c_plus_wrappers.Base.{
  ℕ, List, ◌∷◌, ◌==◌, if◌then◌else◌, Bool, true, false, not, ◌||◌, Option, none, some,
}
use esp32sx_c_plus_wrappers.Base.Int.{ℤ}
use esp32sx_c_plus_wrappers.Driver.{Env, World, M, pure, ask, tell, gets, modify, ◌>>=◌, ◌>>◌}

-- The handle of one object, and the static field.
pub record EventLoop : Type 0 where
  pub event_loop : ℕ
  pub default_running : Bool

-- An event is its base and its id; a handler is a number. `loop_create` answers with an error code,
-- and with a loop as its bytes' first element.
pub data Call : Type 0 where
  loop_create : Call
  loop_delete : ℕ → Call
  loop_run : ℕ → ℕ → Call
  create_default delete_default : Call
  register_with : ℕ → ℕ → ℕ → ℕ → Call
  unregister_with : ℕ → ℕ → ℕ → Call
  register_default : ℕ → ℕ → ℕ → Call
  unregister_default : ℕ → ℕ → Call
  post_to : ℕ → ℕ → ℕ → List ℕ → Call
  post_default_to : ℕ → ℕ → List ℕ → Call
  post_isr_to : ℕ → ℕ → ℕ → List ℕ → Call
  post_default_isr_to : ℕ → ℕ → List ℕ → Call

abbrev pub LoopM : Type 0 → Type 0
LoopM A = M EventLoop Call A

abbrev pub esp_fail : ℕ
esp_fail = 4294967295

abbrev pub err_invalid_state : ℕ
err_invalid_state = 259

-- The loop that `loop_create` hands out.
abbrev pub first_or_null : List ℕ → ℕ
first_or_null (h ∷ _) = h
first_or_null _ = 0

module _ (env : Env Call) where
  -- `if (event_loop == NULL) return ESP_FAIL; return call(event_loop);`
  abbrev pub guarded : (ℕ → Call) → LoopM ℕ
  guarded call w = if w.dev.event_loop == 0 then (esp_fail, w) else (
    env.code w.log (call w.dev.event_loop),
    record w { log = call w.dev.event_loop ∷ w.log },
  )

  -- Both forms of `init`: a loop that fails to be made leaves the handle as it was.
  pub init : LoopM ℕ
  init w =
      if w.dev.event_loop == 0
      then (let w' : World EventLoop Call = record w { log = loop_create ∷ w.log } in
          if env.code w.log loop_create == 0
          then (
            0,
            record w' {
              dev = record w.dev { event_loop = first_or_null (env.bytes w.log loop_create) };
            },
          )
          else (env.code w.log loop_create, w'))
      else (esp_fail, w)

  pub deinit : LoopM ℕ
  deinit = guarded loop_delete

  pub init_default : LoopM ℕ
  init_default = do
    o ← gets (λ o. o)
    err ← if o.default_running then pure 0 else ask env create_default
    let running = err == 0 || err == err_invalid_state
    modify (λ o. record o { default_running = running })
    pure (if running then 0 else err)

  pub deinit_default : LoopM ℕ
  deinit_default = ask env delete_default

  unfoldable pub run : ℕ → LoopM ℕ
  run timeout = guarded (λ h. loop_run h timeout)

  -- The handler's argument is the object, not the one that the caller gives.
  unfoldable pub register_event : ℕ → ℕ → ℕ → LoopM ℕ
  register_event handler base id = guarded (λ h. register_with h base id handler)

  unfoldable pub unregister_event : ℕ → ℕ → LoopM ℕ
  unregister_event base id = guarded (λ h. unregister_with h base id)

  pub register_event_default : ℕ → ℕ → ℕ → LoopM ℕ
  unfolding init_default
  register_event_default handler base id = do
    init_default
    ask env (register_default base id handler)

  unfoldable pub unregister_event_default : ℕ → ℕ → LoopM ℕ
  unregister_event_default base id = ask env (unregister_default base id)

  pub post : ℕ → ℕ → List ℕ → LoopM ℕ
  post base id bytes = guarded (λ h. post_to h base id bytes)

  unfoldable pub post_default : ℕ → ℕ → List ℕ → LoopM ℕ
  post_default base id bytes = ask env (post_default_to base id bytes)

  -- The posts from an interrupt; the answer whether a task woke is the caller's.
  unfoldable pub post_isr : ℕ → ℕ → List ℕ → LoopM ℕ
  post_isr base id bytes = guarded (λ h. post_isr_to h base id bytes)

  unfoldable pub post_default_isr : ℕ → ℕ → List ℕ → LoopM ℕ
  post_default_isr base id bytes = ask env (post_default_isr_to base id bytes)
