-- ===== src/Events/Loops.antt =====
-- The two loops of components/events-comp/event_loop.cpp: when they are alive, and what the class
-- believes of them.
use esp32sx_c_plus_wrappers.Base.{
  ℕ, List, ◌∷◌, ◌==◌, if◌then◌else◌, ◌≡◌, ◌≢◌, subst, Option, none, some, arith, true,
}
use esp32sx_c_plus_wrappers.Driver.{Env, World}
use esp32sx_c_plus_wrappers.Driver.Handles.{Handles, AllAlive}
use esp32sx_c_plus_wrappers.Events.{
  EventLoop, Call, loop_create, loop_delete, loop_run, register_with, unregister_with, post_to,
  first_or_null, init, deinit, post, init_default, deinit_default, register_event_default,
  register_default,
}

abbrev pub handle_after : Env Call → List Call → Call → ℕ → ℕ
handle_after env log loop_create h =
    if env.code log loop_create == 0 then first_or_null (env.bytes log loop_create) else h
handle_after env log (loop_delete _) h = if env.code log (loop_delete h) == 0 then 0 else h
handle_after env log _ h = h

abbrev pub handle_used : Call → Option ℕ
handle_used (loop_delete h) = some h
handle_used (loop_run h _) = some h
handle_used (register_with h _ _ _) = some h
handle_used (unregister_with h _ _) = some h
handle_used (post_to h _ _ _) = some h
handle_used _ = none

abbrev pub handles : Env Call → Handles Call
handles env = record { after = handle_after env; used = handle_used }

module _ (env : Env Call) where
  post-deinit_log :
      (base id : ℕ) (bytes : List ℕ) (w : World EventLoop Call)
      → w.dev.event_loop ≢ 0
      → (post env base id bytes (deinit env w).1).1.log
        ≡ post_to w.dev.event_loop base id bytes ∷ loop_delete w.dev.event_loop ∷ w.log
  unfolding post deinit
  post-deinit_log base id bytes w h = ground arith

  deleted-alive :
      (l base id : ℕ) (bytes : List ℕ) (log : List Call)
      → l ≢ 0
      → env.code log (loop_delete l) ≡ 0
      → ¬ AllAlive (handles env) (post_to l base id bytes ∷ loop_delete l ∷ log)
  deleted-alive l base id bytes log h ok (posted, deleted) = ground (arith, posted.0, deleted.0.0)

  -- `deinit` keeps the handle: an event that is posted after the loop has been deleted goes to the
  -- deleted loop, so that the history uses a handle that is not alive, and `init` makes no new loop.
  pub post-deinit :
      (base id : ℕ) (bytes : List ℕ) (w : World EventLoop Call)
      → w.dev.event_loop ≢ 0
      → (deinit env w).0 ≡ 0
      → ¬ AllAlive (handles env) (post env base id bytes (deinit env w).1).1.log
        × ((init env (deinit env w).1).1 ≡ (deinit env w).1)
  unfolding post deinit init
  post-deinit base id bytes w h ok =
      let e = post-deinit_log base id bytes w h in
      (
        (λ all.
            deleted-alive w.dev.event_loop base id bytes w.log h (ground arith)
              (subst (AllAlive (handles env)) e all)),
        ground arith,
      )

  -- Handlers of the default loop are registered once the loop has been made, and it is made once:
  -- after the first call that succeeds, later calls only register.
  pub register_event_default-running :
      (handler base id : ℕ) (w : World EventLoop Call)
      → (init_default env w).0 ≡ 0
      → (let v = (register_event_default env handler base id w).1 in
          (register_event_default env handler base id v).1.log
          ≡ register_default base id handler ∷ v.log)
  unfolding register_event_default init_default
  register_event_default-running handler base id w h = ground arith

  -- `deinitDefault` leaves the class believing that the loop runs: `initDefault` after it asks for
  -- no new loop, and returns ESP_OK.
  pub init_default-deinit_default :
      (w : World EventLoop Call)
      → w.dev.default_running ≡ true
      → init_default env (deinit_default env w).1 ≡ (0, (deinit_default env w).1)
  unfolding init_default deinit_default
  init_default-deinit_default w h = ground arith
