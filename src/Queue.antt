-- ===== src/Queue.antt =====
-- components/queue-comp: a FreeRTOS queue behind its handle, where 0 is NULL.
pub mod Safety
mod Tests
use esp32sx_c_plus_wrappers.Base.{
  ℕ, List, ◌∷◌, ◌==◌, if◌then◌else◌, Bool, true, false, not, Option, none, some,
}
use esp32sx_c_plus_wrappers.Base.Int.{ℤ, pos, negsuc}
use esp32sx_c_plus_wrappers.Driver.{Env, World, M, pure, ask, tell, gets, modify, ◌>>=◌, ◌>>◌}

pub record Queue : Type 0 where
  pub queue_handle : ℕ

pub data Call : Type 0 where
  queue_create : ℕ → ℕ → Call
  queue_delete queue_reset queue_messages_waiting : ℕ → Call
  queue_send : ℕ → List ℕ → ℕ → Call
  queue_receive queue_peek : ℕ → ℕ → Call
  queue_overwrite : ℕ → List ℕ → Call

abbrev pub QueueM : Type 0 → Type 0
QueueM A = M Queue Call A

module _ (env : Env Call) where
  -- A call with the handle, if there is one: `== pdTRUE`.
  abbrev pub guarded : (ℕ → Call) → QueueM Bool
  guarded call w = if w.dev.queue_handle == 0 then (false, w) else (
    env.code w.log (call w.dev.queue_handle) == 1,
    record w { log = call w.dev.queue_handle ∷ w.log },
  )

  pub create : ℕ → ℕ → QueueM Bool
  create count size = do
    h ← ask env (queue_create count size)
    modify (λ o. record o { queue_handle = h })
    pure (not (h == 0))

  pub remove : QueueM (Unit {0})
  remove = do
    o ← gets (λ o. o)
    if o.queue_handle == 0 then pure tt else (do
      tell env (queue_delete o.queue_handle)
      modify (λ o. record o { queue_handle = 0 }))

  pub send : List ℕ → ℕ → QueueM Bool
  send item wait = guarded (λ h. queue_send h item wait)

  pub receive : ℕ → QueueM Bool
  receive wait = guarded (λ h. queue_receive h wait)

  pub peek : ℕ → QueueM Bool
  peek wait = guarded (λ h. queue_peek h wait)

  pub overwrite : List ℕ → QueueM Bool
  overwrite item = guarded (λ h. queue_overwrite h item)

  pub reset : QueueM (Unit {0})
  reset = do
    o ← gets (λ o. o)
    if o.queue_handle == 0 then pure tt else tell env (queue_reset o.queue_handle)

  pub count : QueueM ℤ
  count = do
    o ← gets (λ o. o)
    if o.queue_handle == 0
        then pure (negsuc 0)
        else (do n ← ask env (queue_messages_waiting o.queue_handle); pure (pos n))
