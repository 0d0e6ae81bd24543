-- ===== src/Uart/Events.antt =====
-- The queue of events of components/uart-comp/uart-comp.cpp.
use esp32sx_c_plus_wrappers.Base.{ℕ, ◌==◌, if◌then◌else◌, ◌≡◌, ◌≢◌, arith, none, some, get_or}
use esp32sx_c_plus_wrappers.Driver.{Env, World}
use esp32sx_c_plus_wrappers.Driver.Handles.{Handles, alive, AllAlive}
use esp32sx_c_plus_wrappers.Uart.{
  Uart, Config, Call, driver_install, queue_reset, queue_receive, driver_delete, install, set_pins,
  init, init_config, flush, wait_rx,
}

-- The driver makes a queue, and deletes it with itself.
abbrev pub handles : Env Call → Handles Call
handles env = record {
  after = λ log c q. elim c [
    | driver_install p rx tx n ↦
        if env.code log (driver_install p rx tx n) == 0
        then get_or (env.bytes log (driver_install p rx tx n)) 0 q
        else q
    | driver_delete p ↦ 0
    | _ ↦ q
  ];
  used = λ c. elim c [ queue_reset q ↦ some q | queue_receive q wait ↦ some q | _ ↦ none ];
}

-- The object holds the queue that is alive, and has used no other.
pub record Held (env : Env Call) (w : World Uart Call) : Type 0 where
  pub holds : w.dev.uart_queue ≡ alive (handles env) w.log
  pub uses : AllAlive (handles env) w.log

module _ (env : Env Call) where
  -- `init` and `init(uart_config)`, whatever fails in them, leave the object with the queue of the
  -- driver if there is one; and with one, `flush` and `waitRX` use it.
  pub init-Held :
      (config : Config) (w : World Uart Call)
      → Held env w
      → Held env (init env w).1 × Held env (init_config env config w).1
  unfolding init init_config install set_pins
  init-Held config w h = (ground arith, ground arith)

  pub flush-Held :
      (wait : ℕ) (w : World Uart Call)
      → w.dev.uart_queue ≢ 0
      → Held env w
      → Held env (flush env w).1 × Held env (wait_rx env wait w).1
  unfolding flush wait_rx
  flush-Held wait w there h = (ground arith, ground arith)
