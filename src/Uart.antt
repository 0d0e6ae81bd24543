-- ===== src/Uart.antt =====
-- components/uart-comp/uart-comp.cpp: a serial port, whose driver gives the object a queue of events.
pub mod Events
use esp32sx_c_plus_wrappers.Base.{
  ℕ, ◌*◌, List, [], ◌∷◌, ◌==◌, if◌then◌else◌, Bool, true, false, not, get_or,
}
use esp32sx_c_plus_wrappers.Base.Int.{ℤ, pos, negsuc}
use esp32sx_c_plus_wrappers.Driver.{
  Env, World, M, pure, ask, ask_int, tell, gets, modify, ◌>>=◌, ◌>>◌, ◌⨾◌,
}

pub record Uart : Type 0 where
  pub uart_queue : ℕ
  pub port_num : ℕ

-- The fields of `uart_config_t` as numbers, in the order of the source.
pub record Config : Type 0 where
  pub baud_rate : ℕ
  pub data_bits : ℕ
  pub parity : ℕ
  pub stop_bits : ℕ
  pub flow_ctrl : ℕ
  pub rx_flow_ctrl_thresh : ℕ
  pub source_clk : ℕ

-- `driver_install` has the port, both buffers' sizes and the queue's length, and also answers with
-- the queue, as the first of its bytes.
pub data Call : Type 0 where
  driver_install : ℕ → ℕ → ℕ → ℕ → Call
  param_config : ℕ → Config → Call
  set_pin : ℕ → ℤ → ℤ → ℤ → ℤ → Call
  driver_delete uart_flush : ℕ → Call
  read_bytes : ℕ → ℕ → ℕ → Call
  write_bytes : ℕ → List ℕ → Call
  queue_reset : ℕ → Call
  queue_receive : ℕ → ℕ → Call
  set_baudrate pattern_queue_reset : ℕ → ℕ → Call
  enable_pattern : ℕ → ℕ → ℕ → ℕ → ℕ → ℕ → Call
  disable_pattern pattern_pop_pos pattern_get_pos : ℕ → Call

abbrev pub UartM : Type 0 → Type 0
UartM A = M Uart Call A

abbrev pub buf_size : ℕ
buf_size = 1024

-- UART_PIN_NO_CHANGE is -1.
abbrev pub no_change : ℤ
no_change = negsuc 0

-- 115200 baud, 8 data bits, no parity, one stop bit, no flow control, the APB clock, by the numbers
-- of the driver.
abbrev pub default_config : Config
default_config = record {
  baud_rate = 115200;
  data_bits = 3;
  parity = 0;
  stop_bits = 1;
  flow_ctrl = 0;
  rx_flow_ctrl_thresh = 0;
  source_clk = 0;
}

module _ (env : Env Call) where
  -- The driver with two buffers of `BUF_SIZE * 2` bytes; the queue is written if it succeeds.
  pub install : ℕ → UartM ℕ
  install length w =
      let c = driver_install w.dev.port_num (buf_size * 2) (buf_size * 2) length in
      (
        env.code w.log c,
        record {
          dev = record w.dev {
            uart_queue =
                if env.code w.log c == 0
                then get_or (env.bytes w.log c) 0 w.dev.uart_queue
                else w.dev.uart_queue;
          };
          log = c ∷ w.log;
        },
      )

  pub set_pins : ℤ → ℤ → ℤ → ℤ → UartM ℕ
  set_pins tx rx rts cts = do o ← gets (λ o. o); ask env (set_pin o.port_num tx rx rts cts)

  abbrev pub configure : Config → UartM ℕ
  configure config = do o ← gets (λ o. o); ask env (param_config o.port_num config)

  -- `init()`, whose queue has 10 places, and `init(uart_config)`, whose queue has 20.
  pub init : UartM ℕ
  unfolding install set_pins
  init = install 10 ⨾ configure default_config ⨾ set_pins no_change no_change no_change no_change

  pub init_config : Config → UartM ℕ
  unfolding install set_pins
  init_config config =
      install 20 ⨾ configure config ⨾ set_pins no_change no_change no_change no_change

  unfoldable pub destroy : UartM (Unit {0})
  destroy = do o ← gets (λ o. o); tell env (driver_delete o.port_num)

  unfoldable pub read : ℕ → ℕ → UartM ℤ
  read length wait = do o ← gets (λ o. o); ask_int env (read_bytes o.port_num length wait)

  unfoldable pub write : List ℕ → UartM ℤ
  write bytes = do o ← gets (λ o. o); ask_int env (write_bytes o.port_num bytes)

  pub flush : UartM ℕ
  flush = do
    o ← gets (λ o. o)
    err ← ask env (uart_flush o.port_num)
    tell env (queue_reset o.uart_queue)
    pure err

  unfoldable pub baudrate : ℕ → UartM ℕ
  baudrate rate = do o ← gets (λ o. o); ask env (set_baudrate o.port_num rate)

  pub wait_rx : ℕ → UartM ℕ
  wait_rx wait = do o ← gets (λ o. o); ask env (queue_receive o.uart_queue wait)

  unfoldable pub detect_pattern : ℕ → ℕ → ℕ → UartM ℕ
  detect_pattern c num size = do
    o ← gets (λ o. o)
    tell env (pattern_queue_reset o.port_num size)
    ask env (enable_pattern o.port_num c num 8 2 2)

  unfoldable pub stop_pattern : UartM ℕ
  stop_pattern = do o ← gets (λ o. o); ask env (disable_pattern o.port_num)

  unfoldable pub get_next_pattern : UartM ℤ
  get_next_pattern = do o ← gets (λ o. o); ask_int env (pattern_pop_pos o.port_num)

  unfoldable pub check_next_pattern : UartM Bool
  check_next_pattern = do
    o ← gets (λ o. o)
    at ← ask_int env (pattern_get_pos o.port_num)
    pure (elim at [ pos n ↦ true | negsuc n ↦ not (n == 0) ])
