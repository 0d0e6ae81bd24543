-- ===== src/Timer.antt =====
-- components/timer-comp: one class for two kinds of timers, the software timers of esp_timer and the
-- hardware timers of the driver. `soft_timer` says which one an object is.
pub mod Kinds
mod Tests
use esp32sx_c_plus_wrappers.Base.{
  ℕ, List, ◌∷◌, ◌+◌, ◌%◌, ◌^◌, ◌==◌, if◌then◌else◌, Bool, true, false, not, Option, none, some,
}
use esp32sx_c_plus_wrappers.Driver.{Env, World, M, pure, ask, tell, gets, modify, ◌>>=◌, ◌>>◌, ◌⨾◌}

-- `handle` is the software timer's; a configuration is a number.
pub record Timer : Type 0 where
  pub config : ℕ
  pub group : ℕ
  pub timer_id : ℕ
  pub args : ℕ
  pub soft_timer : Bool
  pub soft_handle : ℕ

-- The driver's calls begin with `hw`, those of esp_timer with `esp`. `esp_create` also answers with
-- the handle, as the first of its bytes.
pub data Call : Type 0 where
  hw_init : ℕ → ℕ → ℕ → Call
  hw_set_counter hw_set_alarm hw_set_auto_reload : ℕ → ℕ → ℕ → Call
  hw_start hw_pause hw_deinit hw_enable_intr hw_disable_intr hw_get_counter hw_get_auto_reload
        hw_clr_intr :
      ℕ → ℕ → Call
  hw_isr_add : ℕ → ℕ → ℕ → Call
  esp_start_once esp_start_periodic : ℕ → ℕ → Call
  esp_stop esp_delete esp_create : ℕ → Call
  esp_get_time : Call

abbrev pub TimerM : Type 0 → Type 0
TimerM A = M Timer Call A

abbrev pub esp_fail : ℕ
esp_fail = 4294967295

abbrev pub timer_autoreload_dis : ℕ
timer_autoreload_dis = 0

abbrev pub to_number : Bool → ℕ
to_number true = 1
to_number false = 0

abbrev pub first_or : ℕ → List ℕ → ℕ
first_or h (x ∷ _) = x
first_or h _ = h

module _ (env : Env Call) where
  -- `if (soft_timer) return ESP_FAIL;` and then a call of the driver.
  abbrev pub hard : (ℕ → ℕ → Call) → TimerM ℕ
  hard call w =
      if w.dev.soft_timer then (esp_fail, w) else ask env (call w.dev.group w.dev.timer_id) w

  pub enable : TimerM ℕ
  enable = hard hw_enable_intr

  pub disable : TimerM ℕ
  disable = hard hw_disable_intr

  pub init : ℕ → TimerM ℕ
  unfolding enable
  init config = hard (λ group id. hw_init group id config) ⨾ (do
    o ← gets (λ o. o)
    tell env (hw_set_counter o.group o.timer_id 0)
    modify (λ o. record o { config = config })
    enable)

  pub start : TimerM ℕ
  start = hard hw_start

  -- The second `start` does not look at the kind.
  pub start_timeout : ℕ → Bool → TimerM ℕ
  start_timeout timeout_us periodic = do
    o ← gets (λ o. o)
    ask env (
        if periodic
        then esp_start_periodic o.soft_handle timeout_us
        else esp_start_once o.soft_handle timeout_us)

  pub stop : TimerM ℕ
  stop w =
      if w.dev.soft_timer
      then ask env (esp_stop w.dev.soft_handle) w
      else ask env (hw_pause w.dev.group w.dev.timer_id) w

  pub deinit : TimerM ℕ
  deinit = hard hw_deinit

  pub create : ℕ → TimerM ℕ
  create create_args w =
      let c = esp_create create_args in
      if w.dev.soft_timer
      then (
        env.code w.log c,
        record {
          dev = record w.dev {
            soft_handle =
                if env.code w.log c == 0
                then first_or w.dev.soft_handle (env.bytes w.log c)
                else w.dev.soft_handle;
          };
          log = c ∷ w.log;
        },
      )
      else (esp_fail, w)

  pub remove : TimerM ℕ
  unfolding stop
  remove = do
    o ← gets (λ o. o)
    if o.soft_timer then (do stop; ask env (esp_delete o.soft_handle)) else pure esp_fail

  pub callback : ℕ → ℕ → TimerM ℕ
  callback handler args = do
    o ← gets (λ o. o)
    if o.soft_timer then pure esp_fail else (do
      modify (λ o. record o { args = args })
      ask env (hw_isr_add o.group o.timer_id handler))

  pub get_time : TimerM ℕ
  get_time w =
      if w.dev.soft_timer
      then ask env esp_get_time w
      else ask env (hw_get_counter w.dev.group w.dev.timer_id) w

  pub set_alarm : ℕ → TimerM (Unit {0})
  unfolding get_time
  set_alarm alarm_us = do
    o ← gets (λ o. o)
    if o.soft_timer then pure tt else (do
      now ← get_time
      tell env (hw_set_alarm o.group o.timer_id ((now + alarm_us) % 2 ^ 64)))

  -- `autoreload()`
  pub autoreload : TimerM Bool
  autoreload = do
    o ← gets (λ o. o)
    if o.soft_timer then pure false else (do
      reload ← ask env (hw_get_auto_reload o.group o.timer_id)
      pure (reload == timer_autoreload_dis))

  -- `autoreload(bool en)`
  pub set_autoreload : Bool → TimerM (Unit {0})
  set_autoreload en = do
    o ← gets (λ o. o)
    if o.soft_timer
        then pure tt
        else tell env (hw_set_auto_reload o.group o.timer_id (to_number en))

  -- The interrupt of timer 0 of group 0, whichever timer the object is.
  pub clear : TimerM (Unit {0})
  clear = do o ← gets (λ o. o); if o.soft_timer then pure tt else tell env (hw_clr_intr 0 0)

  pub destroy : TimerM (Unit {0})
  unfolding remove deinit
  destroy = do remove; deinit; pure tt
