-- ===== src/Sntp.antt =====
-- components/sntp-client-comp/sntp-client.cpp: the time service. Its semaphore is a static variable
-- of the file, which all objects share; times are the driver's and stay there.
pub mod Semaphore
mod Tests
use esp32sx_c_plus_wrappers.Base.{
  ℕ, ◌*◌, ◌%◌, ◌^◌, List, ◌∷◌, ◌==◌, if◌then◌else◌, Bool, true, false,
}
use esp32sx_c_plus_wrappers.Driver.{Env, World, M, pure, ask, tell, gets, modify, ◌>>=◌, ◌>>◌}

-- The static semaphore, 0 for NULL, and the object's server.
pub record Sntp : Type 0 where
  pub semaphore : ℕ
  pub server : List ℕ

pub data Call : Type 0 where
  create_binary : Call
  semaphore_delete semaphore_give : ℕ → Call
  semaphore_take : ℕ → ℕ → Call
  set_notification_cb set_mode_poll sntp_start sntp_stop sntp_restart get_sync_status : Call
  set_server_name : List ℕ → Call
  set_sync_interval : ℕ → Call
  read_clock get_system_time : Call
  set_system_time : ℕ → ℕ → Call

abbrev pub SntpM : Type 0 → Type 0
SntpM A = M Sntp Call A

-- SNTP_SYNC_STATUS_COMPLETED
abbrev pub status_completed : ℕ
status_completed = 1

module _ (env : Env Call) where
  -- Seconds to milliseconds, as a `uint32_t`.
  pub set_interval : ℕ → SntpM (Unit {0})
  set_interval interval = tell env (set_sync_interval (interval * 1000 % 2 ^ 32))

  pub init : ℕ → SntpM (Unit {0})
  unfolding set_interval
  init interval = do
    o ← gets (λ o. o)
    if o.semaphore == 0
        then (do
          s ← ask env create_binary
          modify (λ o. record o { semaphore = s })
          tell env set_notification_cb
          tell env set_mode_poll
          tell env (set_server_name o.server)
          set_interval interval
          tell env sntp_start
          tell env (semaphore_take s 0))
        else pure tt

  -- `time_sync_notification_cb`
  pub notified : SntpM (Unit {0})
  notified = do o ← gets (λ o. o); tell env (semaphore_give o.semaphore)

  -- The status is asked for when the semaphore was taken, and once more for the message of a
  -- failure.
  pub sync_wait : ℕ → SntpM Bool
  sync_wait timeout = do
    o ← gets (λ o. o)
    if o.semaphore == 0 then pure false else (do
      tell env sntp_restart
      taken ← ask env (semaphore_take o.semaphore timeout)
      status ← if taken == 1 then ask env get_sync_status else pure 0
      if status == status_completed then pure true else (do tell env get_sync_status; pure false))

  pub destroy : SntpM (Unit {0})
  destroy = do o ← gets (λ o. o); tell env sntp_stop; tell env (semaphore_delete o.semaphore)

  -- `time`; the broken-down time is not kept.
  unfoldable pub get_time : SntpM ℕ
  get_time = ask env read_clock

  -- The clock is read again, and `localtime` gives the second reading's parts.
  unfoldable pub get_local_time : {Tm : Type 0} → (ℕ → Tm) → SntpM Tm
  unfolding get_time
  get_local_time localtime = do get_time; now ← ask env read_clock; pure (localtime now)

  unfoldable pub set_epoch : ℕ → ℕ → SntpM (Unit {0})
  set_epoch sec us = tell env (set_system_time sec us)

  -- The seconds of the system's time.
  unfoldable pub get_epoch : SntpM ℕ
  get_epoch = ask env get_system_time
