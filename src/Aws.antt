-- ===== src/Aws.antt =====
-- components/aws-iot-comp: the semaphore that the task of the client (`aws_iot_task`) and the
-- callers of its methods share around their use of the client. The statements between the
-- semaphore's calls are one step each, and the steps of the two tasks interleave.
pub mod Exclusion
pub mod Client
mod Tests
use esp32sx_c_plus_wrappers.Base.{
  ℕ, Bool, true, false, ◌≡◌, ◌≢◌, ◌⊎◌, Option, none, some, if◌then◌else◌,
}

-- What a task does with the client: `aws_iot_task`, and the methods, of which `connect` and
-- `autoReconnect` use it without the semaphore.
pub data Op : Type 0 where
  yielding connecting setting_reconnect subscribing publishing_params publishing updating_shadow
        asking_status :
      Op

abbrev pub takes_semaphore : Op → Bool
takes_semaphore connecting = false
takes_semaphore setting_reconnect = false
takes_semaphore _ = true

-- What may happen: that a wait times out, and that a method without the semaphore is called.
pub record May : Type 0 where
  pub time_out : Bool
  pub skip : Bool

-- Where it stands: before `xSemaphoreTake`, in the call that uses the client, before the status is
-- stored, before `xSemaphoreGive`, or after it.
pub data Pc : Type 0 where
  waiting using_client saving giving done : Pc

-- How long `xSemaphoreTake` waits, in milliseconds; `none` is portMAX_DELAY.
abbrev pub patience : Op → Option ℕ
patience yielding = none
patience connecting = none
patience setting_reconnect = none
patience subscribing = some 1000
patience publishing_params = some 1000
patience publishing = some 100
patience updating_shadow = some 100
patience asking_status = some 100

-- With the semaphore: `status` uses nothing.
abbrev pub after_take : Op → Pc
after_take asking_status = giving
after_take _ = using_client

-- Without it: only `status` looks at what `xSemaphoreTake` returns.
abbrev pub after_timeout : Op → Pc
after_timeout asking_status = done
after_timeout _ = using_client

-- Where an operation starts.
abbrev pub entry : Op → Pc
entry op = if takes_semaphore op then waiting else using_client

abbrev pub after_use : Op → Pc
after_use yielding = saving
after_use connecting = done
after_use setting_reconnect = done
after_use _ = giving

pub data Who : Type 0 where
  yielder caller : Who

-- One step of a task `who` that runs `op`: its place and the semaphore's holder before and after. A
-- semaphore that is given by a task that does not hold it stays as it is.
pub data Move (may : May) (who : Who) (op : Op) (pc : Pc) (holder : Option Who)
    : Pc → Option Who → Type 0 where
  taken : pc ≡ waiting → holder ≡ none → Move may who op pc holder (after_take op) (some who)
  timed_out :
      (ms : ℕ)
      → pc ≡ waiting
      → holder ≢ none
      → patience op ≡ some ms
      → may.time_out ≡ true
      → Move may who op pc holder (after_timeout op) holder
  used : pc ≡ using_client → Move may who op pc holder (after_use op) holder
  saved : pc ≡ saving → Move may who op pc holder giving holder
  given : pc ≡ giving → holder ≡ some who → Move may who op pc holder done none
  given_unheld : pc ≡ giving → holder ≢ some who → Move may who op pc holder done holder

-- The task of the client runs `aws_iot_task` again and again; the caller runs one method at a time.
pub record System : Type 0 where
  pub task : Pc
  pub op : Op
  pub call : Pc
  pub holder : Option Who

pub data Step (may : May) (s : System) : System → Type 0 where
  task_moves :
      (pc : Pc) (h : Option Who)
      → Move may yielder yielding s.task s.holder pc h
      → Step may s (record s { task = pc; holder = h })
  call_moves :
      (pc : Pc) (h : Option Who)
      → Move may caller s.op s.call s.holder pc h
      → Step may s (record s { call = pc; holder = h })
  task_again : s.task ≡ done → Step may s (record s { task = waiting })
  call_starts :
      (op : Op)
      → s.call ≡ done
      → op ≢ yielding
      → (takes_semaphore op ≡ true) ⊎ (may.skip ≡ true)
      → Step may s (record s { op = op; call = entry op })

-- Both tasks are idle, and the semaphore is free.
abbrev pub at_rest : System
at_rest = record { task = done; op = asking_status; call = done; holder = none }

pub data Reaches (may : May) : System → Type 0 where
  rest : Reaches may at_rest
  then_step : (s t : System) → Reaches may s → Step may s t → Reaches may t
