-- ===== src/Aws/Exclusion.antt =====
-- Whether the two tasks of components/aws-iot-comp/aws-iot-comp.cpp use the client at the same time.
use esp32sx_c_plus_wrappers.Base.{ℕ, Bool, true, false, ◌≡◌, ◌≢◌, ◌↔◌, ◌∙◌, inr, refl, arith, some}
use esp32sx_c_plus_wrappers.Aws.{
  Op, Pc, May, entry, connecting, setting_reconnect, subscribing, publishing_params, publishing,
  updating_shadow, asking_status, yielding, waiting, using_client, saving, giving, done, patience,
  after_timeout, yielder, caller, taken, timed_out, used, saved, given, given_unheld, System,
  task_moves, call_moves, task_again, call_starts, at_rest, Reaches, rest, then_step,
}

-- Between the take and the give.
abbrev pub inside : Pc → Bool
inside waiting = false
inside using_client = true
inside saving = true
inside giving = true
inside done = false

-- A task between the take and the give holds the semaphore.
pub record Holds (s : System) : Type 0 where
  pub task_holds : inside s.task ≡ true → s.holder ≡ some yielder
  pub call_holds : inside s.call ≡ true → s.holder ≡ some caller

-- No wait times out, and the methods that are called take the semaphore.
abbrev pub orderly : May
orderly = record { time_out = false; skip = false }

abbrev pub anything : May
anything = record { time_out = true; skip = true }

-- The task and a caller of the method `op` use the client at the same time.
abbrev pub Overlaps : Op → Type 0
Overlaps op =
    (s : System) × Reaches anything s
    × (s.op ≡ op)
    × (s.task ≡ using_client)
    × (s.call ≡ using_client)

-- The task uses the client, and a caller starts a method.
abbrev busy : System
busy = record at_rest { task = using_client; holder = some yielder }

busy_reached : Reaches anything busy
busy_reached =
    let s1 : System = record at_rest { task = waiting } in
    then_step s1 busy (then_step at_rest s1 rest (task_again refl))
      (task_moves using_client (some yielder) (taken refl refl))

abbrev started : Op → System
started op = record busy { op = op; call = entry op }

skipping-Overlaps : (op : Op) → op ≢ yielding → entry op ≡ using_client → Overlaps op
skipping-Overlaps op m e = (
  started op,
  then_step busy (started op) busy_reached (call_starts op refl m (inr refl)),
  refl,
  refl,
  e,
)

timeout-Overlaps :
    (op : Op) (ms : ℕ)
    → op ≢ yielding
    → entry op ≡ waiting
    → patience op ≡ some ms
    → after_timeout op ≡ using_client
    → Overlaps op
timeout-Overlaps op ms m w p u =
    let s : System = record (started op) { call = after_timeout op } in
    (
      s,
      then_step (started op) s
          (then_step busy (started op) busy_reached (call_starts op refl m (inr refl)))
          (call_moves (after_timeout op) (some yielder) (timed_out ms w (λ q. cc) p refl)),
      refl,
      refl,
      u,
    )

-- `status` never uses the client.
status_apart : (s : System) → Reaches anything s → s.op ≡ asking_status → s.call ≢ using_client
status_apart _ rest o c = ground arith
status_apart _ (then_step s _ r (task_moves pc h m)) o c = status_apart s r o c
status_apart _ (then_step s _ r (task_again e)) o c = status_apart s r o c
status_apart _ (then_step s _ r (call_starts op e m k)) o c = ground arith
status_apart _ (then_step s _ r (call_moves _ _ (taken at free))) o c = ground arith
status_apart _ (then_step s _ r (call_moves _ _ (timed_out ms at held p may))) o c = ground arith
status_apart _ (then_step s _ r (call_moves _ _ (used at))) o c = status_apart s r o at
status_apart _ (then_step s _ r (call_moves _ _ (saved at))) o c = ground arith
status_apart _ (then_step s _ r (call_moves _ _ (given at held))) o c = ground arith
status_apart _ (then_step s _ r (call_moves _ _ (given_unheld at free))) o c = ground arith

-- Every method but `status` is reached in a state in which it and the task use the client at the same
-- time, if waits may time out: `connect` and `autoReconnect` do not wait for the semaphore, and the
-- others go on without it. `status` is not.
pub Overlaps-iff : (op : Op) → op ≢ yielding → Overlaps op ↔ (op ≢ asking_status)
Overlaps-iff op m = ((λ (s, r, o, _, c) e. status_apart s r (o ∙ e) c), (λ n. overlapping op m n))
  where
    overlapping : (op : Op) → op ≢ yielding → op ≢ asking_status → Overlaps op
    overlapping yielding m n = absurd (m refl)
    overlapping connecting m n = skipping-Overlaps connecting m refl
    overlapping setting_reconnect m n = skipping-Overlaps setting_reconnect m refl
    overlapping subscribing m n = timeout-Overlaps subscribing 1000 m refl refl refl
    overlapping publishing_params m n = timeout-Overlaps publishing_params 1000 m refl refl refl
    overlapping publishing m n = timeout-Overlaps publishing 100 m refl refl refl
    overlapping updating_shadow m n = timeout-Overlaps updating_shadow 100 m refl refl refl
    overlapping asking_status m n = absurd (n refl)
