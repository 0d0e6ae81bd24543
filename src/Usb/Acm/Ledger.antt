-- ===== src/Usb/Acm/Ledger.antt =====
-- The transfers of components/usb-host-comp/acm/usb_acm.cpp: the user's calls and the driver's
-- completions, interleaved in any order.
use esp32sx_c_plus_wrappers.Base.{
  ℕ, ◌+◌, List, [], ◌∷◌, ◌++◌, ◌==◌, if◌then◌else◌, ◌||◌, not, Bool, false, length, ◌≡◌, refl, ap,
  arith,
}
use esp32sx_c_plus_wrappers.Driver.{Env, World}
use esp32sx_c_plus_wrappers.Usb.Msc.{Transfer}
use esp32sx_c_plus_wrappers.Usb.Acm.{
  Acm, Call, transfer_alloc, transfer_free, submit, in_data, out_data, request, set_control_line,
  send_line_coding, ask_line_coding, callback, ctrl_done, read_done, write_done,
}

-- The object, and the data transfers that the driver has accepted and not yet completed.
pub record Port : Type 0 where
  pub world : World Acm Call
  pub pending : List ℕ

-- How often a handle is in a list.
abbrev pub times : ℕ → List ℕ → ℕ
times h [] = 0
times h (t ∷ ts) = (if t == h then 1 else 0) + times h ts

times-append : (h : ℕ) (xs ys : List ℕ) → times h (xs ++ ys) ≡ times h xs + times h ys
times-append h [] ys = omega arith
times-append h (x ∷ xs) ys = omega (arith, times-append h xs ys)

-- The ledger of one handle. The library may give a handle again when it has been freed.
module _ (env : Env Call) (handle : ℕ) where
  abbrev pub gets_transfer : List Call → Call → ℕ
  gets_transfer log (transfer_alloc n) =
      if env.code log (transfer_alloc n) == 0
      then 0
      else if env.code log (transfer_alloc n) == handle
      then 1
      else 0
  gets_transfer log _ = 0

  abbrev pub is_refused : List Call → Call → ℕ
  is_refused log (submit t ep n b) =
      if env.code log (submit t ep n b) == 0 then 0 else if t == handle then 1 else 0
  is_refused log _ = 0

  abbrev pub frees : Call → ℕ
  frees (transfer_free t) = if t == handle then 1 else 0
  frees _ = 0

  -- How often the transfer has been allocated, freed, and refused by the driver.
  abbrev pub allocated : List Call → ℕ
  allocated [] = 0
  allocated (c ∷ log) = gets_transfer log c + allocated log

  abbrev pub freed : List Call → ℕ
  freed [] = 0
  freed (c ∷ log) = frees c + freed log

  abbrev pub refused : List Call → ℕ
  refused [] = 0
  refused (c ∷ log) = is_refused log c + refused log

module _ (env : Env Call) where
  -- The driver keeps a transfer that it has accepted with the last call.
  abbrev pub admit : List Call → List ℕ → List ℕ
  admit (submit t ep n b ∷ log) ts = if env.code log (submit t ep n b) == 0 then t ∷ ts else ts
  admit log ts = ts

module _ (env : Env Call) (round_up : ℕ → ℕ → ℕ) where
  abbrev pub after_in : ℕ → Port → Port
  after_in len s =
      let w' = (in_data env round_up len s.world).1 in
      record {
        world = w';
        pending = if s.world.dev.connected then admit env w'.log s.pending else s.pending;
      }

  abbrev pub after_out : List ℕ → Port → Port
  after_out bytes s =
      let w' = (out_data env round_up bytes s.world).1 in
      record {
        world = w';
        pending =
            if not s.world.dev.connected || length bytes == 0
            then s.pending
            else admit env w'.log s.pending;
      }

  pub data Step (s : Port) : Port → Type 0 where
    reading : (len : ℕ) → Step s (after_in len s)
    writing : (bytes : List ℕ) → Step s (after_out bytes s)
    setting :
        (bitrate cf parity bits : ℕ)
        → Step s
            (record s { world = (send_line_coding env round_up bitrate cf parity bits s.world).1 })
    raising :
        (dtr rts : Bool)
        → Step s (record s { world = (set_control_line env round_up dtr rts s.world).1 })
    asking : Step s (record s { world = (ask_line_coding env round_up s.world).1 })
    answered : (t : Transfer) → Step s (record s { world = (ctrl_done env round_up t s.world).1 })
    has_read :
        (t : Transfer) (before after : List ℕ)
        → s.pending ≡ before ++ (t.handle ∷ after)
        → Step s
            (record { world = (read_done env round_up t s.world).1; pending = before ++ after })
    has_written :
        (t : Transfer) (before after : List ℕ)
        → s.pending ≡ before ++ (t.handle ∷ after)
        → Step s
            (record { world = (write_done env round_up t s.world).1; pending = before ++ after })

  pub data Reach (s : Port) : Port → Type 0 where
    here : Reach s s
    next : {t u : Port} → Reach s t → Step t u → Reach s u

  -- Every transfer is freed, refused, or with the driver, as often as it was allocated.
  abbrev pub IsSettled : ℕ → Port → Type 0
  IsSettled h s =
      allocated env h s.world.log
      ≡ freed env h s.world.log + refused env h s.world.log + times h s.pending

  abbrev pub IsBalanced : ℕ → Port → Type 0
  IsBalanced h s = s.world.dev.fault ≡ false → IsSettled h s

  Step-IsBalanced : (k : ℕ) {s t : Port} → Step s t → IsBalanced k s → IsBalanced k t
  unfolding in_data out_data send_line_coding set_control_line ask_line_coding ctrl_done read_done
      write_done request callback
  Step-IsBalanced k (reading len) h fine = ground arith
  Step-IsBalanced k (writing bytes) h fine = ground arith
  Step-IsBalanced k (setting bitrate cf parity bits) h fine = ground arith
  Step-IsBalanced k (raising dtr rts) h fine = ground arith
  Step-IsBalanced k asking h fine = ground arith
  Step-IsBalanced k (answered t) h fine = ground arith
  Step-IsBalanced k (has_read t before after e) h fine =
      ground (
        arith,
        ap (times k) e,
        times-append k before (t.handle ∷ after),
        times-append k before after,
      )
  Step-IsBalanced k (has_written t before after e) h fine =
      ground (
        arith,
        ap (times k) e,
        times-append k before (t.handle ∷ after),
        times-append k before after,
      )

  pub Reach-IsBalanced : (k : ℕ) {s t : Port} → Reach s t → IsBalanced k s → IsBalanced k t
  Reach-IsBalanced k here h = h
  Reach-IsBalanced k (next r st) h = Step-IsBalanced k st (Reach-IsBalanced k r h)

  -- Steps that are completions of the driver's.
  pub data Completes : Port → Port → Type 0 where
    idle : {s : Port} → Completes s s
    first :
        {s t : Port} (x : Transfer) (before after : List ℕ)
        → s.pending ≡ before ++ (x.handle ∷ after)
        → Completes
            (record { world = (read_done env round_up x s.world).1; pending = before ++ after })
            t
        → Completes s t

  -- What is left when the driver has completed the transfers `ts` in order.
  pub complete_all : List ℕ → World Acm Call → World Acm Call
  complete_all [] w = w
  complete_all (t ∷ ts) w =
      let x : Transfer = record { handle = t; actual_num_bytes = 0; data_buffer = [] } in
      complete_all ts (read_done env round_up x w).1

  Completes-all :
      (ts : List ℕ) (w : World Acm Call)
      → Completes
          (record { world = w; pending = ts })
          (record { world = complete_all ts w; pending = [] })
  unfolding complete_all
  Completes-all [] w = idle
  Completes-all (t ∷ ts) w =
      let x : Transfer = record { handle = t; actual_num_bytes = 0; data_buffer = [] } in
      first x [] ts refl (Completes-all ts (read_done env round_up x w).1)

  complete_all-counts :
      (k : ℕ) (ts : List ℕ) (w : World Acm Call)
      → (let w' = complete_all ts w in
          (allocated env k w'.log ≡ allocated env k w.log)
          × (refused env k w'.log ≡ refused env k w.log)
          × (freed env k w'.log ≡ freed env k w.log + times k ts))
  unfolding complete_all read_done callback
  complete_all-counts k [] w = (refl, refl, omega arith)
  complete_all-counts k (t ∷ ts) w =
      let x : Transfer = record { handle = t; actual_num_bytes = 0; data_buffer = [] } in
      let (a, b, c) = complete_all-counts k ts (read_done env round_up x w).1 in
      (ground (arith, a), ground (arith, b), ground (arith, c))

  -- From every state that the user's calls and the driver's completions lead to, in any order,
  -- without a fault, from one where the ledger of each handle is settled, the completions of what is
  -- pending lead to a state with nothing pending. There each handle has been freed as often as it
  -- was allocated, but for the submissions that the driver refused: those stay allocated for ever.
  pub transfers_end :
      {s t : Port}
      → Reach s t
      → ((k : ℕ) → IsSettled k s)
      → t.world.dev.fault ≡ false
      → (u : Port) × Completes t u
        × (u.pending ≡ [])
        × ((k : ℕ)
            → (allocated env k u.world.log ≡ allocated env k t.world.log)
              × (refused env k u.world.log ≡ refused env k t.world.log)
              × (allocated env k u.world.log ≡ freed env k u.world.log + refused env k u.world.log))
  transfers_end {t} r h fine = (
    record { world = complete_all t.pending t.world; pending = [] },
    Completes-all t.pending t.world,
    refl,
    λ k.
        let (a, b, c) = complete_all-counts k t.pending t.world in
        (a, b, omega (arith, Reach-IsBalanced k r (λ _. h k) fine, a, b, c)),
  )
