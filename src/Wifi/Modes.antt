-- ===== src/Wifi/Modes.antt =====
-- The mode of components/wifi-comp/wifi.cpp, as the set of the interfaces that are on.
use esp32sx_c_plus_wrappers.Base.{
  ℕ, List, [], ◌∷◌, Bool, true, false, ◌||◌, ◌≡◌, ◌≢◌, refl, sym, ap, ◌∙◌, arith, inl, inr, ◌==◌,
  if◌then◌else◌, Bool-cases, Option, some,
}
use esp32sx_c_plus_wrappers.Driver.{Env, World}
use esp32sx_c_plus_wrappers.Driver.Script.{run_script}
use esp32sx_c_plus_wrappers.Wifi as W
use esp32sx_c_plus_wrappers.Wifi.{
  Wifi, Mode, Call, enable_ap, enable_sta, need_ap, need_sta, set_mode, start, connect, is_off_or,
}

-- The interfaces that are on: the access point's, and the station's.
abbrev pub interfaces : Mode → Bool × Bool
interfaces W.off = (false, false)
interfaces W.sta = (false, true)
interfaces W.ap = (true, false)
interfaces W.apsta = (true, true)

abbrev pub joined : Bool × Bool → Bool × Bool → Bool × Bool
joined (a, s) (b, t) = (a || b, s || t)

pub data Request : Type 0 where
  access_point : List ℕ → Option (List ℕ) → ℕ → Request
  station : Option (List ℕ) → Option (List ℕ) → Bool → Request

abbrev pub wanted : Request → Bool × Bool
wanted (access_point _ _ _) = (true, false)
wanted (station _ _ _) = (false, true)

-- The interfaces that are on after some requests, given those that were on before.
abbrev pub all_wanted : Bool × Bool → List Request → Bool × Bool
all_wanted on [] = on
all_wanted on (r ∷ rs) = all_wanted (joined (wanted r) on) rs

-- The mode that the driver is in: the last one that it has accepted, and at first none.
abbrev pub driver_mode : Env Call → List Call → Mode
driver_mode env [] = W.off
driver_mode env (W.set_mode_to m ∷ log) =
    let before = driver_mode env log in if env.code log (W.set_mode_to m) == 0 then m else before
driver_mode env (_ ∷ log) = driver_mode env log

interfaces-ap :
    (m : Mode)
    → interfaces (if is_off_or W.ap m then W.ap else W.apsta) ≡ joined (true, false) (interfaces m)
interfaces-ap W.off = refl
interfaces-ap W.sta = refl
interfaces-ap W.ap = refl
interfaces-ap W.apsta = refl

interfaces-sta :
    (m : Mode)
    → interfaces (if is_off_or W.sta m then W.sta else W.apsta)
      ≡ joined (false, true) (interfaces m)
interfaces-sta W.off = refl
interfaces-sta W.sta = refl
interfaces-sta W.ap = refl
interfaces-sta W.apsta = refl

module _ (env : Env Call) where
  -- With its interface made, `enableAP` is a chain of three calls on the object with its new mode.
  pub enable_ap-script :
      (ssid : List ℕ) (pass : Option (List ℕ)) (max_conn : ℕ) (w : World Wifi Call)
      → w.dev.netif_ap ≢ 0
      → (let m = if is_off_or W.ap w.dev.mode then W.ap else W.apsta in
          enable_ap env ssid pass max_conn w
          ≡ run_script env
              (W.set_mode_to m
                ∷ W.wifi_start
                ∷ W.set_config_ap (W.ap_config ssid pass max_conn)
                ∷ [])
              (record w { dev = record w.dev { mode = m } }))
  unfolding enable_ap run_script
  enable_ap-script ssid pass max_conn w h = ground arith

  enable_ap-mode :
      (ssid : List ℕ) (pass : Option (List ℕ)) (max_conn : ℕ) (w : World Wifi Call)
      → (enable_ap env ssid pass max_conn w).0 ≡ 0
      → ((enable_ap env ssid pass max_conn w).1.dev.mode
          ≡ (if is_off_or W.ap w.dev.mode then W.ap else W.apsta))
        × (driver_mode env (enable_ap env ssid pass max_conn w).1.log
            ≡ (enable_ap env ssid pass max_conn w).1.dev.mode)
  unfolding enable_ap
  enable_ap-mode ssid pass max_conn w h = (ground arith, ground arith)

  enable_sta-mode :
      (ssid pass : Option (List ℕ)) (now : Bool) (w : World Wifi Call)
      → (enable_sta env ssid pass now w).0 ≡ 0
      → ((enable_sta env ssid pass now w).1.dev.mode
          ≡ (if is_off_or W.sta w.dev.mode then W.sta else W.apsta))
        × (driver_mode env (enable_sta env ssid pass now w).1.log
            ≡ (enable_sta env ssid pass now w).1.dev.mode)
  unfolding enable_sta
  enable_sta-mode ssid pass now w h = (ground arith, ground arith)

  abbrev pub enable : Request → W.WifiM ℕ
  enable (access_point ssid pass max_conn) = enable_ap env ssid pass max_conn
  enable (station ssid pass now) = enable_sta env ssid pass now

  unfoldable pub enable_all : List Request → W.WifiM ℕ
  enable_all [] w = (0, w)
  enable_all (r ∷ rs) w =
      let (e, w') = enable r w in let rest = enable_all rs w' in if e == 0 then rest else (e, w')

  enable-interfaces :
      (r : Request) (w : World Wifi Call)
      → (enable r w).0 ≡ 0
      → (interfaces (enable r w).1.dev.mode ≡ joined (wanted r) (interfaces w.dev.mode))
        × (driver_mode env (enable r w).1.log ≡ (enable r w).1.dev.mode)
  enable-interfaces (access_point ssid pass max_conn) w h =
      let (mode, driver) = enable_ap-mode ssid pass max_conn w h in
      (ap interfaces mode ∙ interfaces-ap w.dev.mode, driver)
  enable-interfaces (station ssid pass now) w h =
      let (mode, driver) = enable_sta-mode ssid pass now w h in
      (ap interfaces mode ∙ interfaces-sta w.dev.mode, driver)

  -- If the driver is in the mode of the object, and requests succeed one after the other, then the
  -- driver is in the mode of the object after them, and in that mode exactly the interfaces are on
  -- that one of the requests asked for or that were on before, in whatever order they came.
  pub enable_all-interfaces :
      (rs : List Request) (w : World Wifi Call)
      → driver_mode env w.log ≡ w.dev.mode
      → (enable_all rs w).0 ≡ 0
      → (driver_mode env (enable_all rs w).1.log ≡ (enable_all rs w).1.dev.mode)
        × (interfaces (driver_mode env (enable_all rs w).1.log)
            ≡ all_wanted (interfaces w.dev.mode) rs)
  unfolding enable_all
  enable_all-interfaces [] w d h = (d, ap interfaces d)
  enable_all-interfaces (r ∷ rs) w d h = elim (Bool-cases ((enable r w).0 == 0)) [
    | inl ok ↦
        let (on, driver) = enable-interfaces r w (ground arith) in
        let rest = enable_all-interfaces rs (enable r w).1 driver (ground (arith, ok)) in
        rw (ok, sym on) rest
    | inr bad ↦ absurd (ground arith)
  ]

  enable_sta-script :
      (ssid : List ℕ) (pass : Option (List ℕ)) (w : World Wifi Call)
      → w.dev.netif_sta ≢ 0
      → (let m = if is_off_or W.sta w.dev.mode then W.sta else W.apsta in
          enable_sta env (some ssid) pass true w
          ≡ run_script env
              (W.set_mode_to m
                ∷ W.wifi_start
                ∷ W.set_config_sta (W.sta_config ssid pass)
                ∷ W.wifi_connect
                ∷ [])
              (record w { dev = record w.dev { mode = m } }))
  unfolding enable_sta run_script
  enable_sta-script ssid pass w h = ground arith
