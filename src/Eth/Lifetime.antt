-- ===== src/Eth/Lifetime.antt =====
-- The driver and the glue of components/eth-comp/eth-comp.cpp: which handles its calls use.
use esp32sx_c_plus_wrappers.Base.{
  ℕ, List, [], ◌∷◌, ◌==◌, if◌then◌else◌, ◌≡◌, ◌≢◌, refl, sym, ◌∙◌, arith, get_or, none, some,
  Bool-cases, inl, inr,
}
use esp32sx_c_plus_wrappers.Driver.{Env, World, pure, ◌⨾◌}
use esp32sx_c_plus_wrappers.Driver.Handles.{Handles, alive, AllAlive}
use esp32sx_c_plus_wrappers.Eth.{
  Eth, EthM, Call, Command, driver_install, driver_uninstall, new_netif_glue, del_netif_glue,
  netif_attach, eth_start, eth_stop, ioctl, install, start, stop, deinit, query,
}

-- The glue is made for a driver and deleted by `deinit`; only an accepted call deletes it.
abbrev pub glues : Env Call → Handles Call
glues env = record {
  after = λ log c h. elim c [
    | new_netif_glue d ↦ env.code log (new_netif_glue d)
    | del_netif_glue g ↦ if env.code log (del_netif_glue g) == 0 then 0 else h
    | _ ↦ h
  ];
  used = λ c. elim c [ del_netif_glue g ↦ some g | netif_attach n g ↦ some g | _ ↦ none ];
}

abbrev pub drivers : Env Call → Handles Call
drivers env = record {
  after = λ log c h. elim c [
    | driver_install m p ↦
        if env.code log (driver_install m p) == 0
        then get_or (env.bytes log (driver_install m p)) 0 h
        else h
    | driver_uninstall d ↦ if env.code log (driver_uninstall d) == 0 then 0 else h
    | _ ↦ h
  ];
  used = λ c. elim c [
    | new_netif_glue d ↦ some d
    | driver_uninstall d ↦ some d
    | eth_start d ↦ some d
    | eth_stop d ↦ some d
    | ioctl d command ↦ some d
    | _ ↦ none
  ];
}

-- The object has a driver and a glue, both alive, and has used no others.
pub record Running (env : Env Call) (w : World Eth Call) : Type 0 where
  pub has_driver : w.dev.eth_handle ≢ 0
  pub has_glue : w.dev.glue_handle ≢ 0
  pub driver_lives : alive (drivers env) w.log ≡ w.dev.eth_handle
  pub glue_lives : alive (glues env) w.log ≡ w.dev.glue_handle
  pub driver_uses : AllAlive (drivers env) w.log
  pub glue_uses : AllAlive (glues env) w.log

-- The object has neither, and has used none but those it had.
pub record Absent (env : Env Call) (w : World Eth Call) : Type 0 where
  pub no_driver : alive (drivers env) w.log ≡ 0
  pub no_glue : alive (glues env) w.log ≡ 0
  pub driver_uses : AllAlive (drivers env) w.log
  pub glue_uses : AllAlive (glues env) w.log

module _ (env : Env Call) where
  -- A driver that is installed has a handle, and every glue that is asked for is given.
  pub record Gives : Type 0 where
    pub driver_given :
        (log : List Call) (m p : ℕ)
        → env.code log (driver_install m p) ≡ 0
        → (d : ℕ) × (env.bytes log (driver_install m p) ≡ d ∷ []) × (d ≢ 0)
    pub glue_given : (log : List Call) (d : ℕ) → env.code log (new_netif_glue d) ≢ 0

  -- The state of a `start` that has installed the driver `d` and attached its glue.
  abbrev attached : World Eth Call → ℕ → World Eth Call
  attached w d =
      let c = driver_install w.dev.mac w.dev.phy in
      let g = env.code (c ∷ w.log) (new_netif_glue d) in
      record {
        dev = record w.dev { eth_handle = d; glue_handle = g };
        log = netif_attach w.dev.eth_netif g ∷ new_netif_glue d ∷ c ∷ w.log;
      }

  attached-Running :
      (w : World Eth Call) (d : ℕ)
      → Gives
      → Absent env w
      → env.code w.log (driver_install w.dev.mac w.dev.phy) ≡ 0
      → env.bytes w.log (driver_install w.dev.mac w.dev.phy) ≡ d ∷ []
      → d ≢ 0
      → Running env (attached w d)
  attached-Running w d gives a ok given some_d = record {
    has_driver = some_d;
    has_glue = gives.glue_given _ d;
    driver_lives = rw (ok, given) refl;
    glue_lives = refl;
    driver_uses = (tt, ((rw (ok, given) refl, some_d), (tt, a.driver_uses)));
    glue_uses = ((refl, gives.glue_given _ d), (tt, (tt, a.glue_uses)));
  }

  -- A call of the driver that the object has.
  use-Running :
      (call : ℕ → Call) (w : World Eth Call)
      → ((d : ℕ) → (drivers env).used (call d) ≡ some d)
      → ((d : ℕ) → (glues env).used (call d) ≡ none)
      → ((d h : ℕ) → (drivers env).after w.log (call d) h ≡ h)
      → ((d h : ℕ) → (glues env).after w.log (call d) h ≡ h)
      → Running env w
      → Running env (record w { log = call w.dev.eth_handle ∷ w.log })
  use-Running call w u v k l r = record {
    has_driver = r.has_driver;
    has_glue = r.has_glue;
    driver_lives = k _ _ ∙ r.driver_lives;
    glue_lives = l _ _ ∙ r.glue_lives;
    driver_uses = (rw (u w.dev.eth_handle) (sym r.driver_lives, r.has_driver), r.driver_uses);
    glue_uses = (rw (v w.dev.eth_handle) tt, r.glue_uses);
  }

  -- A `start` that installs its driver makes the object run, whatever the rest of it answers.
  installed-Running :
      (w : World Eth Call)
      → Gives
      → Absent env w
      → env.code w.log (driver_install w.dev.mac w.dev.phy) ≡ 0
      → Running env (start env w).1
  unfolding start install
  installed-Running w gives a ok =
      let (d, given, some_d) = gives.driver_given w.log w.dev.mac w.dev.phy ok in
      let r = attached-Running w d gives a ok given some_d in
      let c = driver_install w.dev.mac w.dev.phy in
      let g = env.code (c ∷ w.log) (new_netif_glue d) in
      elim (Bool-cases
        (env.code (new_netif_glue d ∷ c ∷ w.log) (netif_attach w.dev.eth_netif g) == 0)) [
          | inl fine ↦
              rw (ok, given, fine)
                (use-Running eth_start (attached w d) (λ _. refl) (λ _. refl) (λ _ _. refl)
                  (λ _ _. refl) r)
          | inr failed ↦ rw (ok, given, failed) r
        ]

  start-Running :
      (w : World Eth Call)
      → Gives
      → Absent env w
      → (start env w).0 ≡ 0
      → Running env (start env w).1
  unfolding start install
  start-Running w gives a ok = installed-Running w gives a (ground arith)

  deinit-Absent :
      (w : World Eth Call) → Running env w → (deinit env w).0 ≡ 0 → Absent env (deinit env w).1
  unfolding deinit
  deinit-Absent w r ok =
      let deleted : env.code w.log (del_netif_glue w.dev.glue_handle) ≡ 0 = ground arith in
      let gone : env.code (del_netif_glue w.dev.glue_handle ∷ w.log)
            (driver_uninstall w.dev.eth_handle)
          ≡ 0 =
        ground arith in
      rw deleted (record {
        no_driver = rw gone refl;
        no_glue = rw deleted refl;
        driver_uses = ((sym r.driver_lives, r.has_driver), (tt, r.driver_uses));
        glue_uses = (tt, ((sym r.glue_lives, r.has_glue), r.glue_uses));
      })

  abbrev ask_all : List Command → World Eth Call → World Eth Call
  ask_all [] w = w
  ask_all (command ∷ commands) w = ask_all commands (query env command w).1

  -- A session: the port is started, asked, stopped and given back.
  unfoldable pub session : List Command → EthM ℕ
  session commands = start env ⨾ (λ w. deinit env (stop env (ask_all commands w)).1)

  unfoldable pub run_sessions : List (List Command) → EthM ℕ
  run_sessions [] = pure 0
  run_sessions (s ∷ rest) = session s ⨾ run_sessions rest

  query-Running :
      (command : Command) (w : World Eth Call) → Running env w → Running env (query env command w).1
  unfolding query
  query-Running command w r =
      use-Running (λ d. ioctl d command) w (λ _. refl) (λ _. refl) (λ _ _. refl) (λ _ _. refl) r

  stop-Running : (w : World Eth Call) → Running env w → Running env (stop env w).1
  unfolding stop
  stop-Running w r = use-Running eth_stop w (λ _. refl) (λ _. refl) (λ _ _. refl) (λ _ _. refl) r

  ask_all-Running :
      (commands : List Command) (w : World Eth Call)
      → Running env w
      → Running env (ask_all commands w)
  ask_all-Running [] w r = r
  ask_all-Running (command ∷ commands) w r =
      ask_all-Running commands (query env command w).1 (query-Running command w r)

  session-Absent :
      (commands : List Command) (w : World Eth Call)
      → Gives
      → Absent env w
      → (session commands w).0 ≡ 0
      → Absent env (session commands w).1
  unfolding session
  session-Absent commands w gives a ok = elim (Bool-cases ((start env w).0 == 0)) [
    | inl started ↦
        let r = start-Running w gives a (ground arith) in
        let s =
          stop-Running (ask_all commands (start env w).1)
            (ask_all-Running commands (start env w).1 r) in
        rw started (deinit-Absent _ s (ground (arith, started)))
    | inr failed ↦ absurd (ground arith)
  ]

  -- If every driver that is installed comes with a handle, and every glue that is asked for is given,
  -- never NULL, then sessions that all end without an error have used no driver and no glue but those
  -- that `start` had made and `deinit` had not yet given back, and none is left.
  pub run_sessions-Absent :
      (sessions : List (List Command)) (w : World Eth Call)
      → Gives
      → Absent env w
      → (run_sessions sessions w).0 ≡ 0
      → Absent env (run_sessions sessions w).1
  unfolding run_sessions
  run_sessions-Absent [] w gives a ok = a
  run_sessions-Absent (s ∷ rest) w gives a ok = elim (Bool-cases ((session s w).0 == 0)) [
    | inl fine ↦ rw fine (
        run_sessions-Absent rest (session s w).1 gives (session-Absent s w gives a (ground arith))
          (ground (arith, fine)))
    | inr failed ↦ absurd (ground arith)
  ]

  -- The second deletion of a glue that is gone.
  deleted-stale :
      (w : World Eth Call)
      → w.dev.glue_handle ≢ 0
      → env.code w.log (del_netif_glue w.dev.glue_handle) ≡ 0
      → ¬ AllAlive (glues env) (
          del_netif_glue w.dev.glue_handle
          ∷ driver_uninstall w.dev.eth_handle
          ∷ del_netif_glue w.dev.glue_handle
          ∷ w.log)
  deleted-stale w has deleted ((e, _), _) = has (e ∙ rw deleted refl)

  -- A second `deinit` after one that has deleted the glue deletes it again, also where the driver has
  -- refused to be uninstalled, as one that was not stopped does.
  pub deinit-stale :
      (w : World Eth Call)
      → Running env w
      → env.code w.log (del_netif_glue w.dev.glue_handle) ≡ 0
      → ¬ AllAlive (glues env) (deinit env (deinit env w).1).1.log
  unfolding deinit
  deinit-stale w r deleted =
      let log = driver_uninstall w.dev.eth_handle ∷ del_netif_glue w.dev.glue_handle ∷ w.log in
      elim (Bool-cases (env.code log (del_netif_glue w.dev.glue_handle) == 0)) [
        | inl again ↦ rw (deleted, again) (λ (_, uses). deleted-stale w r.has_glue deleted uses)
        | inr refused ↦ rw (deleted, refused) (deleted-stale w r.has_glue deleted)
      ]
