-- ===== src/HttpClient/Lifetime.antt =====
-- The life of the handle of components/http-client-comp/http-client.cpp.
use esp32sx_c_plus_wrappers.Base.{
  ℕ, List, [], ◌∷◌, ◌≡◌, ◌≢◌, ◌↔◌, refl, sym, ◌∙◌, Bool, true, false, not, ◌&&◌, if◌then◌else◌,
  none, some, arith,
}
use esp32sx_c_plus_wrappers.Driver.{Env, World}
use esp32sx_c_plus_wrappers.Driver.Handles.{Handles, alive, AllAlive}
use esp32sx_c_plus_wrappers.HttpClient as H
use esp32sx_c_plus_wrappers.HttpClient.{HttpClient, Function, Call, client_init, calling, init}

abbrev pub is_cleanup : Function → Bool
is_cleanup H.client_cleanup = true
is_cleanup _ = false

abbrev pub handles : Env Call → Handles Call
handles env = record {
  after = λ log c h. elim c [
    | client_init config ↦ env.code log (client_init config)
    | calling f u ↦ if is_cleanup f then 0 else h
  ];
  used = λ c. elim c [ client_init config ↦ none | calling f u ↦ some u ];
}

-- The operations: `init`, and the method of each function of esp_http_client.
pub data Op : Type 0 where
  initializing : ℕ → Op
  requesting : Function → Op

module _ (env : Env Call) where
  abbrev pub request : Function → World HttpClient Call → World HttpClient Call
  request H.do_perform w = (H.perform env w).1
  request H.get_post_field w = (H.get_post_data env w).1
  request H.client_close w = (H.close env w).1
  request H.client_cleanup w = (H.cleanup env w).1
  request H.fetch_headers w = (H.get_headers env w).1
  request H.get_status_code w = (H.status env w).1
  request H.get_content_length w = (H.length env w).1
  request H.is_chunked_response w = (H.is_chunked env w).1
  request (H.set_post_field bytes) w = (H.add_post_data env bytes w).1
  request (H.client_write bytes) w = (H.write env bytes w).1
  request (H.set_client_url url) w = (H.set_url env url w).1
  request (H.set_header key value) w = (H.add_header env key value w).1
  request (H.set_method m) w = (H.method env m w).1
  request (H.client_read len) w = (H.read env len w).1
  request (H.client_open len) w = (H.open_connection env len w).1

  abbrev pub run : Op → World HttpClient Call → World HttpClient Call
  run (initializing config) w = (init env config w).1
  run (requesting f) w = request f w

  abbrev pub run_all : List Op → World HttpClient Call → World HttpClient Call
  run_all [] w = w
  run_all (op ∷ ops) w = run_all ops (run op w)

  -- Every client that is asked for is given.
  abbrev pub Creates : Type 0
  Creates = (log : List Call) (config : ℕ) → env.code log (client_init config) ≢ 0

  -- The object's handle is of a client, which is still there or has been cleaned up.
  pub record Tracks (there : Bool) (w : World HttpClient Call) : Type 0 where
    pub given : w.dev.handle ≢ 0
    pub lives : alive (handles env) w.log ≡ (if there then w.dev.handle else 0)

abbrev pub allowed : Bool → Op → Bool
allowed there (initializing config) = true
allowed there (requesting f) = there

abbrev pub there_after : Bool → Op → Bool
there_after there (initializing config) = true
there_after there (requesting f) = there && not (is_cleanup f)

-- Nothing but `init` follows a `cleanup`.
abbrev pub Ordered : Bool → List Op → Type 0
Ordered there [] = Unit {0}
Ordered there (op ∷ ops) = (allowed there op ≡ true) × Ordered (there_after there op) ops

module _ (env : Env Call) where
  request-log :
      (f : Function) (w : World HttpClient Call)
      → request env f w ≡ record w { log = calling f w.dev.handle ∷ w.log }
  unfolding H.perform H.get_post_data H.close H.cleanup H.get_headers H.status H.length H.is_chunked
      H.add_post_data H.write H.set_url H.add_header H.method H.read H.open_connection
  request-log f w =
      elim f as (λ k. request env k w ≡ record w { log = calling k w.dev.handle ∷ w.log }) [
        | H.do_perform ↦ refl
        | H.get_post_field ↦ refl
        | H.client_close ↦ refl
        | H.client_cleanup ↦ refl
        | H.fetch_headers ↦ refl
        | H.get_status_code ↦ refl
        | H.get_content_length ↦ refl
        | H.is_chunked_response ↦ refl
        | H.set_post_field bytes ↦ refl
        | H.client_write bytes ↦ refl
        | H.set_client_url url ↦ refl
        | H.set_header key value ↦ refl
        | H.set_method m ↦ refl
        | H.client_read len ↦ refl
        | H.client_open len ↦ refl
      ]

  calling-uses :
      (there : Bool) (f : Function) (w : World HttpClient Call)
      → Tracks env there w
      → AllAlive (handles env) (calling f w.dev.handle ∷ w.log)
        ↔ (AllAlive (handles env) w.log × (there ≡ true))
  calling-uses true f w t = ((λ (_, a). (a, refl)), (λ (a, _). ((sym t.lives, t.given), a)))
  calling-uses false f w t =
      ((λ ((e, _), _). absurd (t.given (e ∙ t.lives))), (λ (_, e). ground arith))

  run-uses :
      (there : Bool) (op : Op) (w : World HttpClient Call)
      → Tracks env there w
      → AllAlive (handles env) (run env op w).log
        ↔ (AllAlive (handles env) w.log × (allowed there op ≡ true))
  unfolding init
  run-uses there (initializing config) w t = ((λ (_, a). (a, refl)), (λ (a, _). (tt, a)))
  run-uses there (requesting f) w t = rw (request-log f w) (calling-uses there f w t)

  calling-Tracks :
      (there : Bool) (f : Function) (w : World HttpClient Call)
      → Tracks env there w
      → Tracks env (there && not (is_cleanup f)) (record w { log = calling f w.dev.handle ∷ w.log })
  calling-Tracks there f w t = record { given = t.given; lives = ground (arith, t.lives) }

  run-Tracks :
      (there : Bool) (op : Op) (w : World HttpClient Call)
      → Creates env
      → Tracks env there w
      → Tracks env (there_after there op) (run env op w)
  unfolding init
  run-Tracks there (initializing config) w made t = record {
    given = made w.log config;
    lives = refl;
  }
  run-Tracks there (requesting f) w made t = rw (request-log f w) (calling-Tracks there f w t)

  -- If esp_http_client_init gives a client each time, never NULL, then the operations of an object
  -- with a handle use a client that is there, and nothing else, exactly if nothing but `init` comes before the
  -- first client and after a `cleanup`.
  pub run_all-AllAlive :
      (ops : List Op) (there : Bool) (w : World HttpClient Call)
      → Creates env
      → Tracks env there w
      → AllAlive (handles env) (run_all env ops w).log
        ↔ (AllAlive (handles env) w.log × Ordered there ops)
  run_all-AllAlive [] there w made t = ((λ a. (a, tt)), (λ (a, _). a))
  run_all-AllAlive (op ∷ ops) there w made t =
      let rest =
        run_all-AllAlive ops (there_after there op) (run env op w) made
          (run-Tracks there op w made t) in
      let first = run-uses there op w t in
      (
        (λ a. let (b, o) = rest.0 a in let (c, e) = first.0 b in (c, (e, o))),
        (λ (c, (e, o)). rest.1 (first.1 (c, e), o)),
      )
