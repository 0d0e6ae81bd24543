-- ===== src/Socket/Publish.antt =====
-- `Socket::publish` of components/socket-server/socket-server.cpp: a datagram to a group whose name
-- lwip resolves. The answer of getaddrinfo is its `int`, and the list it gives its code: 0 is NULL.
use esp32sx_c_plus_wrappers.Base.{
  ℕ, ◌%◌, List, [], ◌∷◌, ◌==◌, if◌then◌else◌, ◌≡◌, refl, arith, none, some, Bool-cases, inl, inr,
}
use esp32sx_c_plus_wrappers.Base.Int.{is_neg}
use esp32sx_c_plus_wrappers.Driver.{Env, World, pure, ask_int, tell, gets, ◌>>=◌, ◌>>◌}
use esp32sx_c_plus_wrappers.Driver.Handles.{Handles, alive, AllAlive}
use esp32sx_c_plus_wrappers.Socket.{Socket, Call, SocketM, resolve, send_to_address, free_address}

module _ (env : Env Call) where
  pub publish : List ℕ → List ℕ → SocketM (Unit {0})
  publish group data_bytes = do
    res ← λ w. (env.code w.log (resolve group), w)
    err ← ask_int env (resolve group)
    if is_neg err then pure tt else if res == 0 then pure tt else (do
      o ← gets (λ o. o)
      tell env (send_to_address o.socketfd res (o.bind_port % 65536) data_bytes)
      tell env (free_address res))

  -- The address list that is allocated: one that a failed getaddrinfo names is none.
  abbrev pub handles : Handles Call
  handles = record {
    after = λ log c h. elim c [
      | resolve group ↦
          if is_neg (env.int log (resolve group)) then h else env.code log (resolve group)
      | free_address res ↦ 0
      | _ ↦ h
    ];
    used = λ c. elim c [
      | send_to_address fd res port bytes ↦ some res
      | free_address res ↦ some res
      | _ ↦ none
    ];
  }

  abbrev pub publish_all : List (List ℕ × List ℕ) → World Socket Call → World Socket Call
  publish_all [] w = w
  publish_all ((group, data_bytes) ∷ ms) w = publish_all ms (publish group data_bytes w).1

  pub record Settled (w : World Socket Call) : Type 0 where
    pub freed : alive handles w.log ≡ 0
    pub uses : AllAlive handles w.log

  publish-Settled :
      (group data_bytes : List ℕ) (w : World Socket Call)
      → Settled w
      → Settled (publish group data_bytes w).1
  unfolding publish
  publish-Settled group data_bytes w h =
      elim (Bool-cases (is_neg (env.int w.log (resolve group)))) [
        | inl failed ↦ rw failed (record { freed = rw failed h.freed; uses = (tt, h.uses) })
        | inr answered ↦ elim (Bool-cases (env.code w.log (resolve group) == 0)) [
          | inl empty ↦
              rw (answered, empty)
                (record { freed = rw answered (ground arith); uses = (tt, h.uses) })
          | inr found ↦
              rw (answered, found)
                (record {
                  freed = refl;
                  uses = (
                    (rw answered refl, ground arith),
                    ((rw answered refl, ground arith), (tt, h.uses)),
                  );
                })
        ]
      ]

  -- Whatever messages are published and whatever lwip answers, each address list is used only while
  -- it is allocated, and has been freed when `publish` returns.
  pub publish_all-Settled :
      (messages : List (List ℕ × List ℕ)) (w : World Socket Call)
      → Settled w
      → Settled (publish_all messages w)
  publish_all-Settled [] w h = h
  publish_all-Settled ((group, data_bytes) ∷ ms) w h =
      publish_all-Settled ms (publish group data_bytes w).1 (publish-Settled group data_bytes w h)
