-- ===== src/Socket/Lifecycle.antt =====
-- The life of a socket of components/socket-server/socket-server.cpp: a client arrives, the server
-- stops, and what `close` and `createMulticast` leave behind.
use esp32sx_c_plus_wrappers.Base.{
  ℕ, zero, suc, ◌+◌, List, [], ◌∷◌, ◌++◌, ◌≡◌, refl, ap, ◌∙◌, arith, some,
}
use esp32sx_c_plus_wrappers.Base.Int.{pos, negsuc}
use esp32sx_c_plus_wrappers.Driver.{Env, World}
use esp32sx_c_plus_wrappers.Socket.{
  Socket, Call, tcp, connected, post, close, stop, accept, wait_client, poll_client, try_accept,
  shutdown_all, shutdown, task_delete, task_create, close_fd, delay, set_opt, nonblocking,
  accept_on, keep_alive, keep_idle, keep_interval, keep_count,
}

-- The shutdowns of the descriptors, the last first.
abbrev pub shutdowns : List ℕ → List Call → List Call
shutdowns [] log = log
shutdowns (fd ∷ fds) log = shutdowns fds (shutdown fd ∷ log)

-- The calls of a round without a client, and of `n` of them.
abbrev pub idle : ℕ → ℕ → List Call → List Call
idle fd zero log = log
idle fd (suc n) log =
    idle fd n (delay 10 ∷ accept_on (pos (suc fd)) ∷ set_opt (pos (suc fd)) nonblocking 1 ∷ log)

module _ (env : Env Call) where
  shutdown_all-log :
      (fds : List ℕ) (w : World Socket Call)
      → (shutdown_all env fds w).1 ≡ record w { log = shutdowns fds w.log }
  shutdown_all-log [] w = refl
  shutdown_all-log (fd ∷ fds) w = shutdown_all-log fds _

  -- `stop` of an open socket shuts down each client that was accepted, in order, ends the task, closes
  -- the socket and forgets the clients, so a second `stop` does nothing.
  pub stop-stop :
      (w : World Socket Call) (fd : ℕ)
      → w.dev.socketfd ≡ pos fd
      → ((stop env w).1 ≡ record {
        dev = record w.dev { tcp_sockets = []; socketfd = negsuc 0 };
        log = close_fd (pos fd) ∷ task_delete ∷ shutdowns w.dev.tcp_sockets w.log;
      })
        × ((stop env (stop env w).1).1 ≡ (stop env w).1)
  unfolding stop
  stop-stop w fd e = (
    ground (arith, shutdown_all-log w.dev.tcp_sockets w),
    ground (arith, shutdown_all-log w.dev.tcp_sockets w),
  )

  -- The client `sockfd` is there in the round after `n` others.
  abbrev pub Arrives : ℕ → ℕ → ℕ → List Call → Type 0
  Arrives fd sockfd zero log =
      env.int (set_opt (pos (suc fd)) nonblocking 1 ∷ log) (accept_on (pos (suc fd))) ≡ pos sockfd
  Arrives fd sockfd (suc n) log =
      (env.int (set_opt (pos (suc fd)) nonblocking 1 ∷ log) (accept_on (pos (suc fd))) ≡ negsuc 0)
      × Arrives fd sockfd n (idle fd 1 log)

  poll_client-idle :
      (fd : ℕ) (w : World Socket Call)
      → w.dev.socketfd ≡ pos (suc fd)
      → env.int (set_opt (pos (suc fd)) nonblocking 1 ∷ w.log) (accept_on (pos (suc fd))) ≡ negsuc 0
      → poll_client env w ≡ (negsuc 0, record w { log = idle fd 1 w.log })
  unfolding poll_client try_accept
  poll_client-idle fd w e h = ground arith

  wait_client-idle :
      (fd fuel : ℕ) (w : World Socket Call)
      → w.dev.socketfd ≡ pos (suc fd)
      → env.int (set_opt (pos (suc fd)) nonblocking 1 ∷ w.log) (accept_on (pos (suc fd))) ≡ negsuc 0
      → wait_client env (suc fuel) w ≡ wait_client env fuel (record w { log = idle fd 1 w.log })
  unfolding wait_client
  wait_client-idle fd fuel w e h =
      rw (wait_client, poll_client-idle fd w e h)
        (ap (λ r. wait_client env fuel r.1) (poll_client-idle fd w e h))

  wait_client-Arrives :
      (fd sockfd n more : ℕ) (w : World Socket Call)
      → w.dev.socketfd ≡ pos (suc fd)
      → Arrives fd sockfd n w.log
      → wait_client env (n + suc more) w ≡ (some sockfd, record w { log = idle fd (suc n) w.log })
  unfolding wait_client poll_client try_accept
  wait_client-Arrives fd sockfd zero more w e h = ground arith
  wait_client-Arrives fd sockfd (suc n) more w e h =
      ap (λ fuel. wait_client env fuel w) {y = suc (n + suc more)} (omega arith)
      ∙ wait_client-idle fd (n + suc more) w e h.0
      ∙ wait_client-Arrives fd sockfd n more (record w { log = idle fd 1 w.log }) e h.1

  -- `accept` of an open TCP socket, if a client arrives after `n` rounds without one, returns the
  -- client's descriptor with any fuel above `n`: the client is remembered, announced, kept alive, and
  -- given a task, in this order.
  pub accept-Arrives :
      (fd sockfd n more : ℕ) (w : World Socket Call)
      → w.dev.sock_type ≡ tcp
      → w.dev.socketfd ≡ pos (suc fd)
      → Arrives fd sockfd n w.log
      → accept env (n + suc more) w ≡ (
        some (pos sockfd),
        record {
          dev = record w.dev { tcp_sockets = w.dev.tcp_sockets ++ (sockfd ∷ []) };
          log =
              task_create 3072 1
              ∷ set_opt (pos sockfd) keep_count 5
              ∷ set_opt (pos sockfd) keep_interval 5
              ∷ set_opt (pos sockfd) keep_idle 5
              ∷ set_opt (pos sockfd) keep_alive 1
              ∷ post (connected sockfd)
              ∷ idle fd (suc n) w.log;
        },
      )
  unfolding accept
  accept-Arrives fd sockfd n more w t e h =
      ground (arith, wait_client-Arrives fd sockfd n more w e h)

  shutdowns-append :
      (xs ys : List ℕ) (log : List Call)
      → shutdowns (xs ++ ys) log ≡ shutdowns ys (shutdowns xs log)
  shutdowns-append [] ys log = refl
  shutdowns-append (x ∷ xs) ys log = shutdowns-append xs ys (shutdown x ∷ log)

  -- A client's descriptor that its task has closed stays in the list: `stop` shuts it down again,
  -- whatever it stands for by then.
  pub stop-close :
      (before after : List ℕ) (sockfd fd : ℕ) (w : World Socket Call)
      → w.dev.sock_type ≡ tcp
      → w.dev.socketfd ≡ pos fd
      → w.dev.tcp_sockets ≡ before ++ (sockfd ∷ after)
      → (stop env (close env (pos sockfd) w).1).1.log
        ≡ close_fd (pos fd)
          ∷ task_delete
          ∷ shutdowns after (shutdown sockfd ∷ shutdowns before (close_fd (pos sockfd) ∷ w.log))
  unfolding stop close
  stop-close before after sockfd fd w t e h = ground (
    arith,
    shutdown_all-log w.dev.tcp_sockets (close env (pos sockfd) w).1,
    shutdowns-append before (sockfd ∷ after) (close_fd (pos sockfd) ∷ w.log),
  )
