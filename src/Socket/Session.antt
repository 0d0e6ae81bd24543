-- ===== src/Socket/Session.antt =====
-- `socket_task` of components/socket-server/socket-server.cpp: what a client or a peer sends becomes
-- events, until the connection ends.
pub mod Serve
use esp32sx_c_plus_wrappers.Base.{
  ℕ, zero, suc, ◌+◌, ◌≤◌, ◌<◌, List, [], ◌∷◌, ◌++◌, ◌==◌, if◌then◌else◌, Bool, true, false, take,
  map, ◌≡◌, ◌≢◌, refl, sym, ap, ◌∙◌, arith, inl, inr,
}
use esp32sx_c_plus_wrappers.Base.Int.{ℤ, pos, negsuc}
use esp32sx_c_plus_wrappers.Driver.{Env, World, pure, tell, gets, ◌>>=◌, ◌>>◌}
use esp32sx_c_plus_wrappers.Socket.{
  Socket, SocketM, Call, Event, tcp, udp, raw, recv, recv_from, post, closed, received, close,
  on_data, on_close, get_errno, close_fd,
}

-- The events that have been posted, the last first.
abbrev pub posted : List Call → List Event
posted [] = []
posted (post e ∷ log) = e ∷ posted log
posted (_ ∷ log) = posted log

-- The number of `recv` calls.
abbrev pub recvs : List Call → ℕ
recvs [] = 0
recvs (recv _ _ ∷ log) = suc (recvs log)
recvs (_ ∷ log) = recvs log

module _ (env : Env Call) where
  -- The loop of a TCP client's task. The packet holds the first `len` bytes of the buffer. The fuel
  -- bounds the packets, and `false` means that it ran out.
  pub tcp_loop : ℕ → ℕ → SocketM Bool
  unfolding close
  tcp_loop zero sockfd w = (false, w)
  tcp_loop (suc fuel) sockfd w =
      let c = recv sockfd w.dev.buf_size in
      let w' : World Socket Call = record w { log = c ∷ w.log } in
      elim (env.int w.log c) [
        | negsuc _ ↦
            (do on_close env (env.code w'.log get_errno); close env (pos sockfd); pure true) w'
        | pos zero ↦ (do on_close env 0; close env (pos sockfd); pure true) w'
        | pos (suc n) ↦
            tcp_loop fuel sockfd (on_data env (pos sockfd) (take (suc n) (env.bytes w.log c)) w').1
      ]

  -- The loop of a UDP socket's task: a datagram may be empty, and only an error ends it.
  unfoldable pub udp_loop : ℕ → SocketM Bool
  unfolding close
  udp_loop zero w = (false, w)
  udp_loop (suc fuel) w =
      let c = recv_from w.dev.socketfd w.dev.buf_size in
      let w' : World Socket Call = record w { log = c ∷ w.log } in
      elim (env.int w.log c) [
        | negsuc _ ↦
            (do on_close env (env.code w'.log get_errno); close env (negsuc 0); pure true) w'
        | pos n ↦ udp_loop fuel (on_data env w.dev.socketfd (take n (env.bytes w.log c)) w').1
      ]

  -- The chunks that `recv` has given for the descriptor `peer`, the last first.
  unfoldable pub chunks : ℕ → List Call → List (List ℕ)
  chunks peer [] = []
  chunks peer (recv fd size ∷ log) =
      let before = chunks peer log in
      if fd == peer
      then elim (env.int log (recv fd size)) [
        | pos (suc n) ↦ take (suc n) (env.bytes log (recv fd size)) ∷ before
        | _ ↦ before
      ]
      else before
  chunks peer (_ ∷ log) = chunks peer log

  -- What the close event tells of the last answer of `recv`: 0 for the end, `errno` for an error.
  abbrev pub reason : ℤ → List Call → ℕ
  reason (pos _) log = 0
  reason (negsuc _) log = env.code log get_errno

abbrev pub IsData : ℤ → Type 0
IsData (pos (suc _)) = Unit {0}
IsData _ = ⊥

-- The connection ends at the latest with the `recv` numbered `n`.
abbrev pub EndsBy : Env Call → ℕ → Type 0
EndsBy env n =
    (log : List Call) (fd size k : ℕ) → env.int log (recv fd size) ≡ pos (suc k) → recvs log < n

-- How a client's task ends: each chunk has become a data event, in order. The last `recv` of the
-- client has given no data; one close event comes after it, with 0 for the end of the connection and
-- `errno` for an error, and the descriptor is closed.
pub record Served (env : Env Call) (sockfd : ℕ) (before : List Event) (w : World Socket Call)
    : Type 0 where
  pub rest : List Call
  pub size : ℕ
  pub over : ¬ IsData (env.int rest (recv sockfd size))
  pub err : ℕ
  pub says : err ≡ reason env (env.int rest (recv sockfd size)) (recv sockfd size ∷ rest)
  pub events :
      posted w.log ≡ closed err ∷ (map (received (pos sockfd)) (chunks env sockfd w.log) ++ before)
  pub last : w.log ≡ close_fd (pos sockfd) ∷ post (closed err) ∷ recv sockfd size ∷ rest
