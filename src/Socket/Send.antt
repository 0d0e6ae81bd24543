-- ===== src/Socket/Send.antt =====
-- `Socket::send` of components/socket-server/socket-server.cpp: the loop that sends the rest of the
-- data until all of it is taken.
use esp32sx_c_plus_wrappers.Base.{
  ℕ, zero, suc, ◌+◌, ◌≤◌, ◌<◌, List, [], ◌∷◌, ◌++◌, ◌==◌, ==_iff, if◌then◌else◌, length, take, drop,
  ◌≡◌, ◌≢◌, refl, sym, ap, ◌∙◌, arith, append_assoc, append-nil, length-drop, take-append-take,
}
use esp32sx_c_plus_wrappers.Base.Int.{ℤ, pos, negsuc, is_neg}
use esp32sx_c_plus_wrappers.Driver.{Env, World, pure, ask_int, gets, ◌>>=◌}
use esp32sx_c_plus_wrappers.Socket.{
  Socket, SocketM, Call, tcp, udp, raw, send_to_peer, send_datagram,
}

-- How the loop ends: all is sent, `::send` failed, or the fuel ran out.
pub data Outcome : Type 0 where
  sent failed unfinished : Outcome

module _ (env : Env Call) where
  -- The data that is left is what the code calls `data + (len - to_write)`, of length `to_write`. A
  -- descriptor that takes nothing makes the loop go round again.
  pub send_loop : ℕ → ℕ → List ℕ → SocketM Outcome
  send_loop fuel sockfd [] w = (sent, w)
  send_loop zero sockfd (x ∷ left) w = (unfinished, w)
  send_loop (suc fuel) sockfd (x ∷ left) w =
      let c = send_to_peer sockfd (x ∷ left) in
      let w' : World Socket Call = record w { log = c ∷ w.log } in
      elim (env.int w.log c) [
        | negsuc _ ↦ (failed, w')
        | pos written ↦ send_loop fuel sockfd (drop written (x ∷ left)) w'
      ]

  -- A datagram is sent whole, on the object's own descriptor.
  pub send : ℕ → ℕ → List ℕ → SocketM Outcome
  unfolding send_loop
  send fuel sockfd bytes = do
    o ← gets (λ o. o)
    elim o.sock_type [
      | tcp ↦ send_loop fuel sockfd bytes
      | udp ↦ (do
        err ← ask_int env (send_datagram o.socketfd bytes)
        pure (if is_neg err then failed else sent))
      | raw ↦ pure failed
    ]

  -- The bytes that the stream of the peer with the descriptor `peer` has taken: of each request to it
  -- as many as were answered.
  pub taken : ℕ → List Call → List ℕ
  taken peer [] = []
  taken peer (send_to_peer fd bytes ∷ log) =
      let before = taken peer log in
      if fd == peer
      then elim (env.int log (send_to_peer fd bytes)) [
        | pos n ↦ before ++ take n bytes
        | negsuc _ ↦ before
      ]
      else before
  taken peer (_ ∷ log) = taken peer log

-- `::send` takes at least one byte and no more than it is given, or fails.
abbrev pub TakesSome : Env Call → Type 0
TakesSome env =
    (log : List Call) (fd : ℕ) (bytes : List ℕ) (n : ℕ)
    → bytes ≢ []
    → env.int log (send_to_peer fd bytes) ≡ pos n
    → (0 < n) × (n ≤ length bytes)

-- How a loop that had `left` to send to a peer has ended.
pub record Progress (env : Env Call) (peer : ℕ) (log : List Call) (left : List ℕ)
    (r : Outcome × World Socket Call) : Type 0 where
  pub count : ℕ
  pub stream : taken env peer r.1.log ≡ taken env peer log ++ take count left
  pub within : count ≤ length left
  pub whole : r.0 ≡ sent → count ≡ length left
  pub finished : r.0 ≢ unfinished

module _ (env : Env Call) where
  taken-pos :
      (log : List Call) (fd n : ℕ) (bytes : List ℕ)
      → env.int log (send_to_peer fd bytes) ≡ pos n
      → taken env fd (send_to_peer fd bytes ∷ log) ≡ taken env fd log ++ take n bytes
  unfolding taken
  taken-pos log fd n bytes e = rw ((==_iff fd fd).1 refl, e, taken)

  taken-negsuc :
      (log : List Call) (fd n : ℕ) (bytes : List ℕ)
      → env.int log (send_to_peer fd bytes) ≡ negsuc n
      → taken env fd (send_to_peer fd bytes ∷ log) ≡ taken env fd log
  unfolding taken
  taken-negsuc log fd n bytes e = rw ((==_iff fd fd).1 refl, e, taken)

  module _ (fuel sockfd x : ℕ) (left : List ℕ) (w : World Socket Call) where
    abbrev request : Call
    request = send_to_peer sockfd (x ∷ left)

    abbrev asked : World Socket Call
    asked = record w { log = request ∷ w.log }

    send_loop-pos :
        (n : ℕ)
        → env.int w.log request ≡ pos n
        → send_loop env (suc fuel) sockfd (x ∷ left) w
          ≡ send_loop env fuel sockfd (drop n (x ∷ left)) asked
    unfolding send_loop
    send_loop-pos n e = rw (e, send_loop)

    send_loop-negsuc :
        (n : ℕ)
        → env.int w.log request ≡ negsuc n
        → send_loop env (suc fuel) sockfd (x ∷ left) w ≡ (failed, asked)
    unfolding send_loop
    send_loop-negsuc n e = rw (e, send_loop)

    failed-Progress :
        (n : ℕ)
        → env.int w.log request ≡ negsuc n
        → Progress env sockfd w.log (x ∷ left) (failed, asked)
    failed-Progress n e = record {
      count = 0;
      stream = taken-negsuc w.log sockfd n (x ∷ left) e ∙ sym (append-nil (taken env sockfd w.log));
      within = omega arith;
      whole = λ q. cc;
      finished = λ q. cc;
    }

    next-Progress :
        (n : ℕ) (r : Outcome × World Socket Call)
        → env.int w.log request ≡ pos n
        → n ≤ length (x ∷ left)
        → Progress env sockfd asked.log (drop n (x ∷ left)) r
        → Progress env sockfd w.log (x ∷ left) r
    next-Progress n r e bound p =
        let rest = length-drop n (x ∷ left) in
        record {
          count = n + p.count;
          stream =
              p.stream
              ∙ (ap (λ l. l ++ take p.count (drop n (x ∷ left)))
                    (taken-pos w.log sockfd n (x ∷ left) e)
                  ∙ (append_assoc (taken env sockfd w.log) (take n (x ∷ left)) _
                      ∙ ap (λ l. taken env sockfd w.log ++ l)
                          (take-append-take n p.count (x ∷ left))));
          within = omega (arith, rest, p.within);
          whole = λ q. omega (arith, p.whole q, rest);
          finished = p.finished;
        }

module _ (env : Env Call) (some_taken : TakesSome env) where
  -- With fuel for every byte the loop ends, on each history, and the stream has grown by a prefix of
  -- the data, by all of it if no call failed.
  pub send_loop-Progress :
      (fuel sockfd : ℕ) (left : List ℕ) (w : World Socket Call)
      → length left ≤ fuel
      → Progress env sockfd w.log left (send_loop env fuel sockfd left w)
  unfolding send_loop
  send_loop-Progress fuel sockfd [] w h = record {
    count = 0;
    stream = sym (append-nil (taken env sockfd w.log));
    within = omega arith;
    whole = λ _. refl;
    finished = λ q. cc;
  }
  send_loop-Progress zero sockfd (x ∷ left) w h = absurd (omega arith)
  send_loop-Progress (suc fuel) sockfd (x ∷ left) w h =
      go (env.int w.log (send_to_peer sockfd (x ∷ left))) refl
        (λ n. send_loop-Progress fuel sockfd (drop n (x ∷ left)) (asked env fuel sockfd x left w))
    where
      go :
          (a : ℤ)
          → env.int w.log (send_to_peer sockfd (x ∷ left)) ≡ a
          → ((n : ℕ)
              → length (drop n (x ∷ left)) ≤ fuel
              → Progress env sockfd
                  (send_to_peer sockfd (x ∷ left) ∷ w.log)
                  (drop n (x ∷ left))
                  (send_loop env fuel sockfd (drop n (x ∷ left)) (asked env fuel sockfd x left w)))
          → Progress env sockfd w.log (x ∷ left) (send_loop env (suc fuel) sockfd (x ∷ left) w)
      go (negsuc n) e next =
          rw (send_loop-negsuc env fuel sockfd x left w n e)
            (failed-Progress env fuel sockfd x left w n e)
      go (pos n) e next =
          let bounds = some_taken w.log sockfd (x ∷ left) n (λ q. cc) e in
          rw (send_loop-pos env fuel sockfd x left w n e) (
            next-Progress env fuel sockfd x left w n _ e bounds.1
              (next n (omega (arith, length-drop n (x ∷ left), bounds))))
