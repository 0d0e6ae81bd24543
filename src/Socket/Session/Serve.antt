-- ===== src/Socket/Session/Serve.antt =====
-- The task of a TCP client serves the whole connection.
use esp32sx_c_plus_wrappers.Base.{
  ℕ, zero, suc, ◌+◌, ◌≤◌, List, ◌∷◌, ◌++◌, Bool, true, take, map, ◌≡◌, ◌≢◌, ==_iff, refl, sym, ap,
  ◌∙◌, arith,
}
use esp32sx_c_plus_wrappers.Base.Int.{ℤ, pos, negsuc}
use esp32sx_c_plus_wrappers.Driver.{Env, World}
use esp32sx_c_plus_wrappers.Socket.{
  Socket, Call, Event, tcp, recv, post, closed, received, get_errno, close_fd,
}
use esp32sx_c_plus_wrappers.Socket.Session.{
  tcp_loop, posted, recvs, chunks, reason, IsData, EndsBy, Served,
}

module _ (env : Env Call) (sockfd : ℕ) (w : World Socket Call) where
  abbrev received_call : Call
  received_call = recv sockfd w.dev.buf_size

  abbrev after_recv : List Call
  after_recv = received_call ∷ w.log

  chunks-end :
      (a : ℤ)
      → env.int w.log received_call ≡ a
      → ((n : ℕ) → a ≢ pos (suc n))
      → chunks env sockfd after_recv ≡ chunks env sockfd w.log
  unfolding chunks
  chunks-end (pos zero) e h = rw ((==_iff sockfd sockfd).1 refl, e, chunks)
  chunks-end (pos (suc n)) e h = absurd (h n refl)
  chunks-end (negsuc n) e h = rw ((==_iff sockfd sockfd).1 refl, e, chunks)

  chunks-suc :
      (n : ℕ)
      → env.int w.log received_call ≡ pos (suc n)
      → chunks env sockfd after_recv
        ≡ take (suc n) (env.bytes w.log received_call) ∷ chunks env sockfd w.log
  unfolding chunks
  chunks-suc n e = rw ((==_iff sockfd sockfd).1 refl, e, chunks)

  abbrev ended : ℕ → World Socket Call
  ended err = record w { log = close_fd (pos sockfd) ∷ post (closed err) ∷ after_recv }

  -- The answer `a` of the last `recv` is no data.
  ended-Served :
      (a : ℤ) (before : List Event)
      → env.int w.log received_call ≡ a
      → ¬ IsData a
      → chunks env sockfd after_recv ≡ chunks env sockfd w.log
      → posted w.log ≡ map (received (pos sockfd)) (chunks env sockfd w.log) ++ before
      → Served env sockfd before (ended (reason env a after_recv))
  unfolding chunks
  ended-Served a before answer over e h = record {
    rest = w.log;
    size = w.dev.buf_size;
    over = rw answer over;
    err = reason env a after_recv;
    says = ap (λ x. reason env x after_recv) (sym answer);
    events =
        ap (◌∷◌ (closed (reason env a after_recv)))
          (h ∙ ap (λ c. map (received (pos sockfd)) c ++ before) (sym e));
    last = refl;
  }

  abbrev delivered : ℕ → World Socket Call
  delivered n = record w {
    log = post (received (pos sockfd) (take (suc n) (env.bytes w.log received_call))) ∷ after_recv;
  }

  posted-delivered :
      (before : List Event) (n : ℕ)
      → env.int w.log received_call ≡ pos (suc n)
      → posted w.log ≡ map (received (pos sockfd)) (chunks env sockfd w.log) ++ before
      → posted (delivered n).log
        ≡ map (received (pos sockfd)) (chunks env sockfd (delivered n).log) ++ before
  unfolding chunks
  posted-delivered before n e p =
      ap (◌∷◌ (received (pos sockfd) (take (suc n) (env.bytes w.log received_call)))) p
      ∙ ap (λ c. map (received (pos sockfd)) c ++ before) (sym (chunks-suc n e))

  module _ (fuel : ℕ) where
    tcp_loop-suc :
        (n : ℕ)
        → env.int w.log received_call ≡ pos (suc n)
        → tcp_loop env (suc fuel) sockfd w ≡ tcp_loop env fuel sockfd (delivered n)
    unfolding tcp_loop
    tcp_loop-suc n e = rw (e, tcp_loop)

    tcp_loop-zero :
        w.dev.sock_type ≡ tcp
        → env.int w.log received_call ≡ pos zero
        → tcp_loop env (suc fuel) sockfd w ≡ (true, ended 0)
    unfolding tcp_loop
    tcp_loop-zero t e = ground arith

    tcp_loop-negsuc :
        (n : ℕ)
        → w.dev.sock_type ≡ tcp
        → env.int w.log received_call ≡ negsuc n
        → tcp_loop env (suc fuel) sockfd w ≡ (true, ended (env.code after_recv get_errno))
    unfolding tcp_loop
    tcp_loop-negsuc n t e = ground arith

abbrev pub Finished : Env Call → ℕ → List Event → Bool × World Socket Call → Type 0
Finished env sockfd before r = (r.0 ≡ true) × Served env sockfd before r.1

-- The round that reads the answer `a`; `next` is what the rounds after it do.
round_serves :
    (env : Env Call) (fuel sockfd : ℕ) (before : List Event) (w : World Socket Call) (a : ℤ)
    → w.dev.sock_type ≡ tcp
    → posted w.log ≡ map (received (pos sockfd)) (chunks env sockfd w.log) ++ before
    → env.int w.log (received_call env sockfd w) ≡ a
    → ((k : ℕ)
        → a ≡ pos (suc k)
        → posted (delivered env sockfd w k).log
          ≡ map (received (pos sockfd)) (chunks env sockfd (delivered env sockfd w k).log) ++ before
        → Finished env sockfd before (tcp_loop env fuel sockfd (delivered env sockfd w k)))
    → Finished env sockfd before (tcp_loop env (suc fuel) sockfd w)
round_serves env fuel sockfd before w (negsuc k) t p e next =
    rw (tcp_loop-negsuc env sockfd w fuel k t e) (
      refl,
      ended-Served env sockfd w (negsuc k) before e (λ d. d)
          (chunks-end env sockfd w _ e (λ n q. cc)) p,
    )
round_serves env fuel sockfd before w (pos zero) t p e next =
    rw (tcp_loop-zero env sockfd w fuel t e) (
      refl,
      ended-Served env sockfd w (pos zero) before e (λ d. d)
          (chunks-end env sockfd w _ e (λ n q. cc)) p,
    )
round_serves env fuel sockfd before w (pos (suc k)) t p e next =
    rw (tcp_loop-suc env sockfd w fuel k e)
      (next k refl (posted-delivered env sockfd w before k e p))

-- If the connection ends by its `n`th `recv`, fuel for the calls up to that one is enough: the task
-- has posted a data event for each chunk that was received from its client, in order. After the last
-- `recv` of the client, which gave no data, it has posted one close event, with `errno` if that failed
-- and else with 0, and closed the descriptor.
pub tcp_loop_serves :
    (env : Env Call) (fuel n sockfd : ℕ) (before : List Event) (w : World Socket Call)
    → EndsBy env n
    → w.dev.sock_type ≡ tcp
    → n ≤ recvs w.log + fuel
    → posted w.log ≡ map (received (pos sockfd)) (chunks env sockfd w.log) ++ before
    → Finished env sockfd before (tcp_loop env (suc fuel) sockfd w)
tcp_loop_serves env zero n sockfd before w ends t h p =
    round_serves env zero sockfd before w _ t p refl
      (λ k e _. absurd (omega (arith, ends w.log sockfd w.dev.buf_size k e)))
tcp_loop_serves env (suc fuel) n sockfd before w ends t h p =
    round_serves env (suc fuel) sockfd before w _ t p refl (λ k e q.
      tcp_loop_serves env fuel n sockfd before (delivered env sockfd w k) ends t (omega arith) q)
