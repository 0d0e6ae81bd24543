-- ===== src/Socket/Tests.antt =====
-- Concrete peers for components/socket-server.
use esp32sx_c_plus_wrappers.Base.{
  ℕ, suc, ◌+◌, List, [], ◌∷◌, ◌++◌, map, if◌then◌else◌, ◌≡◌, refl, arith, some, length, ltb, min,
}
use esp32sx_c_plus_wrappers.Base.Int.{ℤ, pos, negsuc}
use esp32sx_c_plus_wrappers.Driver.{Env, World}
use esp32sx_c_plus_wrappers.Socket as S
use esp32sx_c_plus_wrappers.Socket.{Socket, Call, tcp, accept, stop, close}
use esp32sx_c_plus_wrappers.Socket.Session.{posted, chunks, tcp_loop, recvs, EndsBy}
use esp32sx_c_plus_wrappers.Socket.Session.Serve.{Finished, tcp_loop_serves}
use esp32sx_c_plus_wrappers.Socket.Lifecycle.{idle, accept-Arrives}

-- A server that listens on descriptor 3 and has accepted the client 5.
abbrev server : Socket
server = record {
  sock_type = tcp;
  socketfd = pos 3;
  bind_port = 80;
  buf_size = 128;
  tcp_sockets = 5 ∷ [];
}

abbrev started : World Socket Call
started = record { dev = server; log = [] }

abbrev request_size : Call → ℕ
request_size (S.send_to_peer _ bytes) = length bytes
request_size _ = 0

-- A peer that takes two bytes of each request, sends two packets of three bytes, and closes; a
-- client is there in the second round.
abbrev answer : List Call → Call → ℤ
answer log (S.send_to_peer _ bytes) = pos (min 2 (length bytes))
answer log (S.recv _ _) = if ltb (recvs log) 2 then pos 3 else pos 0
answer (_ ∷ []) (S.accept_on _) = negsuc 0
answer log (S.accept_on _) = pos 7
answer log _ = pos 0

abbrev env_peer : Env Call
env_peer = record { code = λ _ _. 0; int = answer; bytes = λ _ _. 1 ∷ 2 ∷ 3 ∷ [] }

env_peer-EndsBy : EndsBy env_peer 2
env_peer-EndsBy log fd size k h = ground arith

nothing_posted : posted [] ≡ map (S.received (pos 5)) (chunks env_peer 5 []) ++ []
unfolding chunks
nothing_posted = refl

tcp_loop_serves_example : Finished env_peer 5 [] (tcp_loop env_peer 3 5 started)
tcp_loop_serves_example =
    tcp_loop_serves env_peer 2 2 5 [] started env_peer-EndsBy refl (omega arith) nothing_posted

accept-Arrives_example : accept env_peer (1 + suc 4) started ≡ (
  some (pos 7),
  record {
    dev = record server { tcp_sockets = (5 ∷ []) ++ (7 ∷ []) };
    log =
        S.task_create 3072 1
        ∷ S.set_opt (pos 7) S.keep_count 5
        ∷ S.set_opt (pos 7) S.keep_interval 5
        ∷ S.set_opt (pos 7) S.keep_idle 5
        ∷ S.set_opt (pos 7) S.keep_alive 1
        ∷ S.post (S.connected 7)
        ∷ idle 2 2 [];
  },
)
accept-Arrives_example = accept-Arrives env_peer 2 7 1 4 started refl refl (refl, refl)
