-- ===== src/Socket.antt =====
-- components/socket-server: TCP and UDP sockets whose received data is posted to the event loop.
-- Logging is left out. A file descriptor is a number; `socketfd` is -1 with no socket.
pub mod Send
pub mod Session
pub mod Lifecycle
pub mod Publish
mod Tests
use esp32sx_c_plus_wrappers.Base.{
  ℕ, zero, suc, ◌+◌, ◌-◌, ◌%◌, List, [], ◌∷◌, ◌++◌, ◌==◌, if◌then◌else◌, ltb, leb, Bool, true,
  false, Option, none, some,
}
use esp32sx_c_plus_wrappers.Base.Int.{ℤ, pos, negsuc, is_neg}
use esp32sx_c_plus_wrappers.Driver.{
  Env, World, M, pure, ask, ask_int, tell, gets, modify, ◌>>=◌, ◌>>◌,
}

-- SOCK_STREAM, SOCK_DGRAM, SOCK_RAW
pub data SockType : Type 0 where
  tcp udp raw : SockType

-- The class's fields; the address family and protocol are only handed on.
pub record Socket : Type 0 where
  pub sock_type : SockType
  pub socketfd : ℤ
  pub bind_port : ℕ
  pub buf_size : ℕ
  pub tcp_sockets : List ℕ

-- SOCKET_CONNECTED with the new descriptor, SOCKET_DATA with a packet, SOCKET_CLOSE with an errno.
pub data Event : Type 0 where
  connected : ℕ → Event
  received : ℤ → List ℕ → Event
  closed : ℕ → Event

pub data Opt : Type 0 where
  reuse_addr keep_alive keep_idle keep_interval keep_count nonblocking multicast_ttl
        add_membership :
      Opt

-- The calls of lwip and FreeRTOS, and `errno`, which reads the error of the call before.
pub data Call : Type 0 where
  new_socket : Call
  set_opt : ℤ → Opt → ℕ → Call
  bind_to : ℤ → ℕ → ℕ → Call
  listen_on : ℤ → ℕ → Call
  accept_on : ℤ → Call
  recv : ℕ → ℕ → Call
  recv_from : ℤ → ℕ → Call
  send_to_peer : ℕ → List ℕ → Call
  send_datagram : ℤ → List ℕ → Call
  shutdown : ℕ → Call
  close_fd : ℤ → Call
  post : Event → Call
  task_create : ℕ → ℕ → Call
  task_delete : Call
  delay : ℕ → Call
  get_errno : Call
  parse_address : Call
  resolve : List ℕ → Call
  send_to_address : ℤ → ℕ → ℕ → List ℕ → Call
  free_address : ℕ → Call
  set_sockopt : ℤ → ℕ → ℕ → List ℕ → Call

abbrev pub SocketM : Type 0 → Type 0
SocketM A = M Socket Call A

module _ (env : Env Call) where
  -- `EventLoop::postDefault`, whose answer is not looked at.
  abbrev pub post_event : Event → SocketM (Unit {0})
  post_event e = tell env (post e)

  -- `errno`
  abbrev pub last_error : SocketM ℕ
  last_error w = (env.code w.log get_errno, w)

  unfoldable pub set_port : ℕ → SocketM (Unit {0})
  set_port port = modify (λ o. record o { bind_port = port })

  unfoldable pub set_type : SockType → SocketM (Unit {0})
  set_type type = modify (λ o. record o { sock_type = type })

  -- The size is a uint16_t.
  unfoldable pub set_buffer_size : ℕ → SocketM (Unit {0})
  set_buffer_size size = modify (λ o. record o { buf_size = size % 65536 })

  -- Any other option, by its level, its name and its value's bytes.
  unfoldable pub set_con_opt : ℤ → ℕ → ℕ → List ℕ → SocketM (Unit {0})
  set_con_opt sockfd level name val = tell env (set_sockopt sockfd level name val)

  unfoldable pub set_own_opt : ℕ → ℕ → List ℕ → SocketM (Unit {0})
  set_own_opt level name val = do
    fd ← gets (λ o. o.socketfd)
    tell env (set_sockopt fd level name val)

  -- `create`, with `reuse(true)`.
  unfoldable pub create : SocketM (Unit {0})
  create = do
    fd ← ask_int env new_socket
    modify (λ o. record o { socketfd = fd })
    tell env (set_opt fd reuse_addr 1)

  -- A port of 0 keeps the one that is set.
  unfoldable pub bind : ℕ → ℕ → SocketM ℕ
  bind addr port = do
    modify (λ o. if ltb 0 port then record o { bind_port = port } else o)
    o ← gets (λ o. o)
    err ← ask_int env (bind_to o.socketfd addr o.bind_port)
    elim err [ pos zero ↦ pure 0 | _ ↦ last_error ]

  unfoldable pub listen : SocketM (Unit {0})
  listen = do
    o ← gets (λ o. o)
    elim o.sock_type [ tcp ↦ tell env (listen_on o.socketfd 1) | _ ↦ pure tt ]

  -- `close`: a UDP socket is left open.
  pub close : ℤ → SocketM (Unit {0})
  close sockfd = do
    o ← gets (λ o. o)
    elim o.sock_type [ tcp ↦ tell env (close_fd sockfd) | _ ↦ pure tt ]

  abbrev pub on_connect : ℕ → SocketM (Unit {0})
  on_connect sockfd = post_event (connected sockfd)

  abbrev pub on_data : ℤ → List ℕ → SocketM (Unit {0})
  on_data sockfd bytes = post_event (received sockfd bytes)

  abbrev pub on_close : ℕ → SocketM (Unit {0})
  on_close err = post_event (closed err)

  pub keep_alive_on : ℕ → SocketM (Unit {0})
  keep_alive_on sockfd = do
    tell env (set_opt (pos sockfd) keep_alive 1)
    tell env (set_opt (pos sockfd) keep_idle 5)
    tell env (set_opt (pos sockfd) keep_interval 5)
    tell env (set_opt (pos sockfd) keep_count 5)

  pub start_task : SocketM (Unit {0})
  start_task = tell env (task_create 3072 1)

  -- One round of the loop of `accept`: the descriptor of a client, or -1. Without a socket, or with
  -- descriptor 0, nobody is asked.
  try_accept : ℤ → SocketM ℤ
  try_accept (pos (suc fd)) = do
    tell env (set_opt (pos (suc fd)) nonblocking 1)
    ask_int env (accept_on (pos (suc fd)))
  try_accept _ = pure (negsuc 0)

  pub poll_client : SocketM ℤ
  unfolding try_accept
  poll_client = do
    fd ← gets (λ o. o.socketfd)
    sockfd ← try_accept fd
    tell env (delay 10)
    pure sockfd

  -- The fuel bounds the rounds; `none` means that there was no client in them.
  pub wait_client : ℕ → SocketM (Option ℕ)
  wait_client zero w = (none, w)
  wait_client (suc fuel) w =
      let (sockfd, w') = poll_client w in
      elim sockfd [ pos n ↦ (some n, w') | negsuc _ ↦ wait_client fuel w' ]

  -- What `accept` does with a client: it is remembered, announced, and given a task of its own.
  pub welcome : ℕ → SocketM ℤ
  unfolding keep_alive_on start_task
  welcome sockfd = do
    modify (λ o. record o { tcp_sockets = o.tcp_sockets ++ (sockfd ∷ []) })
    on_connect sockfd
    keep_alive_on sockfd
    start_task
    pure (pos sockfd)

  -- `accept` of a TCP socket waits for a client. Other sockets return -1.
  pub accept : ℕ → SocketM (Option ℤ)
  unfolding wait_client welcome
  accept fuel = do
    o ← gets (λ o. o)
    elim o.sock_type [
      | tcp ↦ (do
        client ← wait_client fuel
        elim client [ none ↦ pure none | some sockfd ↦ (do fd ← welcome sockfd; pure (some fd)) ])
      | _ ↦ pure (some (negsuc 0))
    ]

  abbrev shutdown_all : List ℕ → SocketM (Unit {0})
  shutdown_all [] = pure tt
  shutdown_all (fd ∷ fds) = tell env (shutdown fd) >> shutdown_all fds

  -- `stop` does nothing without a socket.
  pub stop : SocketM (Unit {0})
  stop = do
    o ← gets (λ o. o)
    if is_neg o.socketfd then pure tt else (do
      shutdown_all o.tcp_sockets
      tell env task_delete
      modify (λ o. record o { tcp_sockets = [] })
      tell env (close_fd o.socketfd)
      modify (λ o. record o { socketfd = negsuc 0 }))

  -- The third error test of `createMulticast` looks at the answer of `bind` once more.
  unfoldable pub create_multicast : ℕ → SocketM ℕ
  create_multicast ttl = do
    fd ← ask_int env new_socket
    modify (λ o. record o { socketfd = fd })
    if is_neg fd then last_error else (do
      port ← gets (λ o. o.bind_port)
      err ← ask_int env (bind_to fd 0 port)
      if is_neg err then last_error else (do
        tell env (set_opt fd multicast_ttl ttl)
        if is_neg err then last_error else pure 0))

  -- `addToGroup` returns `errno` on every path.
  unfoldable pub add_to_group : SocketM ℕ
  add_to_group = do
    fd ← gets (λ o. o.socketfd)
    parsed ← ask_int env parse_address
    elim parsed [ pos (suc zero) ↦ tell env (set_opt fd add_membership 0) | _ ↦ pure tt ]
    last_error
