-- ===== src/Http.antt =====
-- components/http-server-comp/http-server.cpp: the server object over esp_http_server, and what its
-- handlers ask of a request: the pairs of its query, its body, its headers.
pub mod Query
pub mod Body
pub mod Memory
mod Tests
use esp32sx_c_plus_wrappers.Base.{
  ℕ, zero, suc, ◌+◌, ◌*◌, List, [], ◌∷◌, ◌==◌, if◌then◌else◌, ltb, Bool, true, false, ◌&&◌, not,
  length, take, drop, min,
}
use esp32sx_c_plus_wrappers.Base.Int.{ℤ, pos, negsuc}
use esp32sx_c_plus_wrappers.Driver.{
  Env, World, M, pure, ask, ask_int, tell, gets, modify, ◌>>=◌, ◌>>◌,
}

-- The fields of `httpd_config_t` that the class sets. `wildcard` says that the matcher is
-- `httpd_uri_match_wildcard`.
pub record Config : Type 0 where
  pub wildcard : Bool
  pub max_open_sockets : ℕ
  pub stack_size : ℕ
  pub max_uri_handlers : ℕ
  pub server_port : ℕ
  pub ctrl_port : ℕ

-- The fields of `httpd_ssl_config_t` that the class sets: two texts with their lengths.
pub record SslConfig : Type 0 where
  pub ssl_wildcard : Bool
  pub cacert_pem : ℕ
  pub cacert_len : ℤ
  pub prvtkey_pem : ℕ
  pub prvtkey_len : ℤ

pub record HttpServer : Type 0 where
  pub handle : ℕ
  pub config : Config
  pub config_ssl : SslConfig
  pub port : ℕ

-- What the library knows of the request in hand: its query and its body.
pub record Req : Type 0 where
  pub query : List ℕ
  pub body : List ℕ

-- `httpd_uri_t`, with the object as the context of the handler.
pub record UriHandler : Type 0 where
  pub uri : List ℕ
  pub method : ℕ
  pub handler : ℕ
  pub is_websocket : Bool

-- `httpd_ws_frame_t`; the payload is a pointer.
pub record WsFrame : Type 0 where
  pub final : Bool
  pub fragmented : Bool
  pub type : ℕ
  pub payload : ℕ
  pub len : ℕ

-- `allocate` stands for `calloc` and `malloc`, and answers with the pointer, or NULL.
pub data Call : Type 0 where
  start_server : Config → Call
  stop_server : ℕ → Call
  register_handler : ℕ → UriHandler → Call
  unregister_handler : ℕ → List ℕ → ℕ → Call
  allocate free : ℕ → Call
  recv : ℕ → Call
  resp_send_408 : Call
  get_hdr_value_str : List ℕ → ℕ → Call
  get_hdr_value_len : List ℕ → Call
  resp_send_err : ℕ → List ℕ → Call
  resp_set_status resp_set_type resp_sendstr : List ℕ → Call
  resp_set_hdr : List ℕ → List ℕ → Call
  resp_send resp_send_chunk : List ℕ → Call
  ws_recv_frame : WsFrame → ℕ → Call
  ws_send_frame : WsFrame → Call
  ws_send_frame_async : ℕ → ℕ → WsFrame → Call
  start_ssl_server : SslConfig → Call

abbrev pub HttpM : Type 0 → Type 0
HttpM A = M HttpServer Call A

-- ESP_FAIL, ESP_ERR_INVALID_ARG and ESP_ERR_NOT_FOUND.
abbrev pub esp_fail : ℕ
esp_fail = 4294967295

abbrev pub err_invalid_arg : ℕ
err_invalid_arg = 0x102

abbrev pub err_not_found : ℕ
err_not_found = 0x105

-- HTTPD_SOCK_ERR_TIMEOUT is -3.
abbrev pub is_timeout : ℤ → Bool
is_timeout (negsuc n) = n == 2
is_timeout (pos n) = false

abbrev pub is_positive : ℤ → Bool
is_positive (pos n) = not (n == 0)
is_positive (negsuc n) = false

abbrev pub count_of : ℤ → ℕ
count_of (pos n) = n
count_of (negsuc n) = 0

-- The text in a buffer, and the code that came with it.
pub record Text : Type 0 where
  pub err : ℕ
  pub chars : List ℕ

-- The parsers of esp_http_server. `query_str q n` is what `httpd_req_get_url_query_str` leaves in a
-- buffer of `n` bytes for the query `q`, up to its end mark; `key_value text key n` is what
-- `httpd_query_key_value` leaves in one for a key.
pub record Parsers : Type 0 where
  pub query_str : List ℕ → ℕ → Text
  pub key_value : List ℕ → List ℕ → ℕ → Text

module _ (env : Env Call) where
  -- HTTPD_DEFAULT_CONFIG is `defaults`.
  unfoldable pub init : Config → ℕ → ℕ → HttpM (Unit {0})
  init defaults ctrl_port stack = modify (λ o. record o {
    config = record defaults {
      wildcard = true;
      max_open_sockets = 3;
      stack_size = stack;
      max_uri_handlers = 10;
      server_port = o.port;
      ctrl_port = ctrl_port;
    };
  })

  unfoldable pub init_config : Config → HttpM (Unit {0})
  init_config config = modify (λ o. record o { config = config })

  -- `start_server` answers with the error code; a server that starts has the handle `handle`.
  unfoldable pub start : ℕ → HttpM ℕ
  start handle w =
      let c = start_server w.dev.config in
      if env.code w.log c == 0
      then (0, record { dev = record w.dev { handle = handle }; log = c ∷ w.log })
      else (esp_fail, record w { log = c ∷ w.log })

  unfoldable pub stop : HttpM ℕ
  stop = do o ← gets (λ o. o); ask env (stop_server o.handle)

  unfoldable pub set_port : ℕ → HttpM (Unit {0})
  set_port port =
      modify (λ o. record o { port = port; config = record o.config { server_port = port } })

  unfoldable pub register_path : List ℕ → ℕ → ℕ → Bool → HttpM ℕ
  register_path uri fn method is_websocket = do
    o ← gets (λ o. o)
    ask env (
        register_handler o.handle
          (record { uri = uri; method = method; handler = fn; is_websocket = is_websocket }))

  unfoldable pub unregister_path : List ℕ → ℕ → HttpM ℕ
  unregister_path uri method = do
    o ← gets (λ o. o)
    ask env (unregister_handler o.handle uri method)

  module _ (parsers : Parsers) (req : Req) where
    -- What `httpd_query_key_value` gives for a text behind a pointer; nothing is written for NULL.
    abbrev pub look_up : ℕ → Text → List ℕ → ℕ → Text
    look_up p text key n =
        if p == 0
        then record { err = err_invalid_arg; chars = [] }
        else parsers.key_value text.chars key n

    abbrev pub read_query : ℕ → ℕ → Text
    read_query p n =
        if p == 0
        then record { err = err_invalid_arg; chars = [] }
        else parsers.query_str req.query n

    -- The query is read into a buffer of its own length, so that it is cut by its last character.
    pub has_key : List ℕ → HttpM Bool
    has_key key =
        let len = length req.query in
        if ltb 0 len
        then (do
          buf ← ask env (allocate len)
          let val = look_up buf (read_query buf len) key 10
          tell env (free buf)
          pure (not (val.err == err_not_found) && ltb 0 (length val.chars)))
        else pure false

    -- The result is the error code, with what the caller's buffer of `len` bytes holds.
    pub get_key : List ℕ → ℕ → HttpM Text
    unfolding has_key
    get_key key len = do
      found ← has_key key
      if found && ltb 0 len
          then (do
            buf ← ask env (allocate (length req.query + 1))
            let text = read_query buf (length req.query + 1)
            tell env (free buf)
            pure (
                if text.err == 0
                then look_up buf text key len
                else record { err = text.err; chars = [] }))
          else pure (record { err = esp_fail; chars = [] })

    -- How much of the body has been received.
    abbrev pub received : List Call → ℕ
    received [] = 0
    received (recv n ∷ log) = count_of (env.int log (recv n)) + received log
    received (_ ∷ log) = received log

    -- `httpd_req_recv`: the count or an error, and the bytes. It is taken to answer with the next
    -- bytes of the body, and with no more than were asked for.
    abbrev pub receive : ℕ → HttpM (ℤ × List ℕ)
    receive n w = (
      (
        env.int w.log (recv n),
        take (count_of (env.int w.log (recv n))) (drop (received w.log) req.body),
      ),
      record w { log = recv n ∷ w.log },
    )

    tell_408 : ℤ → HttpM (Unit {0})
    tell_408 r = if is_timeout r then tell env resp_send_408 else pure tt

    -- The body is received into a buffer that is given up at once.
    pub has_query : HttpM Bool
    unfolding tell_408
    has_query = do
      content ← ask env (allocate 500)
      (r, _) ← receive (min (length req.body) 500)
      if is_positive r
          then (do tell env (free content); pure true)
          else (do tell_408 r; tell env (free content); pure false)

    pub get_query : ℕ → HttpM (ℤ × List ℕ)
    unfolding tell_408
    get_query len = do
      (r, bytes) ← receive (min (length req.body) len)
      if is_positive r then pure (r, bytes) else (do tell_408 r; pure (r, bytes))

  -- ESP_FAIL is -1.
  unfoldable pub get_header : List ℕ → ℕ → HttpM ℤ
  get_header field val_size = do
    e ← ask env (get_hdr_value_str field val_size)
    if e == 0 then (do n ← ask env (get_hdr_value_len field); pure (pos n)) else pure (negsuc 0)

  -- `enabled` is CONFIG_ESP_HTTPS_SERVER_ENABLE. The other fields are those of
  -- HTTPD_SSL_CONFIG_DEFAULT, which are not modelled.
  unfoldable pub init_ssl : Bool → ℕ → ℤ → ℕ → ℤ → HttpM (Unit {0})
  init_ssl enabled cacert_pem cacert_len prvtkey_pem prvtkey_len =
      if enabled
      then modify (λ o. record o {
        config_ssl = record {
          ssl_wildcard = true;
          cacert_pem = cacert_pem;
          cacert_len = cacert_len;
          prvtkey_pem = prvtkey_pem;
          prvtkey_len = prvtkey_len;
        };
      })
      else pure tt

  unfoldable pub init_ssl_config : SslConfig → HttpM (Unit {0})
  init_ssl_config config = modify (λ o. record o { config_ssl = config })

  -- The server's handle is `handle` if it starts.
  unfoldable pub start_ssl : Bool → ℕ → HttpM ℕ
  start_ssl enabled handle w =
      if enabled
      then (
        env.code w.log (start_ssl_server w.dev.config_ssl),
        record {
          dev = record w.dev {
            handle =
                if env.code w.log (start_ssl_server w.dev.config_ssl) == 0
                then handle
                else w.dev.handle;
          };
          log = start_ssl_server w.dev.config_ssl ∷ w.log;
        },
      )
      else (esp_fail, w)

  unfoldable pub send_error : ℕ → List ℕ → HttpM ℕ
  send_error error message = ask env (resp_send_err error message)

  unfoldable pub set_status : List ℕ → HttpM ℕ
  set_status status = ask env (resp_set_status status)

  unfoldable pub set_content_type : List ℕ → HttpM ℕ
  set_content_type type = ask env (resp_set_type type)

  unfoldable pub set_header : List ℕ → List ℕ → HttpM ℕ
  set_header field value = ask env (resp_set_hdr field value)

  unfoldable pub send : List ℕ → HttpM ℕ
  send buf = ask env (resp_send buf)

  unfoldable pub send_text : List ℕ → HttpM ℕ
  send_text text = ask env (resp_sendstr text)

  unfoldable pub send_chunk : List ℕ → HttpM ℕ
  send_chunk buf = ask env (resp_send_chunk buf)

  unfoldable pub ws_send_packet : WsFrame → HttpM ℕ
  ws_send_packet frame = ask env (ws_send_frame frame)

  -- The frame is zeroed but for its payload, which is the caller's buffer.
  unfoldable pub ws_get_packet : ℕ → ℕ → HttpM ℕ
  ws_get_packet buf max_len = ask env (
      ws_recv_frame (record { final = false; fragmented = false; type = 0; payload = buf; len = 0 })
        max_len)

  unfoldable pub ws_send_async : ℕ → WsFrame → HttpM ℕ
  ws_send_async fd frame = do o ← gets (λ o. o); ask env (ws_send_frame_async o.handle fd frame)

unfoldable pub build_packet : ℕ → ℕ → ℕ → Bool → Bool → WsFrame
build_packet payload len type fragmented final = record {
  final = final;
  fragmented = fragmented;
  type = type;
  payload = payload;
  len = len;
}
