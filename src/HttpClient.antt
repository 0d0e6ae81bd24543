-- ===== src/HttpClient.antt =====
-- components/http-client-comp: an esp_http_client behind its handle. The functions of
-- esp_http_client are a data type, each given the handle.
pub mod Lifetime
mod Tests
use esp32sx_c_plus_wrappers.Base.{ℕ, List, ◌==◌, Bool, not}
use esp32sx_c_plus_wrappers.Base.Int.{ℤ}
use esp32sx_c_plus_wrappers.Driver.{
  Env, M, pure, ask, ask_int, ask_bytes, tell, gets, modify, ◌>>=◌, ◌>>◌,
}

pub record HttpClient : Type 0 where
  pub handle : ℕ

pub data Function : Type 0 where
  do_perform get_post_field client_close client_cleanup fetch_headers get_status_code
        get_content_length is_chunked_response :
      Function
  set_post_field client_write set_client_url : List ℕ → Function
  set_header : List ℕ → List ℕ → Function
  set_method client_read : ℕ → Function
  client_open : ℤ → Function

-- A configuration is a number.
pub data Call : Type 0 where
  client_init : ℕ → Call
  calling : Function → ℕ → Call

abbrev pub ClientM : Type 0 → Type 0
ClientM A = M HttpClient Call A

module _ (env : Env Call) where
  pub init : ℕ → ClientM (Unit {0})
  init config = do h ← ask env (client_init config); modify (λ o. record o { handle = h })

  -- A function of esp_http_client with the object's handle: its error code or other answer.
  abbrev pub code_of : Function → ClientM ℕ
  code_of f = do h ← gets (λ o. o.handle); ask env (calling f h)

  abbrev pub int_of : Function → ClientM ℤ
  int_of f = do h ← gets (λ o. o.handle); ask_int env (calling f h)

  -- An `int`, and the bytes that are written through a pointer.
  abbrev pub int_bytes_of : Function → ClientM (ℤ × List ℕ)
  int_bytes_of f = do
    h ← gets (λ o. o.handle)
    bytes ← λ w. (env.bytes w.log (calling f h), w)
    n ← ask_int env (calling f h)
    pure (n, bytes)

  unfoldable pub perform : ClientM ℕ
  perform = code_of do_perform

  unfoldable pub add_post_data : List ℕ → ClientM ℕ
  add_post_data bytes = code_of (set_post_field bytes)

  unfoldable pub get_post_data : ClientM (ℤ × List ℕ)
  get_post_data = int_bytes_of get_post_field

  unfoldable pub add_header : List ℕ → List ℕ → ClientM ℕ
  add_header key value = code_of (set_header key value)

  unfoldable pub method : ℕ → ClientM ℕ
  method m = code_of (set_method m)

  unfoldable pub read : ℕ → ClientM (ℤ × List ℕ)
  read len = int_bytes_of (client_read len)

  unfoldable pub write : List ℕ → ClientM ℤ
  write buffer = int_of (client_write buffer)

  unfoldable pub open_connection : ℤ → ClientM ℕ
  open_connection write_len = code_of (client_open write_len)

  unfoldable pub close : ClientM ℕ
  close = code_of client_close

  -- The handle is kept.
  unfoldable pub cleanup : ClientM ℕ
  cleanup = code_of client_cleanup

  unfoldable pub set_url : List ℕ → ClientM ℕ
  set_url url = code_of (set_client_url url)

  unfoldable pub get_headers : ClientM (Unit {0})
  get_headers = do h ← gets (λ o. o.handle); tell env (calling fetch_headers h)

  unfoldable pub status : ClientM ℤ
  status = int_of get_status_code

  unfoldable pub length : ClientM ℤ
  length = int_of get_content_length

  unfoldable pub is_chunked : ClientM Bool
  is_chunked = do code ← code_of is_chunked_response; pure (not (code == 0))
