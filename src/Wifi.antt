-- ===== src/Wifi.antt =====
-- components/wifi-comp: the WiFi driver's mode and its two network interfaces. Logging is left out.
pub mod Modes
pub mod Config
mod Tests
use esp32sx_c_plus_wrappers.Base.{
  ℕ, zero, suc, ◌%◌, List, [], ◌∷◌, length, ◌==◌, if◌then◌else◌, ltb, Bool, true, false, not, ◌&&◌,
  ◌||◌, Option, none, some,
}
use esp32sx_c_plus_wrappers.Base.Int.{ℤ}
use esp32sx_c_plus_wrappers.Driver.{Env, World, M, pure, ask, tell, gets, modify, ◌>>=◌, ◌>>◌, ◌⨾◌}

-- wifi_mode_t
pub data Mode : Type 0 where
  off sta ap apsta : Mode

-- An interface is a pointer: 0 is NULL.
pub record Wifi : Type 0 where
  pub mode : Mode
  pub netif_ap : ℕ
  pub netif_sta : ℕ

pub data Auth : Type 0 where
  open_network wpa2_psk : Auth

pub record ApConfig : Type 0 where
  pub ssid_len : ℕ
  pub ssid : List ℕ
  pub max_connection : ℕ
  pub authmode : Auth
  pub password : List ℕ

pub record StaConfig : Type 0 where
  pub ssid : List ℕ
  pub password : List ℕ

pub record IpInfo : Type 0 where
  pub ip : ℕ
  pub gateway : ℕ
  pub netmask : ℕ

-- wifi_ps_type_t
pub data PsType : Type 0 where
  ps_none ps_min_modem ps_max_modem : PsType

-- The calls of esp_wifi, esp_netif and `EventLoop::initDefault`.
pub data Call : Type 0 where
  init_default_loop netif_init wifi_init set_storage : Call
  create_default_ap create_default_sta : Call
  set_mode_to : Mode → Call
  wifi_start wifi_stop wifi_connect wifi_disconnect : Call
  set_config_ap : ApConfig → Call
  set_config_sta : StaConfig → Call
  set_hostname_of : ℕ → List ℕ → Call
  scan_start : Bool → Call
  get_ap_num : Call
  dhcps_stop dhcps_start dhcpc_stop dhcpc_start : ℕ → Call
  set_ip_info : ℕ → IpInfo → Call
  set_dns_info : ℕ → ℕ → Call
  get_ap_records : ℕ → Call
  set_ps : PsType → Call
  get_mac_of : ℕ → Call
  set_max_tx_power : ℤ → Call
  get_ap_info_of_sta get_sta_list : Call

abbrev pub WifiM : Type 0 → Type 0
WifiM A = M Wifi Call A

abbrev pub esp_fail : ℕ
esp_fail = 4294967295

abbrev pub err_not_init : ℕ
err_not_init = 12289

abbrev pub is_off_or : Mode → Mode → Bool
is_off_or _ off = true
is_off_or ap ap = true
is_off_or sta sta = true
is_off_or _ _ = false

-- The configuration of `enableAP`: `ssid_len` is a uint8_t, and a password of fewer than 8
-- characters is as good as none.
pub ap_config : List ℕ → Option (List ℕ) → ℕ → ApConfig
ap_config ssid pass max_conn =
    let len = length ssid % 256 in
    let open_config : ApConfig = record {
      ssid_len = len;
      ssid = ssid;
      max_connection = max_conn;
      authmode = open_network;
      password = [];
    } in
    elim pass [
      | none ↦ open_config
      | some p ↦
          if ltb (length p) 8
          then open_config
          else record open_config { authmode = wpa2_psk; password = p }
    ]

-- The configuration of `enableSTA`.
unfoldable pub sta_config : List ℕ → Option (List ℕ) → StaConfig
sta_config ssid none = record { ssid = ssid; password = [] }
sta_config ssid (some p) = record { ssid = ssid; password = if ltb (length p) 8 then [] else p }

module _ (env : Env Call) where
  pub start : WifiM ℕ
  start = ask env wifi_start

  unfoldable pub stop : WifiM ℕ
  stop = ask env wifi_stop

  -- The mode is stored before the driver is asked for it.
  pub set_mode : Mode → WifiM ℕ
  set_mode m = do modify (λ o. record o { mode = m }); ask env (set_mode_to m)

  unfoldable pub init : WifiM ℕ
  unfolding set_mode start
  init = do
    tell env init_default_loop
    tell env netif_init
    ask env wifi_init
        ⨾ ask env set_storage
        ⨾ (do modify (λ o. record o { mode = off }); set_mode off)
        ⨾ start

  -- `if (!netif) netif = create(); if (!netif) return ESP_FAIL;`
  pub need_ap : WifiM ℕ
  need_ap w =
      if w.dev.netif_ap == 0
      then (let n = env.code w.log create_default_ap in
          let w' : World Wifi Call = record {
            dev = record w.dev { netif_ap = n };
            log = create_default_ap ∷ w.log;
          } in
          if n == 0 then (esp_fail, w') else (0, w'))
      else (0, w)

  pub need_sta : WifiM ℕ
  need_sta w =
      if w.dev.netif_sta == 0
      then (let n = env.code w.log create_default_sta in
          let w' : World Wifi Call = record {
            dev = record w.dev { netif_sta = n };
            log = create_default_sta ∷ w.log;
          } in
          if n == 0 then (esp_fail, w') else (0, w'))
      else (0, w)

  pub enable_ap : List ℕ → Option (List ℕ) → ℕ → WifiM ℕ
  unfolding need_ap set_mode start
  enable_ap ssid pass max_conn = need_ap ⨾ (do
    o ← gets (λ o. o)
    set_mode (if is_off_or ap o.mode then ap else apsta)
        ⨾ start
        ⨾ ask env (set_config_ap (ap_config ssid pass max_conn)))

  -- In AP mode there is nothing to connect.
  pub connect : WifiM ℕ
  connect = do m ← gets (λ o. o.mode); elim m [ ap ↦ pure 0 | _ ↦ ask env wifi_connect ]

  unfoldable pub disconnect : WifiM ℕ
  disconnect = ask env wifi_disconnect

  -- The network is optional: `ssid` may be NULL.
  pub enable_sta : Option (List ℕ) → Option (List ℕ) → Bool → WifiM ℕ
  unfolding need_sta set_mode start connect
  enable_sta ssid pass connect_now = need_sta ⨾ (do
    o ← gets (λ o. o)
    set_mode (if is_off_or sta o.mode then sta else apsta) ⨾ start ⨾ elim ssid [
      | none ↦ pure 0
      | some s ↦
          ask env (set_config_sta (sta_config s pass)) ⨾ (if connect_now then connect else pure 0)
    ])

  unfoldable pub set_hostname : List ℕ → Bool → WifiM ℕ
  set_hostname name of_sta = do
    o ← gets (λ o. o)
    let netif = if of_sta then o.netif_sta else o.netif_ap
    if netif == 0 then pure err_not_init else ask env (set_hostname_of netif name)

  -- The number of access points is asked for after a scan that blocks, if the caller wants it.
  unfoldable pub scan : Bool → Bool → WifiM ℕ
  scan wants_count block = do
    o ← gets (λ o. o)
    if o.netif_sta == 0
        then pure err_not_init
        else ask env (scan_start block)
          ⨾ (if block && wants_count then ask env get_ap_num else pure 0)

  pub set_ap_config : IpInfo → WifiM ℕ
  set_ap_config info = do
    o ← gets (λ o. o)
    if o.netif_ap == 0
        then (do n ← ask env create_default_ap; modify (λ o. record o { netif_ap = n }))
        else pure tt
    o ← gets (λ o. o)
    ask env (dhcps_stop o.netif_ap)
        ⨾ ask env (set_ip_info o.netif_ap info)
        ⨾ ask env (dhcps_start o.netif_ap)

  -- A missing station interface is made by the call for an access point's.
  pub set_sta_info : IpInfo → Option ℕ → WifiM ℕ
  set_sta_info info dns = do
    o ← gets (λ o. o)
    if o.netif_sta == 0
        then (do n ← ask env create_default_ap; modify (λ o. record o { netif_sta = n }))
        else pure tt
    o ← gets (λ o. o)
    tell env (dhcpc_stop o.netif_sta)
    ask env (set_ip_info o.netif_sta info)
        ⨾ elim dns [ none ↦ pure 0 | some d ↦ ask env (set_dns_info o.netif_sta d) ]

  -- The address 0 asks for DHCP.
  pub set_sta_config : ℕ → ℕ → ℕ → ℕ → WifiM ℕ
  unfolding set_sta_info
  set_sta_config local_ip gateway subnet dns w =
      if local_ip == 0
      then (0, record w { log = dhcpc_start w.dev.netif_sta ∷ w.log })
      else set_sta_info (record { ip = local_ip; gateway = gateway; netmask = subnet }) (some dns) w

  pub set_ap_addresses : ℕ → ℕ → ℕ → WifiM ℕ
  unfolding set_ap_config
  set_ap_addresses local_ip gateway subnet =
      set_ap_config (record { ip = local_ip; gateway = gateway; netmask = subnet })

  -- The code and the bytes that the driver writes through a pointer.
  abbrev pub answer_of : Call → WifiM (ℕ × List ℕ)
  answer_of c w = ((env.code w.log c, env.bytes w.log c), record w { log = c ∷ w.log })

  -- At most `number` records of the last scan.
  unfoldable pub get_stations : ℕ → WifiM (ℕ × List ℕ)
  get_stations number = answer_of (get_ap_records number)

  unfoldable pub set_power_save : PsType → WifiM ℕ
  set_power_save type = ask env (set_ps type)

  unfoldable pub get_mac : ℕ → WifiM (ℕ × List ℕ)
  get_mac ifx = answer_of (get_mac_of ifx)

  unfoldable pub set_power : ℤ → WifiM ℕ
  set_power power = ask env (set_max_tx_power power)

  unfoldable pub get_sta_info : WifiM (ℕ × List ℕ)
  get_sta_info = answer_of get_ap_info_of_sta

  unfoldable pub get_ap_info : WifiM (ℕ × List ℕ)
  get_ap_info = answer_of get_sta_list

  module _ {Text : Type 0} (aton : Text → ℕ) where
    -- The addresses as texts: `ipaddr_aton` gives 0 for one that it cannot read, since the code
    -- zeroes the addresses first and looks at no answer.
    pub set_ap_texts : Text → Text → Text → WifiM ℕ
    unfolding set_ap_addresses
    set_ap_texts local_ip gateway subnet =
        set_ap_addresses (aton local_ip) (aton gateway) (aton subnet)

    pub set_sta_texts : Text → Text → Text → Text → WifiM ℕ
    unfolding set_sta_config
    set_sta_texts local_ip gateway subnet dns =
        set_sta_config (aton local_ip) (aton gateway) (aton subnet) (aton dns)
