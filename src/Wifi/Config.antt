-- ===== src/Wifi/Config.antt =====
-- The configurations that components/wifi-comp/wifi.cpp gives to the driver: which networks are
-- open, and which interface gets an address.
use esp32sx_c_plus_wrappers.Base.{
  ℕ, ◌≤◌, List, [], ◌∷◌, ◌≡◌, ◌≢◌, ◌↔◌, refl, arith, length, Option, none, some,
}
use esp32sx_c_plus_wrappers.Driver.{Env, World}
use esp32sx_c_plus_wrappers.Wifi.{
  Wifi, Call, IpInfo, set_sta_config, ap_config, wpa2_psk, create_default_ap, dhcpc_stop,
  set_ip_info, set_dns_info, set_ap_config, dhcps_stop, dhcps_start, dhcpc_start, set_ap_texts,
  set_sta_texts, set_ap_addresses,
}
use esp32sx_c_plus_wrappers.Driver.Script.{run_script}

-- The access point is protected exactly when a password of 8 or more characters is given, and then
-- that is its password.
pub ap_config-protected :
    (ssid : List ℕ) (pass : Option (List ℕ)) (max_conn : ℕ)
    → ((ap_config ssid pass max_conn).authmode ≡ wpa2_psk) ↔ (
        (p : List ℕ) × (pass ≡ some p)
        × (8 ≤ length p)
        × ((ap_config ssid pass max_conn).password ≡ p))
unfolding ap_config
ap_config-protected ssid none max_conn =
    ((λ h. absurd (ground arith)), (λ (_, e, _, _). ground arith))
ap_config-protected ssid (some p) max_conn =
    ((λ h. (p, refl, ground arith, ground arith)), (λ (_, e, l, _). ground arith))

module _ (env : Env Call) where
  -- A fixed address for a station without an interface: the interface is made as an access point's,
  -- and gets the address, whatever the driver answers to `dhcpc_stop`.
  pub set_sta_config-new :
      (local_ip gateway subnet dns : ℕ) (w : World Wifi Call)
      → local_ip ≢ 0
      → w.dev.netif_sta ≡ 0
      → (let n = env.code w.log create_default_ap in
          let info : IpInfo = record { ip = local_ip; gateway = gateway; netmask = subnet } in
          set_sta_config env local_ip gateway subnet dns w
          ≡ run_script env (set_ip_info n info ∷ set_dns_info n dns ∷ []) (record {
            dev = record w.dev { netif_sta = n };
            log = dhcpc_stop n ∷ create_default_ap ∷ w.log;
          }))
  unfolding set_sta_config run_script
  set_sta_config-new local_ip gateway subnet dns w h n = ground arith

  -- The server of the access point's addresses is stopped before the address changes, and is
  -- started again only if the change was accepted.
  pub set_ap_config-script :
      (info : IpInfo) (w : World Wifi Call)
      → w.dev.netif_ap ≢ 0
      → (let n = w.dev.netif_ap in
          set_ap_config env info w
          ≡ run_script env (dhcps_stop n ∷ set_ip_info n info ∷ dhcps_start n ∷ []) w)
  unfolding set_ap_config run_script
  set_ap_config-script info w h = ground arith

  module _ {Text : Type 0} (aton : Text → ℕ) where
    -- A station's address that cannot be read turns DHCP on, and is answered as a success whatever
    -- the driver says; an access point's becomes the address 0, between the stop and the start of
    -- its server.
    pub set_texts-unreadable :
        (local_ip gateway subnet dns : Text) (w : World Wifi Call)
        → aton local_ip ≡ 0
        → w.dev.netif_ap ≢ 0
        → (let info : IpInfo = record { ip = 0; gateway = aton gateway; netmask = aton subnet } in
            let n = w.dev.netif_ap in
            (set_sta_texts env aton local_ip gateway subnet dns w
              ≡ (0, record w { log = dhcpc_start w.dev.netif_sta ∷ w.log }))
            × (set_ap_texts env aton local_ip gateway subnet w
                ≡ run_script env (dhcps_stop n ∷ set_ip_info n info ∷ dhcps_start n ∷ []) w))
    unfolding set_sta_texts set_sta_config set_ap_texts set_ap_addresses
    set_texts-unreadable local_ip gateway subnet dns w h there = (
      ground arith,
      rw h (
          set_ap_config-script (record { ip = 0; gateway = aton gateway; netmask = aton subnet }) w
            there),
    )
