-- ===== src/Eth.antt =====
-- components/eth-comp/eth-comp.cpp: an Ethernet port, the driver and the network interface over it.
pub mod Address
pub mod Lifetime
mod Tests
use esp32sx_c_plus_wrappers.Base.{
  ℕ, ◌+◌, List, [], ◌∷◌, ◌==◌, if◌then◌else◌, Bool, true, false, ◌&&◌, not, get_or,
}
use esp32sx_c_plus_wrappers.Driver.{Env, World, M, pure, ask, tell, gets, modify, ◌>>=◌, ◌>>◌, ◌⨾◌}

-- Pointers and handles are numbers, 0 for NULL.
pub record Eth : Type 0 where
  pub mac : ℕ
  pub phy : ℕ
  pub eth_netif : ℕ
  pub eth_handle : ℕ
  pub glue_handle : ℕ
  pub pin_phy_power : ℕ
  pub pin_phy_reset : ℕ

-- `esp_netif_ip_info_t`
pub record IpInfo : Type 0 where
  pub ip : ℕ
  pub gw : ℕ
  pub netmask : ℕ

-- What `esp_eth_ioctl` is asked for.
pub data Command : Type 0 where
  g_speed g_duplex_mode g_mac_addr : Command

-- The PHY chips that the class knows, by `type`.
pub data Phy : Type 0 where
  ip101 rtl8201 lan8720 dp83848 other : Phy

-- `driver_install` also answers with the handle, as the first of its bytes.
pub data Call : Type 0 where
  netif_init netif_new : Call
  pad_select set_output set_high : ℕ → Call
  delay mac_new : Call
  phy_new : Phy → ℕ → Call
  driver_install : ℕ → ℕ → Call
  driver_uninstall eth_start eth_stop new_netif_glue del_netif_glue : ℕ → Call
  netif_attach : ℕ → ℕ → Call
  ioctl : ℕ → Command → Call
  dhcpc_stop dhcpc_start : ℕ → Call
  set_ip_info : ℕ → IpInfo → Call
  dns_setserver : ℕ → ℕ → Call
  set_hostname_of : ℕ → List ℕ → Call

abbrev pub EthM : Type 0 → Type 0
EthM A = M Eth Call A

abbrev pub esp_fail : ℕ
esp_fail = 4294967295

-- ESP_ERR_ESP_NETIF_DHCP_ALREADY_STARTED and ESP_ERR_ESP_NETIF_DHCP_ALREADY_STOPPED.
abbrev pub err_already_started : ℕ
err_already_started = 0x5004

abbrev pub err_already_stopped : ℕ
err_already_stopped = 0x5005

-- `a != (uint32_t)0x00000000 && a != IPADDR_NONE`
abbrev pub is_address : ℕ → Bool
is_address a = not (a == 0) && not (a == 0xffffffff)

abbrev pub info_for : ℕ → ℕ → ℕ → IpInfo
info_for local_ip gateway subnet =
    if is_address local_ip
    then record { ip = local_ip; gw = gateway; netmask = subnet }
    else record { ip = 0; gw = 0; netmask = 0 }

module _ (env : Env Call) where
  -- `err != ESP_OK && err != allowed` ends the caller with false.
  abbrev pub unless : Call → ℕ → EthM Bool → EthM Bool
  unless c allowed k = do
    err ← ask env c
    if err == 0 then k else if err == allowed then k else pure false

  -- The choice of the chip; for an unknown one the pointer stays what it was.
  new_phy : Phy → EthM (Unit {0})
  new_phy other = pure tt
  new_phy chip = do
    o ← gets (λ o. o)
    p ← ask env (phy_new chip o.pin_phy_reset)
    modify (λ o. record o { phy = p })

  -- With the built-in MAC of the chip.
  unfoldable pub init : Phy → EthM ℕ
  unfolding new_phy
  init chip = do
    tell env netif_init
    n ← ask env netif_new
    modify (λ o. record o { eth_netif = n })
    o ← gets (λ o. o)
    tell env (pad_select o.pin_phy_power)
    tell env (set_output o.pin_phy_power)
    tell env (set_high o.pin_phy_power)
    tell env delay
    m ← ask env mac_new
    modify (λ o. record o { mac = m })
    new_phy chip
    o ← gets (λ o. o)
    pure (if o.phy == 0 then esp_fail else 0)

  unfoldable pub deinit : EthM ℕ
  deinit = do
    o ← gets (λ o. o)
    ask env (del_netif_glue o.glue_handle) ⨾ ask env (driver_uninstall o.eth_handle)

  install : EthM ℕ
  install w =
      let c = driver_install w.dev.mac w.dev.phy in
      (
        env.code w.log c,
        record {
          dev = record w.dev {
            eth_handle =
                if env.code w.log c == 0
                then get_or (env.bytes w.log c) 0 w.dev.eth_handle
                else w.dev.eth_handle;
          };
          log = c ∷ w.log;
        },
      )

  unfoldable pub start : EthM ℕ
  unfolding install
  start = install ⨾ (do
    o ← gets (λ o. o)
    g ← ask env (new_netif_glue o.eth_handle)
    modify (λ o. record o { glue_handle = g })
    ask env (netif_attach o.eth_netif g) ⨾ ask env (eth_start o.eth_handle))

  unfoldable pub stop : EthM ℕ
  stop = do o ← gets (λ o. o); ask env (eth_stop o.eth_handle)

  -- `getSpeed`, `getDuplex` and `getMAC`.
  unfoldable pub query : Command → EthM ℕ
  query command = do o ← gets (λ o. o); ask env (ioctl o.eth_handle command)

  unfoldable pub set_hostname : List ℕ → EthM ℕ
  set_hostname name = do o ← gets (λ o. o); ask env (set_hostname_of o.eth_netif name)

  abbrev pub set_dns : ℕ → ℕ → EthM (Unit {0})
  set_dns i dns = if is_address dns then tell env (dns_setserver i dns) else pure tt

  abbrev pub dns_servers : ℕ → ℕ → EthM Bool
  dns_servers dns1 dns2 = do set_dns 0 dns1; set_dns 1 dns2; pure true

  pub set_config : ℕ → ℕ → ℕ → ℕ → ℕ → EthM Bool
  set_config local_ip gateway subnet dns1 dns2 = do
    o ← gets (λ o. o)
    let info = info_for local_ip gateway subnet
    unless (dhcpc_stop o.eth_netif) err_already_stopped (do
      err ← ask env (set_ip_info o.eth_netif info)
      if err == 0
          then (if info.ip == 0
              then unless (dhcpc_start o.eth_netif) err_already_started (dns_servers dns1 dns2)
              else dns_servers dns1 dns2)
          else pure false)

  -- The addresses as texts: `ipaddr_aton` gives 0 for one that it cannot read, since the code zeroes
  -- the address before the call.
  unfoldable pub set_config_texts :
      (List ℕ → ℕ) → List ℕ → List ℕ → List ℕ → List ℕ → List ℕ → EthM Bool
  unfolding set_config
  set_config_texts aton local_ip gateway subnet dns1 dns2 =
      set_config (aton local_ip) (aton gateway) (aton subnet) (aton dns1) (aton dns2)
