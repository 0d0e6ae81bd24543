-- ===== src/Eth/Address.antt =====
-- What `setConfig` of components/eth-comp/eth-comp.cpp makes of the network interface.
use esp32sx_c_plus_wrappers.Base.{
  ℕ, List, [], ◌∷◌, ◌==◌, if◌then◌else◌, Bool, true, false, ◌||◌, ◌≡◌, ◌⊎◌, arith,
}
use esp32sx_c_plus_wrappers.Driver.{Env, World}
use esp32sx_c_plus_wrappers.Eth.{
  Eth, IpInfo, Call, dhcpc_stop, dhcpc_start, set_ip_info, dns_setserver, set_config,
  err_already_started, err_already_stopped,
}

-- An interface: whether its DHCP client runs, its addresses, and the two servers of names.
pub record Netif : Type 0 where
  pub dhcp : Bool
  pub info : IpInfo
  pub dns1 : ℕ
  pub dns2 : ℕ

-- The two values that are no address: 0.0.0.0, and IPADDR_NONE, 255.255.255.255.
abbrev pub no_address : ℕ → Bool
no_address a = a == 0 || a == 4294967295

-- The addresses of an interface without any.
abbrev pub no_info : IpInfo
no_info = record { ip = 0; gw = 0; netmask = 0 }

module _ (env : Env Call) (before : Netif) where
  -- What a call that answers so has done to the interface, as esp_netif documents it.
  abbrev pub after : List Call → Call → Netif → Netif
  after log (dhcpc_stop n) s =
      if env.code log (dhcpc_stop n) == 0 || env.code log (dhcpc_stop n) == err_already_stopped
      then record s { dhcp = false }
      else s
  after log (dhcpc_start n) s =
      if env.code log (dhcpc_start n) == 0 || env.code log (dhcpc_start n) == err_already_started
      then record s { dhcp = true }
      else s
  after log (set_ip_info n i) s =
      if env.code log (set_ip_info n i) == 0 then record s { info = i } else s
  after log (dns_setserver i a) s = if i == 0 then record s { dns1 = a } else record s { dns2 = a }
  after log _ s = s

  abbrev pub netif : List Call → Netif
  netif [] = before
  netif (c ∷ log) = after log c (netif log)

  -- `setConfig` that returns false has left the name servers as they were, and the addresses too,
  -- unless the address asked for was 0 or 255.255.255.255: then these are as they were, or 0.
  pub set_config-fails :
      (local_ip gateway subnet dns1 dns2 : ℕ) (w : World Eth Call)
      → (set_config env local_ip gateway subnet dns1 dns2 w).0 ≡ false
      → (let s = netif w.log in
          let s' = netif (set_config env local_ip gateway subnet dns1 dns2 w).1.log in
          (s'.dns1 ≡ s.dns1)
          × (s'.dns2 ≡ s.dns2)
          × ((s'.info ≡ s.info) ⊎ ((no_address local_ip ≡ true) × (s'.info ≡ no_info))))
  unfolding set_config
  set_config-fails local_ip gateway subnet dns1 dns2 w h = ground arith
