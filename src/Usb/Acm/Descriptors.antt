-- ===== src/Usb/Acm/Descriptors.antt =====
-- The constructor of components/usb-host-comp/acm/usb_acm.cpp: which endpoints the object gets.
use esp32sx_c_plus_wrappers.Base.{
  ℕ, ◌+◌, ◌<◌, ◌≤◌, List, [], ◌∷◌, ◌++◌, ◌≡◌, ◌≢◌, ◌⊎◌, inl, inr, refl, arith, some, true, ◌∙◌,
}
use esp32sx_c_plus_wrappers.Driver.{Env, World}
use esp32sx_c_plus_wrappers.Usb.Descriptors.{Endpoint, Interface}
use esp32sx_c_plus_wrappers.Usb.Acm.{
  Acm, Call, claim, see_interface, see_endpoint, construct_from, construct,
}

-- An interface that is no data interface, and has one endpoint if it is a communication interface.
abbrev pub IsOther : Interface → Type 0
IsOther i = (i.class_code ≢ 0x0a) × ((i.class_code ≡ 0x02) → i.num_endpoints ≡ 1)

abbrev pub AllOther : List Interface → Type 0
AllOther [] = Unit {0}
AllOther (i ∷ rest) = IsOther i × AllOther rest

-- An interface for data, with an endpoint for each direction, in either order.
pub record IsData (i : Interface) (e_in e_out : Endpoint) : Type 0 where
  pub class_ok : i.class_code ≡ 0x0a
  pub count_ok : i.num_endpoints ≡ 2
  pub to_host : 0x80 ≤ e_in.address
  pub to_device : e_out.address < 0x80
  pub order : (i.endpoints ≡ e_in ∷ e_out ∷ []) ⊎ (i.endpoints ≡ e_out ∷ e_in ∷ [])

-- The object's data endpoints and its fault flag are those of another.
pub record SameData (w v : World Acm Call) : Type 0 where
  pub same_in : w.dev.ep_in ≡ v.dev.ep_in
  pub same_out : w.dev.ep_out ≡ v.dev.ep_out
  pub same_fault : w.dev.fault ≡ v.dev.fault

module _ (env : Env Call) (round_up : ℕ → ℕ → ℕ) where
  see_interface-IsOther :
      (i : Interface) (n : ℕ) (w : World Acm Call)
      → IsOther i
      → ((see_interface env round_up i n w).0 ≡ true)
        × SameData (see_interface env round_up i n w).1 w
  unfolding see_interface
  see_interface-IsOther i n w h = ground (arith, h.1)

  construct_from-AllOther :
      (is : List Interface) (n : ℕ) (w : World Acm Call)
      → AllOther is
      → SameData (construct_from env round_up n is w).1 w
  unfolding construct_from
  construct_from-AllOther [] n w h = record { same_in = refl; same_out = refl; same_fault = refl }
  construct_from-AllOther (i ∷ is) n w h =
      let (go, same) = see_interface-IsOther i n w h.0 in
      let rest = construct_from-AllOther is (n + 1) (see_interface env round_up i n w).1 h.1 in
      rw go (record {
        same_in = rest.same_in ∙ same.same_in;
        same_out = rest.same_out ∙ same.same_out;
        same_fault = rest.same_fault ∙ same.same_fault;
      })

  see_interface-IsData :
      (i : Interface) (e_in e_out : Endpoint) (n : ℕ) (w : World Acm Call)
      → IsData i e_in e_out
      → (let (more, w') = see_interface env round_up i n w in
          (more ≡ true)
          × (w'.dev.ep_in ≡ some e_in)
          × (w'.dev.ep_out ≡ some e_out)
          × (w'.dev.fault ≡ w.dev.fault)
          × (w'.log ≡ claim n ∷ w.log))
  unfolding see_interface see_endpoint
  see_interface-IsData i e_in e_out n w d = elim d.order [
    | inl straight ↦ rw (d.class_ok, d.count_ok, straight) (ground (arith, d.to_host, d.to_device))
    | inr crossed ↦ rw (d.class_ok, d.count_ok, crossed) (ground (arith, d.to_host, d.to_device))
  ]

  construct_from-data :
      (pre post : List Interface) (i : Interface) (e_in e_out : Endpoint) (n : ℕ)
      (w : World Acm Call)
      → AllOther pre
      → AllOther post
      → IsData i e_in e_out
      → (let w' = (construct_from env round_up n (pre ++ (i ∷ post)) w).1 in
          (w'.dev.ep_in ≡ some e_in) × (w'.dev.ep_out ≡ some e_out) × (w'.dev.fault ≡ w.dev.fault))
  unfolding construct_from
  construct_from-data [] post i e_in e_out n w hp hq d =
      let (more, got_in, got_out, fine, _) = see_interface-IsData i e_in e_out n w d in
      let rest = construct_from-AllOther post (n + 1) (see_interface env round_up i n w).1 hq in
      rw more (rest.same_in ∙ got_in, rest.same_out ∙ got_out, rest.same_fault ∙ fine)
  construct_from-data (p ∷ pre) post i e_in e_out n w hp hq d =
      let (go, same) = see_interface-IsOther p n w hp.0 in
      let (a, b, c) =
        construct_from-data pre post i e_in e_out (n + 1) (see_interface env round_up p n w).1 hp.1
          hq d in
      rw go (a, b, c ∙ same.same_fault)

  -- An object that is made for a device with one data interface of two endpoints, one in each
  -- direction, has found both, in whatever order they and the other interfaces come, and has used
  -- no descriptor that is missing. It is so when each communication interface has one endpoint.
  pub construct-finds :
      (pre post : List Interface) (i : Interface) (e_in e_out : Endpoint) (w : World Acm Call)
      → AllOther pre
      → AllOther post
      → IsData i e_in e_out
      → (let w' = (construct env round_up (pre ++ (i ∷ post)) w).1 in
          (w'.dev.ep_in ≡ some e_in) × (w'.dev.ep_out ≡ some e_out) × (w'.dev.fault ≡ w.dev.fault))
  unfolding construct
  construct-finds pre post i e_in e_out w hp hq d =
      construct_from-data pre post i e_in e_out 0 w hp hq d
