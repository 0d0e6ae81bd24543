-- ===== src/Usb/Msc/Construct.antt =====
-- The constructor of components/usb-host-comp/msc/usb_msc.cpp: which endpoints the object gets, and
-- whether it becomes the instance that the disk layer uses.
pub mod Release
use esp32sx_c_plus_wrappers.Base.{
  ℕ, suc, ◌+◌, ◌<◌, ◌≤◌, List, [], ◌∷◌, ◌++◌, ◌==◌, if◌then◌else◌, Bool, true, false, Option, none,
  some, get_elem?, length, ◌≡◌, ◌≢◌, ◌⊎◌, inl, inr, refl, ap, ◌∙◌, arith,
}
use esp32sx_c_plus_wrappers.Usb.Descriptors.{Endpoint, Interface, is_in}

-- The fields that the constructor sets, the interfaces that it claims, newest first, and a flag that
-- is set by the use of a missing descriptor.
pub record Found : Type 0 where
  pub ep_in : Option Endpoint
  pub ep_out : Option Endpoint
  pub itf_num : ℕ
  pub claimed : List ℕ
  pub is_instance : Bool
  pub fault : Bool

see_endpoint : Option Endpoint → Found → Found
see_endpoint none f = record f { fault = true }
see_endpoint (some e) f =
    if is_in e then record f { ep_in = some e } else record f { ep_out = some e }

-- One round of the loop; the first part of the result says whether it goes on.
see_interface : Interface → ℕ → Found → Bool × Found
unfolding see_endpoint
see_interface i n f =
    if i.class_code == 0x08
    then (if i.num_endpoints == 2
        then (
          true,
          record (see_endpoint (get_elem? i.endpoints 1)
              (see_endpoint (get_elem? i.endpoints 0) f)) { itf_num = n; claimed = n ∷ f.claimed },
        )
        else (false, f))
    else (true, f)

construct_from : ℕ → List Interface → Found → Found
unfolding see_interface
construct_from n [] f = record f { is_instance = true }
construct_from n (i ∷ rest) f =
    let (more, f') = see_interface i n f in
    let later = construct_from (n + 1) rest f' in if more then later else f'

pub construct : List Interface → Found → Found
unfolding construct_from
construct interfaces f = construct_from 0 interfaces f

abbrev pub NoneStorage : List Interface → Type 0
NoneStorage [] = Unit {0}
NoneStorage (i ∷ rest) = (i.class_code ≢ 0x08) × NoneStorage rest

-- A mass storage interface with an endpoint for each direction, in either order.
pub record IsStorage (i : Interface) (e_in e_out : Endpoint) : Type 0 where
  pub class_ok : i.class_code ≡ 0x08
  pub count_ok : i.num_endpoints ≡ 2
  pub to_host : 0x80 ≤ e_in.address
  pub to_device : e_out.address < 0x80
  pub order : (i.endpoints ≡ e_in ∷ e_out ∷ []) ⊎ (i.endpoints ≡ e_out ∷ e_in ∷ [])

see_interface-other :
    (i : Interface) (n : ℕ) (f : Found) → i.class_code ≢ 0x08 → see_interface i n f ≡ (true, f)
unfolding see_interface
see_interface-other i n f h = ground arith

construct_from-NoneStorage :
    (is : List Interface) (n : ℕ) (f : Found)
    → NoneStorage is
    → construct_from n is f ≡ record f { is_instance = true }
unfolding construct_from see_interface
construct_from-NoneStorage [] n f h = refl
construct_from-NoneStorage (i ∷ is) n f h =
    ground (arith, h.0, construct_from-NoneStorage is (n + 1) f h.1)

-- What the object has once it has been made for an interface with its number.
abbrev pub made_for : ℕ → Endpoint → Endpoint → Found → Found
made_for n e_in e_out f = record f {
  ep_in = some e_in;
  ep_out = some e_out;
  itf_num = n;
  claimed = n ∷ f.claimed;
  is_instance = true;
}

see_interface-IsStorage :
    (i : Interface) (e_in e_out : Endpoint) (n : ℕ) (f : Found)
    → IsStorage i e_in e_out
    → see_interface i n f ≡ (
      true,
      record f { ep_in = some e_in; ep_out = some e_out; itf_num = n; claimed = n ∷ f.claimed },
    )
unfolding see_interface see_endpoint
see_interface-IsStorage i e_in e_out n f d = elim d.order [
  | inl straight ↦ rw (d.class_ok, d.count_ok, straight) (ground (arith, d.to_host, d.to_device))
  | inr crossed ↦ rw (d.class_ok, d.count_ok, crossed) (ground (arith, d.to_host, d.to_device))
]

construct_from-storage :
    (pre post : List Interface) (i : Interface) (e_in e_out : Endpoint) (n : ℕ) (f : Found)
    → NoneStorage pre
    → NoneStorage post
    → IsStorage i e_in e_out
    → construct_from n (pre ++ (i ∷ post)) f ≡ made_for (n + length pre) e_in e_out f
unfolding construct_from
construct_from-storage [] post i e_in e_out n f hp hq d =
    let e : n ≡ n + 0 = omega arith in
    rw (see_interface-IsStorage i e_in e_out n f d, ← e)
      (construct_from-NoneStorage post (n + 1) _ hq)
construct_from-storage (p ∷ pre) post i e_in e_out n f hp hq d =
    let e : n + 1 + length pre ≡ n + suc (length pre) = omega arith in
    rw (see_interface-other p n f hp.0, ← e)
      (construct_from-storage pre post i e_in e_out (n + 1) f hp.1 hq d)

-- An object that is made for a device with one mass storage interface, which has an endpoint in each
-- direction, gets both, in whatever order they come; it claims that interface by its number among
-- the others, and no other, becomes the instance, and uses no descriptor that is missing.
pub construct-storage :
    (pre post : List Interface) (i : Interface) (e_in e_out : Endpoint) (f : Found)
    → NoneStorage pre
    → NoneStorage post
    → IsStorage i e_in e_out
    → construct (pre ++ (i ∷ post)) f ≡ made_for (length pre) e_in e_out f
unfolding construct
construct-storage pre post i e_in e_out f hp hq d =
    let e : 0 + length pre ≡ length pre = omega arith in
    construct_from-storage pre post i e_in e_out 0 f hp hq d
    ∙ ap (λ (n : ℕ). made_for n e_in e_out f) e
