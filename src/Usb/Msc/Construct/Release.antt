-- ===== src/Usb/Msc/Construct/Release.antt =====
-- `USBhostDevice::deinit` of components/usb-host-comp/host/usb_device.cpp, for an object of
-- components/usb-host-comp/msc/usb_msc.cpp: the interfaces that it gives back.
use esp32sx_c_plus_wrappers.Base.{
  ℕ, ◌+◌, List, [], ◌∷◌, ◌≡◌, ◌⊎◌, inl, inr, refl, Bool, true, Bool-cases, ◌==◌,
}
use esp32sx_c_plus_wrappers.Usb.Descriptors.{Interface}
use esp32sx_c_plus_wrappers.Usb.Msc.Construct.{Found, see_interface, construct_from, construct}

-- The numbers of the interfaces from `n` on.
abbrev pub release_from : ℕ → List Interface → List ℕ
release_from n [] = []
release_from n (i ∷ rest) = n ∷ release_from (n + 1) rest

-- The answer, and the interfaces that are released, in order.
pub deinit : List Interface → Bool × List ℕ
deinit interfaces = (true, release_from 0 interfaces)

abbrev pub IsIn : ℕ → List ℕ → Type 0
IsIn x [] = ⊥
IsIn x (y ∷ ys) = (x ≡ y) ⊎ IsIn x ys

abbrev pub AllIn : List ℕ → List ℕ → Type 0
AllIn [] ys = Unit {0}
AllIn (x ∷ xs) ys = IsIn x ys × AllIn xs ys

AllIn-later : (xs : List ℕ) (y : ℕ) (ys : List ℕ) → AllIn xs ys → AllIn xs (y ∷ ys)
AllIn-later [] y ys h = tt
AllIn-later (x ∷ xs) y ys h = (inr h.0, AllIn-later xs y ys h.1)

AllIn-self : (xs : List ℕ) → AllIn xs xs
AllIn-self [] = tt
AllIn-self (x ∷ xs) = (inl refl, AllIn-later xs x xs (AllIn-self xs))

see_interface-AllIn :
    (i : Interface) (n : ℕ) (f : Found) (ys : List ℕ)
    → AllIn f.claimed ys
    → IsIn n ys
    → AllIn (see_interface i n f).1.claimed ys
unfolding see_interface
see_interface-AllIn i n f ys h m = elim (Bool-cases (i.class_code == 0x08)) [
  | inr other ↦ rw other h
  | inl storage ↦ elim (Bool-cases (i.num_endpoints == 2)) [
    | inr wrong ↦ rw (storage, wrong) h
    | inl two ↦ rw (storage, two) (m, h)
  ]
]

construct_from-AllIn :
    (is : List Interface) (n : ℕ) (f : Found) (ys : List ℕ)
    → AllIn f.claimed ys
    → AllIn (release_from n is) ys
    → AllIn (construct_from n is f).claimed ys
unfolding construct_from
construct_from-AllIn [] n f ys h r = h
construct_from-AllIn (i ∷ is) n f ys h r =
    let seen = see_interface-AllIn i n f ys h r.0 in
    elim (Bool-cases (see_interface i n f).0) [
      | inl more ↦ rw more (construct_from-AllIn is (n + 1) (see_interface i n f).1 ys seen r.1)
      | inr no_more ↦ rw no_more seen
    ]

-- Every interface that an object has claimed in its constructor is given back by `deinit`.
pub deinit-construct :
    (interfaces : List Interface) (f : Found)
    → f.claimed ≡ []
    → AllIn (construct interfaces f).claimed (deinit interfaces).1
unfolding construct deinit
deinit-construct interfaces f h =
    construct_from-AllIn interfaces 0 f (release_from 0 interfaces) (rw h tt)
      (AllIn-self (release_from 0 interfaces))
