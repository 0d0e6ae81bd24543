-- ===== src/Driver/Handles.antt =====
-- The life of a handle: an object that holds one must not use it before the call that makes it has
-- succeeded, nor after the call that ends it.
use esp32sx_c_plus_wrappers.Base.{ℕ, List, [], ◌∷◌, ◌≡◌, ◌≢◌, Option, none, some}

-- What the calls of an object do with its handle: which one is alive after a call, given the one
-- before it (0 is none), and which one a call uses.
pub record Handles (C : Type 0) : Type 0 where
  pub after : List C → C → ℕ → ℕ
  pub used : C → Option ℕ

module _ {C : Type 0} (handles : Handles C) where
  -- The handle that is alive after a history.
  abbrev pub alive : List C → ℕ
  alive [] = 0
  alive (c ∷ log) = handles.after log c (alive log)

  abbrev pub UsesAlive : Option ℕ → ℕ → Type 0
  UsesAlive none h = Unit {0}
  UsesAlive (some u) h = (u ≡ h) × (u ≢ 0)

  -- No call of the history uses a handle that is not alive.
  abbrev pub AllAlive : List C → Type 0
  AllAlive [] = Unit {0}
  AllAlive (c ∷ log) = UsesAlive (handles.used c) (alive log) × AllAlive log
