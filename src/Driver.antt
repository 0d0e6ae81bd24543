-- ===== src/Driver.antt =====
-- The esp-idf functions that the wrappers call. They are no part of the repository: a component
-- names its calls by a data type, and an environment answers each call by the history of calls
-- before it, so what is shown of every environment is shown of every driver.
pub mod Script
pub mod Handles
use esp32sx_c_plus_wrappers.Base.{ℕ, List, ◌∷◌, ◌==◌, if◌then◌else◌}
use esp32sx_c_plus_wrappers.Base.Int.{ℤ}

-- The answers: an error code or a handle (0 is ESP_OK, and NULL), a C `int`, or bytes.
pub record Env (C : Type 0) : Type 0 where
  pub code : List C → C → ℕ
  pub int : List C → C → ℤ
  pub bytes : List C → C → List ℕ

-- An object's fields, and the calls made, newest first.
pub record World (D C : Type 0) : Type 0 where
  pub dev : D
  pub log : List C

-- A method: it returns its result, with the fields and the history as it leaves them.
abbrev pub M : Type 0 → Type 0 → Type 0 → Type 0
M D C A = World D C → A × World D C

module _ {D C : Type 0} where
  abbrev pub pure : {A : Type 0} → A → M D C A
  pure a w = (a, w)

  infixl 5 ◌>>=◌ ◌>>◌
  abbrev pub ◌>>=◌ : {A B : Type 0} → M D C A → (A → M D C B) → M D C B
  ◌>>=◌ m f w = let (a, w') = m w in f a w'

  abbrev pub ◌>>◌ : {A B : Type 0} → M D C A → M D C B → M D C B
  ◌>>◌ m k w = let (a, w') = m w in k w'

  -- `ESP_RETURN_ON_ERROR(m); k`, which is also `err = m; if (err) return err; k`.
  infixr 6 ◌⨾◌
  abbrev pub ◌⨾◌ : M D C ℕ → M D C ℕ → M D C ℕ
  ◌⨾◌ m k w = let (e, w') = m w in if e == 0 then k w' else (e, w')

  abbrev pub gets : {A : Type 0} → (D → A) → M D C A
  gets f w = (f w.dev, w)

  abbrev pub modify : (D → D) → M D C (Unit {0})
  modify f w = (tt, record w { dev = f w.dev })

  module _ (env : Env C) (c : C) where
    abbrev pub ask : M D C ℕ
    ask w = (env.code w.log c, record w { log = c ∷ w.log })

    abbrev pub ask_int : M D C ℤ
    ask_int w = (env.int w.log c, record w { log = c ∷ w.log })

    abbrev pub ask_bytes : M D C (List ℕ)
    ask_bytes w = (env.bytes w.log c, record w { log = c ∷ w.log })

    -- A call whose answer is not looked at.
    abbrev pub tell : M D C (Unit {0})
    tell w = (tt, record w { log = c ∷ w.log })
