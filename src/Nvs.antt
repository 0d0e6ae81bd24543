-- ===== src/Nvs.antt =====
-- components/nvs-comp: a namespace of the non-volatile storage, and the walk over its entries.
-- Printing is left out but for what `dump` reads for it.
pub mod Dump
mod Tests
use esp32sx_c_plus_wrappers.Base.{
  ℕ, zero, suc, List, [], ◌∷◌, ◌==◌, if◌then◌else◌, Bool, true, false, Option, none, some,
}
use esp32sx_c_plus_wrappers.Driver.{Env, World, M, pure, ask, tell, gets, modify, ◌>>=◌, ◌>>◌}

-- nvs_type_t; `any` also stands for a type that the class has no reader for.
pub data NvsType : Type 0 where
  u8 i8 u16 i16 u32 i32 u64 i64 str blob any : NvsType

-- An iterator is a pointer: 0 is NULL.
pub record Nvs : Type 0 where
  pub my_handle : ℕ
  pub part_name : List ℕ
  pub namespace : List ℕ
  pub itr : ℕ

-- The calls of nvs. `entry_info` fills in its bytes.
pub data Call : Type 0 where
  init_partition erase_partition : List ℕ → Call
  open_from_partition : List ℕ → List ℕ → Call
  close_handle commit_handle erase_all_keys : ℕ → Call
  erase_key : ℕ → List ℕ → Call
  entry_find : List ℕ → List ℕ → NvsType → Call
  entry_next entry_info release_iterator : ℕ → Call
  get : NvsType → ℕ → List ℕ → Call
  put : NvsType → ℕ → List ℕ → List ℕ → Call

-- Where an nvs_entry_info_t holds the key and the type of an entry, which esp-idf fixes.
pub record InfoLayout : Type 0 where
  pub key : List ℕ → List ℕ
  pub type : List ℕ → NvsType

abbrev pub NvsM : Type 0 → Type 0
NvsM A = M Nvs Call A

abbrev pub err_no_free_pages : ℕ
err_no_free_pages = 4365

module _ (env : Env Call) where
  -- A partition without free pages is erased; a failure of that aborts the program.
  unfoldable pub init : List ℕ → NvsM (Option ℕ)
  init name = do
    modify (λ o. record o { part_name = name })
    err ← ask env (init_partition name)
    if err == err_no_free_pages
        then (do
          erased ← ask env (erase_partition name)
          if erased == 0
              then (do
                again ← ask env (init_partition name)
                modify (λ o. record o { itr = 0 })
                pure (some again))
              else pure none)
        else (do modify (λ o. record o { itr = 0 }); pure (some err))

  -- On success the handle is the first of the bytes.
  unfoldable pub open_namespace : List ℕ → NvsM ℕ
  open_namespace name w =
      let c = open_from_partition w.dev.part_name name in
      let handle : ℕ = elim (env.bytes w.log c) [ h ∷ _ ↦ h | _ ↦ w.dev.my_handle ] in
      let ok = env.code w.log c == 0 in
      (
        env.code w.log c,
        record {
          dev = record w.dev {
            namespace = name;
            my_handle = if ok then handle else w.dev.my_handle;
          };
          log = c ∷ w.log;
        },
      )

  abbrev pub close : NvsM (Unit {0})
  close w = tell env (close_handle w.dev.my_handle) w

  abbrev pub commit : NvsM ℕ
  commit w = ask env (commit_handle w.dev.my_handle) w

  abbrev pub erase_value : List ℕ → NvsM ℕ
  erase_value key w = ask env (erase_key w.dev.my_handle key) w

  abbrev pub erase_all : NvsM ℕ
  erase_all w = ask env (erase_all_keys w.dev.my_handle) w

  pub find : NvsType → NvsM ℕ
  find type = do
    o ← gets (λ o. o)
    it ← ask env (entry_find o.part_name o.namespace type)
    modify (λ o. record o { itr = it })
    pure it

  pub next : NvsM ℕ
  unfolding find
  next = do o ← gets (λ o. o); if o.itr == 0 then find any else ask env (entry_next o.itr)

  -- The iterator, and what `entry_info` fills in.
  pub value_info : NvsM (ℕ × List ℕ)
  unfolding next
  value_info = do
    it ← next
    modify (λ o. record o { itr = it })
    if it == 0 then pure (0, []) else (λ w.
        ((it, env.bytes w.log (entry_info it)), record w { log = entry_info it ∷ w.log }))

  abbrev pub release : NvsM (Unit {0})
  release w = tell env (release_iterator w.dev.itr) w

  -- `getString`, `getBlob` and the eight `getValue`s.
  abbrev pub get_value : NvsType → List ℕ → NvsM ℕ
  get_value type key w = ask env (get type w.dev.my_handle key) w

  -- `setString`, `setBlob` and the eight `setValue`s.
  abbrev pub set_value : NvsType → List ℕ → List ℕ → NvsM ℕ
  set_value type key value w = ask env (put type w.dev.my_handle key value) w

  -- The reader is chosen by the entry's type.
  abbrev pub read_as : NvsType → List ℕ → NvsM (Unit {0})
  read_as any key = pure tt
  read_as t key = do get_value t key; pure tt

  module _ (layout : InfoLayout) where
    -- What `dump` reads of an entry.
    abbrev pub read_entry : List ℕ → NvsM (Unit {0})
    read_entry info = read_as (layout.type info) (layout.key info)

    -- The loop of `dump`. The fuel bounds its rounds; `false` means that it ran out.
    pub dump_loop : ℕ → NvsM Bool
    dump_loop zero w = (false, w)
    dump_loop (suc fuel) w =
        let ((it, info), w') = value_info w in
        let rest = dump_loop fuel (read_entry info w').1 in if it == 0 then (true, w') else rest

    pub dump : ℕ → NvsM Bool
    dump fuel = do ended ← dump_loop fuel; if ended then (do release; pure true) else pure false
