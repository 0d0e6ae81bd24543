-- ===== src/Nvs/Dump.antt =====
-- `NVS::dump` of components/nvs-comp/nvs.cpp reads each entry of the namespace once.
use esp32sx_c_plus_wrappers.Base.{
  ℕ, zero, suc, ◌<◌, List, [], ◌∷◌, ◌≡◌, ◌≢◌, refl, sym, ap, ap₂, ◌∙◌, arith, true, length,
}
use esp32sx_c_plus_wrappers.Driver.{Env, World}
use esp32sx_c_plus_wrappers.Driver.Script.{onto}
use esp32sx_c_plus_wrappers.Nvs.{
  Nvs, Call, InfoLayout, NvsType, any, u8, i8, u16, i16, u32, i32, u64, i64, str, blob, get,
  entry_find, entry_next, entry_info, find, next, value_info, read_entry, read_as, dump_loop, dump,
}

-- The description of an entry.
abbrev pub Info : Type 0
Info = List ℕ

-- A namespace that a walk goes through. After a history `log`, `On log it infos` says that the
-- iterator `it` stands on the first of the entries `infos`, with the others to come. It is NULL when
-- there are none. `nvs_entry_next` takes its iterator one entry further, and may give the same
-- pointer back; the description of the entry and the reading of values leave the iterators alone.
pub record Walks (env : Env Call) (part namespace : List ℕ) (infos : List Info)
    (On : List Call → ℕ → List Info → Type 0) : Type 0 where
  pub found :
      (log : List Call)
      → On
          (entry_find part namespace any ∷ log)
          (env.code log (entry_find part namespace any))
          infos
  pub followed :
      (log : List Call) (it : ℕ) (info : Info) (rest : List Info)
      → On log it (info ∷ rest)
      → On (entry_next it ∷ log) (env.code log (entry_next it)) rest
  pub described :
      (log : List Call) (it : ℕ) (info : Info) (rest : List Info)
      → On log it (info ∷ rest)
      → env.bytes log (entry_info it) ≡ info
  pub kept_info :
      (log : List Call) (it : ℕ) (rest : List Info)
      → On log it rest
      → On (entry_info it ∷ log) it rest
  pub kept_get :
      (log : List Call) (it : ℕ) (rest : List Info) (t : NvsType) (h : ℕ) (key : List ℕ)
      → On log it rest
      → On (get t h key ∷ log) it rest
  pub at_end : (log : List Call) (it : ℕ) → On log it [] → it ≡ 0
  pub there :
      (log : List Call) (it : ℕ) (info : Info) (rest : List Info) → On log it (info ∷ rest) → it ≢ 0

-- The values that have been read, the last first.
abbrev pub reads : List Call → List Call
reads [] = []
reads (get t h key ∷ log) = get t h key ∷ reads log
reads (_ ∷ log) = reads log

-- The reads of the entries: each has that of its type.
abbrev pub want_as : NvsType → ℕ → List ℕ → List Call → List Call
want_as any handle key rest = rest
want_as t handle key rest = get t handle key ∷ rest

abbrev pub wanted : InfoLayout → ℕ → List Info → List Call
wanted layout handle [] = []
wanted layout handle (info ∷ rest) =
    want_as (layout.type info) handle (layout.key info) (wanted layout handle rest)

module _ (env : Env Call) where
  value_info-next :
      (w : World Nvs Call)
      → ((next env w).1.dev ≡ record w.dev { itr = (next env w).1.dev.itr })
      → ((value_info env w).0.0 ≡ (next env w).0)
        × ((value_info env w).1.dev ≡ record w.dev { itr = (next env w).0 })
        × ((next env w).0 ≢ 0
            → (value_info env w).1.log ≡ entry_info (next env w).0 ∷ (next env w).1.log)
        × (reads (value_info env w).1.log ≡ reads (next env w).1.log)
        × ((next env w).0 ≢ 0
            → (value_info env w).0.1 ≡ env.bytes (next env w).1.log (entry_info (next env w).0))
  unfolding value_info
  value_info-next w d =
      (ground arith, ground arith, (λ h. ground arith), ground arith, λ h. ground arith)

  read_as-reads :
      (t : NvsType) (key : List ℕ) (rest : List Call) (w : World Nvs Call)
      → ((read_as env t key w).1.dev ≡ w.dev)
        × (onto (want_as t w.dev.my_handle key rest) (reads w.log)
            ≡ onto rest (reads (read_as env t key w).1.log))
  read_as-reads u8 key rest w = (refl, refl)
  read_as-reads i8 key rest w = (refl, refl)
  read_as-reads u16 key rest w = (refl, refl)
  read_as-reads i16 key rest w = (refl, refl)
  read_as-reads u32 key rest w = (refl, refl)
  read_as-reads i32 key rest w = (refl, refl)
  read_as-reads u64 key rest w = (refl, refl)
  read_as-reads i64 key rest w = (refl, refl)
  read_as-reads str key rest w = (refl, refl)
  read_as-reads blob key rest w = (refl, refl)
  read_as-reads any key rest w = (refl, refl)

  dump_loop-end :
      (layout : InfoLayout) (fuel : ℕ) (w : World Nvs Call)
      → (value_info env w).0.0 ≡ 0
      → dump_loop env layout (suc fuel) w ≡ (true, (value_info env w).1)
  unfolding dump_loop
  dump_loop-end layout fuel w e = rw e

  dump_loop-suc :
      (layout : InfoLayout) (fuel : ℕ) (w : World Nvs Call)
      → (value_info env w).0.0 ≢ 0
      → dump_loop env layout (suc fuel) w
        ≡ dump_loop env layout fuel
            (read_entry env layout (value_info env w).0.1 (value_info env w).1).1
  unfolding dump_loop
  dump_loop-suc layout fuel w e = ground arith

  -- `next` at the start of a walk, and inside one.
  next-start :
      (w : World Nvs Call)
      → w.dev.itr ≡ 0
      → (let c = entry_find w.dev.part_name w.dev.namespace any in
          ((next env w).0 ≡ env.code w.log c)
          × ((next env w).1.log ≡ c ∷ w.log)
          × ((next env w).1.dev ≡ record w.dev { itr = (next env w).1.dev.itr }))
  unfolding next find
  next-start w z = (ground arith, ground arith, ground arith)

  next-inside :
      (w : World Nvs Call)
      → w.dev.itr ≢ 0
      → (let c = entry_next w.dev.itr in
          ((next env w).0 ≡ env.code w.log c)
          × ((next env w).1.log ≡ c ∷ w.log)
          × ((next env w).1.dev ≡ record w.dev { itr = (next env w).1.dev.itr }))
  unfolding next
  next-inside w z = (ground arith, ground arith, ground arith)

module _ {env : Env Call} {part namespace : List ℕ} {infos : List Info}
    {On : List Call → ℕ → List Info → Type 0} (walks : Walks env part namespace infos On) where
  -- The walk has the entries `rest` before it.
  data Before (rest : List Info) (w : World Nvs Call) : Type 0 where
    start : w.dev.itr ≡ 0 → rest ≡ infos → Before rest w
    inside : (info : Info) → On w.log w.dev.itr (info ∷ rest) → Before rest w

  Before-next :
      (rest : List Info) (w : World Nvs Call)
      → w.dev.part_name ≡ part
      → w.dev.namespace ≡ namespace
      → Before rest w
      → On (next env w).1.log (next env w).0 rest
        × ((next env w).1.dev ≡ record w.dev { itr = (next env w).1.dev.itr })
        × (reads (next env w).1.log ≡ reads w.log)
  Before-next rest w p n (start z e) =
      let (code, log, dev) = next-start env w z in
      (rw (code, log, p, n, e) (walks.found w.log), dev, ap reads log)
  Before-next rest w p n (inside info on) =
      let (code, log, dev) = next-inside env w (walks.there w.log w.dev.itr info rest on) in
      (rw (code, log) (walks.followed w.log w.dev.itr info rest on), dev, ap reads log)

  read_as-On :
      (t : NvsType) (key : List ℕ) (it : ℕ) (rest : List Info) (w : World Nvs Call)
      → On w.log it rest
      → On (read_as env t key w).1.log it rest
  read_as-On any key it rest w on = on
  read_as-On u8 key it rest w on = walks.kept_get w.log it rest u8 w.dev.my_handle key on
  read_as-On i8 key it rest w on = walks.kept_get w.log it rest i8 w.dev.my_handle key on
  read_as-On u16 key it rest w on = walks.kept_get w.log it rest u16 w.dev.my_handle key on
  read_as-On i16 key it rest w on = walks.kept_get w.log it rest i16 w.dev.my_handle key on
  read_as-On u32 key it rest w on = walks.kept_get w.log it rest u32 w.dev.my_handle key on
  read_as-On i32 key it rest w on = walks.kept_get w.log it rest i32 w.dev.my_handle key on
  read_as-On u64 key it rest w on = walks.kept_get w.log it rest u64 w.dev.my_handle key on
  read_as-On i64 key it rest w on = walks.kept_get w.log it rest i64 w.dev.my_handle key on
  read_as-On str key it rest w on = walks.kept_get w.log it rest str w.dev.my_handle key on
  read_as-On blob key it rest w on = walks.kept_get w.log it rest blob w.dev.my_handle key on

  dump_loop-reads :
      (layout : InfoLayout) (rest : List Info) (fuel : ℕ) (w : World Nvs Call)
      → length rest < fuel
      → w.dev.part_name ≡ part
      → w.dev.namespace ≡ namespace
      → Before rest w
      → ((dump_loop env layout fuel w).0 ≡ true)
        × (reads (dump_loop env layout fuel w).1.log
            ≡ onto (wanted layout w.dev.my_handle rest) (reads w.log))
  unfolding dump_loop
  dump_loop-reads layout rest zero w f p n b = absurd (omega arith)
  dump_loop-reads layout [] (suc fuel) w f p n b =
      let (on, kept, reads_same) = Before-next [] w p n b in
      let (it_same, _, _, still, _) = value_info-next env w kept in
      let at = walks.at_end (next env w).1.log (next env w).0 on in
      rw (dump_loop-end env layout fuel w (it_same ∙ at)) (refl, still ∙ reads_same)
  dump_loop-reads layout (info ∷ rest) (suc fuel) w f p n b =
      let (on, kept, reads_same) = Before-next (info ∷ rest) w p n b in
      let (it_same, dev, log, still, filled) = value_info-next env w kept in
      let it = (next env w).0 in
      let w1 = (next env w).1 in
      let some_it = walks.there w1.log it info rest on in
      let v = (value_info env w).1 in
      let is_info : (value_info env w).0.1 ≡ info =
        filled some_it ∙ walks.described w1.log it info rest on in
      let on_v : On v.log it (info ∷ rest) =
        rw (log some_it) (walks.kept_info w1.log it (info ∷ rest) on) in
      let u = (read_entry env layout info v).1 in
      let t = layout.type info in
      let key = layout.key info in
      let after = wanted layout w.dev.my_handle rest in
      let (same, more) = read_as-reads env t key after v in
      let fields = same ∙ dev in
      let on_u : On u.log u.dev.itr (info ∷ rest) =
        rw (ap Nvs.itr fields) (read_as-On t key it (info ∷ rest) v on_v) in
      let (ended, rest_read) =
        dump_loop-reads layout rest fuel u (omega arith) (ap Nvs.part_name fields ∙ p)
          (ap Nvs.namespace fields ∙ n) (inside info on_u) in
      let step =
        dump_loop-suc env layout fuel w (λ z. some_it (sym it_same ∙ z))
        ∙ ap (λ i. dump_loop env layout fuel (read_entry env layout i v).1) is_info in
      (
        ap (λ r. r.0) step ∙ ended,
        ap (λ r. reads r.1.log) step
            ∙ rest_read
            ∙ ap (λ h. onto (wanted layout h rest) (reads u.log)) (ap Nvs.my_handle fields)
            ∙ sym more
            ∙ ap₂ (λ h log. onto (want_as t h key after) log) (ap Nvs.my_handle dev)
                (still ∙ reads_same),
      )

  -- With fuel for more rounds than there are entries, `dump` of an object whose walk is at its start
  -- comes to its end: it has read each entry of the namespace once, in the order of the walk, by the
  -- reader of the entry's type. The walk is that of a namespace whose iterators esp-idf moves from
  -- entry to entry as documented.
  pub dump-reads :
      (layout : InfoLayout) (fuel : ℕ) (w : World Nvs Call)
      → length infos < fuel
      → w.dev.part_name ≡ part
      → w.dev.namespace ≡ namespace
      → w.dev.itr ≡ 0
      → ((dump env layout fuel w).0 ≡ true)
        × (reads (dump env layout fuel w).1.log
            ≡ onto (wanted layout w.dev.my_handle infos) (reads w.log))
  unfolding dump
  dump-reads layout fuel w f p n z =
      let (ended, all_read) = dump_loop-reads layout infos fuel w f p n (start z refl) in
      (ground (arith, ended), ground (arith, ended, all_read))
