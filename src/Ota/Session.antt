-- ===== src/Ota/Session.antt =====
-- A whole update with components/ota-comp/ota.cpp: what is written, and whether the header is checked
-- before.
use esp32sx_c_plus_wrappers.Base.{
  ℕ, ◌+◌, List, [], ◌∷◌, Bool, true, false, not, ◌&&◌, ◌≡◌, ◌≢◌, refl, sym, ap, ap₂, ◌∙◌, map,
  Option, none, some, arith, length, ◌==◌, if◌then◌else◌, ltb,
}
use esp32sx_c_plus_wrappers.Base.Int.{ℤ}
use esp32sx_c_plus_wrappers.Driver.{Env, World, ◌⨾◌}
use esp32sx_c_plus_wrappers.Driver.Script.{onto}
use esp32sx_c_plus_wrappers.Ota.{
  Ota, OtaM, Call, Layout, begin, write, finish, same_bytes, new_version, desc_offset, ota_begin,
  ota_write, ota_end, set_boot_partition, description, last_invalid_partition,
}

-- What has been written to flash, with the handle that it was written by, the last first.
abbrev pub flashed : List Call → List (ℤ × List ℕ)
flashed [] = []
flashed (ota_write handle bytes ∷ log) = (handle, bytes) ∷ flashed log
flashed (_ ∷ log) = flashed log

-- The partition of the last update that was begun.
abbrev pub opened : List Call → Option ℕ
opened [] = none
opened (ota_begin p ∷ log) = some p
opened (_ ∷ log) = opened log

module _ (env : Env Call) (layout : Layout) where
  -- The history when the version of the last invalid image is read.
  abbrev pub queried : World Ota Call → List Call
  queried w = last_invalid_partition ∷ description w.dev.running ∷ w.log

  abbrev pub last_invalid : World Ota Call → ℕ
  last_invalid w = env.code (description w.dev.running ∷ w.log) last_invalid_partition

  -- The image has a whole description, and its version is not the one that was rolled back.
  abbrev pub acceptable : List ℕ → World Ota Call → Bool
  acceptable bytes w =
      ltb (desc_offset env layout + layout.desc_size) (length bytes)
      && not (
          not (last_invalid w == 0)
          && same_bytes (layout.version (env.bytes (queried w) (description (last_invalid w))))
              (new_version env layout bytes))

  -- The client's loop: the pieces are written until one fails.
  unfoldable pub write_all : List (List ℕ) → OtaM ℕ
  write_all [] w = (0, w)
  write_all (bytes ∷ pieces) w =
      let (e, w') = write env layout bytes w in
      let rest = write_all pieces w' in if e == 0 then rest else (e, w')

  unfoldable pub update : List (List ℕ) → OtaM ℕ
  update pieces = begin env ⨾ write_all pieces ⨾ finish env

  write-rejected :
      (bytes : List ℕ) (w : World Ota Call)
      → w.dev.image_header_was_checked ≡ false
      → acceptable bytes w ≡ false
      → ((write env layout bytes w).0 ≢ 0)
        × (flashed (write env layout bytes w).1.log ≡ flashed w.log)
        × ((write env layout bytes w).1.dev ≡ w.dev)
  unfolding write
  write-rejected bytes w c a = (ground arith, ground arith, ground arith)

  write_ok :
      (bytes : List ℕ) (w : World Ota Call)
      → (write env layout bytes w).0 ≡ 0
      → flashed (write env layout bytes w).1.log ≡ (w.dev.update_handle, bytes) ∷ flashed w.log
  unfolding write
  write_ok bytes w h = ground arith

  write_dev :
      (bytes : List ℕ) (w : World Ota Call)
      → ((write env layout bytes w).1.dev.update_handle ≡ w.dev.update_handle)
        × ((write env layout bytes w).1.dev.update_partition ≡ w.dev.update_partition)
        × (opened (write env layout bytes w).1.log ≡ opened w.log)
  unfolding write
  write_dev bytes w = (ground arith, ground arith, ground arith)

  -- The pieces as they are written by a handle.
  abbrev pub written_by : ℤ → List (List ℕ) → List (ℤ × List ℕ)
  written_by handle pieces = map (λ bytes. (handle, bytes)) pieces

  write_all_ok :
      (pieces : List (List ℕ)) (w : World Ota Call)
      → (write_all pieces w).0 ≡ 0
      → (flashed (write_all pieces w).1.log
          ≡ onto (written_by w.dev.update_handle pieces) (flashed w.log))
        × ((write_all pieces w).1.dev.update_handle ≡ w.dev.update_handle)
        × ((write_all pieces w).1.dev.update_partition ≡ w.dev.update_partition)
        × (opened (write_all pieces w).1.log ≡ opened w.log)
  unfolding write_all
  write_all_ok [] w h = (refl, refl, refl, refl)
  write_all_ok (bytes ∷ pieces) w h =
      ground (
        arith,
        write_ok bytes w,
        write_dev bytes w,
        write_all_ok pieces (write env layout bytes w).1,
      )

  -- How a finished update ends: it was begun on the object's partition, the pieces are flashed in
  -- order by the handle that this gave, the update of the handle is closed, and then the next boot is
  -- from the partition.
  pub record Installed (pieces : List (List ℕ)) (w : World Ota Call) (result : World Ota Call)
      : Type 0 where
    pub before : List Call
    pub handle : ℤ
    pub handle_given : handle ≡ env.int w.log (ota_begin w.dev.update_partition)
    pub begun : opened before ≡ some w.dev.update_partition
    pub pieces_flashed : flashed before ≡ onto (written_by handle pieces) (flashed w.log)
    pub ended : result.log ≡ set_boot_partition w.dev.update_partition ∷ ota_end handle ∷ before

  finish_ok :
      (w : World Ota Call)
      → (finish env w).0 ≡ 0
      → (finish env w).1.log
        ≡ set_boot_partition w.dev.update_partition ∷ ota_end w.dev.update_handle ∷ w.log
  unfolding finish
  finish_ok w h = ground arith

  begin_ok :
      (w : World Ota Call)
      → (begin env w).0 ≡ 0
      → ((begin env w).1.log ≡ ota_begin w.dev.update_partition ∷ w.log)
        × ((begin env w).1.dev.update_partition ≡ w.dev.update_partition)
        × ((begin env w).1.dev.update_handle ≡ env.int w.log (ota_begin w.dev.update_partition))
  unfolding begin
  begin_ok w h = (ground arith, ground arith, ground arith)

  begin-keeps :
      (w : World Ota Call)
      → (flashed (begin env w).1.log ≡ flashed w.log)
        × ((begin env w).1.dev.image_header_was_checked ≡ w.dev.image_header_was_checked)
  unfolding begin
  begin-keeps w = (ground arith, ground arith)

  -- The three stages of an update that succeeds.
  update-stages :
      (pieces : List (List ℕ)) (w : World Ota Call)
      → (update pieces w).0 ≡ 0
      → (let begun = begin env w in
          let written = write_all pieces begun.1 in
          (begun.0 ≡ 0)
          × (written.0 ≡ 0)
          × ((finish env written.1).0 ≡ 0)
          × ((update pieces w).1 ≡ (finish env written.1).1))
  unfolding update
  update-stages pieces w h = ground arith

  -- If an update returns ESP_OK, then it was begun on the object's partition, and every piece has been
  -- flashed by the handle that this gave, in order, after what was there before; the update of the
  -- handle was closed after the last of them, and the partition was made the one to boot from after
  -- that.
  pub update-Installed :
      (pieces : List (List ℕ)) (w : World Ota Call)
      → (update pieces w).0 ≡ 0
      → Installed pieces w (update pieces w).1
  update-Installed pieces w h =
      let begun = begin env w in
      let (b, o, f, e) = update-stages pieces w h in
      let (log, part, hand) = begin_ok w b in
      let (flash, hand', part', still) = write_all_ok pieces begun.1 o in
      let written = write_all pieces begun.1 in
      record {
        before = written.1.log;
        handle = written.1.dev.update_handle;
        handle_given = hand' ∙ hand;
        begun = still ∙ ap opened log;
        pieces_flashed =
            flash ∙ ap₂ (λ d l. onto (written_by d pieces) (flashed l)) (sym hand') log;
        ended =
            ap World.log e
            ∙ finish_ok written.1 f
            ∙ ap (λ p. set_boot_partition p ∷ ota_end written.1.dev.update_handle ∷ written.1.log)
                (part' ∙ part);
      }

  write_all-rejected :
      (bytes : List ℕ) (pieces : List (List ℕ)) (w : World Ota Call)
      → w.dev.image_header_was_checked ≡ false
      → acceptable bytes w ≡ false
      → ((write_all (bytes ∷ pieces) w).0 ≢ 0)
        × (flashed (write_all (bytes ∷ pieces) w).1.log ≡ flashed w.log)
  unfolding write_all
  write_all-rejected bytes pieces w c a =
      (ground (arith, write-rejected bytes w c a), ground (arith, write-rejected bytes w c a))

  -- The first update of an object whose first piece has no whole description, or names the version
  -- that was rolled back, fails, and nothing is flashed.
  pub update-rejected :
      (bytes : List ℕ) (pieces : List (List ℕ)) (w : World Ota Call)
      → w.dev.image_header_was_checked ≡ false
      → acceptable bytes (begin env w).1 ≡ false
      → ((update (bytes ∷ pieces) w).0 ≢ 0)
        × (flashed (update (bytes ∷ pieces) w).1.log ≡ flashed w.log)
  unfolding update
  update-rejected bytes pieces w c a =
      let (kept, flag) = begin-keeps w in
      let (failed, none_flashed) = write_all-rejected bytes pieces (begin env w).1 (flag ∙ c) a in
      (ground (arith, failed), ground (arith, none_flashed, kept))

  -- The check is made once for an object: after an image that was accepted, a second update that
  -- begins writes its first piece whatever the piece holds.
  pub begin-write :
      (bytes : List ℕ) (w : World Ota Call)
      → w.dev.image_header_was_checked ≡ true
      → (begin env w).0 ≡ 0
      → flashed (write env layout bytes (begin env w).1).1.log
        ≡ (env.int w.log (ota_begin w.dev.update_partition), bytes) ∷ flashed w.log
  unfolding begin write
  begin-write bytes w c h = ground arith
