-- ===== src/Usb/Msc/Enumeration/Whole.antt =====
-- The whole enumeration of components/usb-host-comp/msc/usb_msc.cpp: what the device has been
-- sent, and what the object holds at the end.
use esp32sx_c_plus_wrappers.Base.{
  ℕ, suc, ap₂, Option, some, ◌+◌, ◌<◌, ◌≤◌, ◌^◌, ◌-◌, List, [], ◌∷◌, ◌++◌, ◌≡◌, refl, ap, sym, ◌∙◌,
  arith, set, length,
}
use esp32sx_c_plus_wrappers.Driver.{Env, World}
use esp32sx_c_plus_wrappers.Usb.Wire.{init_cbw, cbw_bytes}
use esp32sx_c_plus_wrappers.Usb.Wire.Device.{Request}
use esp32sx_c_plus_wrappers.Usb.Msc.Commands.{
  commands, capacities, capacity_request, inquiry_request, next_request, commands-on_cbw,
  commands-on_data, commands-on_csw, on_csw_max_lun_commands,
}
use esp32sx_c_plus_wrappers.Usb.Msc.{Msc, Call, max_lun, read_capacity, transfer_done}
use esp32sx_c_plus_wrappers.Usb.Msc.Steps.{Allocates, Sound}
use esp32sx_c_plus_wrappers.Usb.Msc.Enumeration.{
  Unit32, Fits, command_sent, capacity_data, status, max_lun_data, complete, answers,
  command_sent_dev, max_lun_dev, capacity_dev, Enumerated, learn, one_unit, enumerate,
}

module _ (env : Env Call) (room : Allocates env) where
  one_unit_commands :
      (lun : ℕ) (u : Unit32) (w : World Msc Call)
      → Sound w.dev
      → w.dev.event ≡ read_capacity
      → w.dev.lun < 4
      → u.last_block < 2 ^ 32
      → u.size < 2 ^ 32
      → commands (complete env (command_sent lun ∷ capacity_data u ∷ status ∷ []) w).log
        ≡ (w.dev.ep_out, some (next_request w.dev)) ∷ commands w.log
  unfolding transfer_done init_cbw cbw_bytes
  one_unit_commands lun u w sound e h c s =
      let sent = command_sent_dev env lun w in
      let w1 = (transfer_done env (command_sent lun) w).1 in
      let w2 = (transfer_done env (capacity_data u) w1).1 in
      let e1 = ap (λ o. o.event) sent ∙ e in
      let told : w2.dev ≡ record (w.dev) {
        block_count = set w.dev.block_count w.dev.lun u.last_block;
        block_size = set w.dev.block_size w.dev.lun u.size;
      } =
        capacity_dev env room w1 (rw sent sound) u c s e1 (rw sent h) ∙ rw sent in
      commands-on_csw env status w2 (ap (λ o. o.event) told ∙ e)
      ∙ ap₂ (λ o log. (o.ep_out, some (next_request o)) ∷ log) told
          (commands-on_data env (capacity_data u) w1 e1 ∙ commands-on_cbw env (command_sent lun) w)

  learn-more :
      (u : Unit32) (o : Msc) (n : ℕ)
      → Sound o
      → o.event ≡ read_capacity
      → o.lun ≡ n
      → o.lun < o.luns
      → suc n < 256
      → Sound (learn u o)
        × ((learn u o).event ≡ read_capacity)
        × ((learn u o).lun ≡ suc n)
        × ((learn u o).luns ≡ o.luns)
        × ((learn u o).ep_out ≡ o.ep_out)
  learn-more u o n sound e at more few = ground (arith, sound.0, sound.1)

  -- Each unit from `lun` on has been asked for its capacity, and then the inquiry was sent.
  enumerate_commands :
      (us : List Unit32) (lun n m : ℕ) (w : World Msc Call) (earlier : List (ℕ × Option Request))
      → Fits us
      → 0 < length us
      → Sound w.dev
      → w.dev.event ≡ read_capacity
      → w.dev.lun ≡ n
      → w.dev.luns + 1 ≡ m
      → n + length us ≡ m
      → m ≤ 4
      → commands w.log ≡ capacities w.dev.ep_out (suc n) ++ earlier
      → commands (complete env (answers env lun us) w).log
        ≡ (w.dev.ep_out, some inquiry_request) ∷ (capacities w.dev.ep_out m ++ earlier)
  enumerate_commands [] lun n m w earlier f h sound e at left total few c = absurd (omega arith)
  enumerate_commands (u ∷ []) lun n m w earlier f h sound e at left total few c =
      let one = one_unit_commands lun u w sound e (omega arith) f.0 f.1 in
      let last : next_request w.dev ≡ inquiry_request = ground arith in
      let m' : suc n ≡ m = omega arith in
      one
      ∙ ap₂ (λ r log. (w.dev.ep_out, some r) ∷ log) last
          (c ∙ ap (λ k. capacities w.dev.ep_out k ++ earlier) m')
  enumerate_commands (u ∷ v ∷ us) lun n m w earlier f h sound e at left total few c =
      let w' = (complete env (command_sent lun ∷ capacity_data u ∷ status ∷ []) w) in
      let learnt = one_unit env room lun u w sound e (omega arith) f.0 f.1 in
      let one = one_unit_commands lun u w sound e (omega arith) f.0 f.1 in
      let more : next_request w.dev ≡ capacity_request (suc n) = ground arith in
      let (fine, asking, at, ends, ep) =
        learn-more u w.dev n sound e at (omega arith) (omega arith) in
      let sent : commands w'.log ≡ capacities w.dev.ep_out (suc (suc n)) ++ earlier =
        one ∙ ap₂ (λ r log. (w.dev.ep_out, some r) ∷ log) more c in
      let ep' : w'.dev.ep_out ≡ w.dev.ep_out = rw learnt ep in
      let rest : commands (complete env (answers env (lun + 1) (v ∷ us)) w').log
          ≡ (w'.dev.ep_out, some inquiry_request) ∷ (capacities w'.dev.ep_out m ++ earlier) =
        enumerate_commands (v ∷ us) (lun + 1) (suc n) m w' earlier f.2 (omega arith)
          (rw learnt fine) (rw learnt asking) (rw learnt at) (rw learnt (omega (arith, ends, left)))
          (omega arith) few (sent ∙ ap (λ p. capacities p (suc (suc n)) ++ earlier) (sym ep')) in
      rest ∙ rw ep'

-- When the answer to MAX LUN names the last of the units `us`, at most four, and the transfers of
-- their capacities complete in order, then the device, whose outward endpoint is known, has been
-- sent by the object a READ CAPACITY(10) for each unit in order and after these an INQUIRY, and no
-- other command. Every unit's answer, the address of its last block and the size of a block, stands
-- in the arrays, the places beyond are as before, and nothing was accessed out of range. It is so if
-- every transfer can be allocated.
pub enumeration_complete :
    (env : Env Call) (us : List Unit32) (w : World Msc Call)
    → Allocates env
    → Fits us
    → 0 < length us
    → length us ≤ 4
    → length w.dev.block_count ≡ 4
    → length w.dev.block_size ≡ 4
    → Sound w.dev
    → w.dev.event ≡ max_lun
    → (let w' = complete env (max_lun_data (length us - 1) ∷ answers env 0 us) w in
        Enumerated w'.dev us [] w.dev.block_count [] w.dev.block_size
        × (commands w'.log
            ≡ (w.dev.ep_out, some inquiry_request)
              ∷ (capacities w.dev.ep_out (length us) ++ commands w.log)))
unfolding transfer_done
enumeration_complete env us w room f some_units few c s sound e =
    let n = length us - 1 in
    let began = max_lun_dev env room w sound n e in
    let asked = on_csw_max_lun_commands env (max_lun_data n) w e in
    let w' = (transfer_done env (max_lun_data n) w).1 in
    let ep : w'.dev.ep_out ≡ w.dev.ep_out = ap (λ o. o.ep_out) began in
    let sent : commands w'.log ≡ capacities w'.dev.ep_out 1 ++ commands w.log = asked ∙ rw ep in
    let fine : Sound w'.dev = rw began sound in
    let rest : commands (complete env (answers env 0 us) w').log
        ≡ (w'.dev.ep_out, some inquiry_request)
          ∷ (capacities w'.dev.ep_out (length us) ++ commands w.log) =
      enumerate_commands env room us 0 0 (length us) w' (commands w.log) f some_units fine
        (ap (λ o. o.event) began) (ap (λ o. o.lun) began) (ap (λ o. o.luns + 1) began ∙ omega arith)
        (omega arith) few sent in
    (
      enumerate env room us [] w.dev.block_count [] w.dev.block_size 0 w' f some_units (
          rw began (record {
            sound = sound;
            asking = refl;
            at_count = refl;
            at_size = refl;
            left = omega arith;
            counts = refl;
            sizes = refl;
            count_room = omega arith;
            size_room = omega arith;
            fits = omega arith;
          })),
      rest ∙ rw ep,
    )
