-- ===== src/Usb/Msc/Enumeration.antt =====
-- The enumeration of a device's logical units: the answer to the MAX LUN request starts it, each
-- unit's capacity is asked for in turn, and the inquiry ends it.
pub mod Whole
use esp32sx_c_plus_wrappers.Base.{
  ℕ, suc, ap₂, Option, some, ◌+◌, ◌<◌, ◌≤◌, ◌^◌, ◌-◌, List, [], ◌∷◌, ◌++◌, true, false, ◌≡◌, refl,
  ap, sym, ◌∙◌, arith, set, length, drop, map, set-append, append_assoc, length-append,
}
use esp32sx_c_plus_wrappers.Base.Bytes.{be32, le32, bswap-le}
use esp32sx_c_plus_wrappers.Driver.{Env, World}
use esp32sx_c_plus_wrappers.Usb.Wire.{init_cbw, cbw_bytes, bare_cmd}
use esp32sx_c_plus_wrappers.Usb.Wire.Device.{Request}
use esp32sx_c_plus_wrappers.Usb.Msc.Commands.{
  commands, capacities, capacity_request, inquiry_request, next_request, commands-on_cbw,
  commands-on_data, commands-on_csw, on_csw_max_lun_commands,
}
use esp32sx_c_plus_wrappers.Usb.Msc.{
  Msc, Call, Transfer, max_lun, inquiry, read_capacity, opcode, padding, transfer_done,
}
use esp32sx_c_plus_wrappers.Usb.Msc.Steps.{
  Allocates, Sound, on_cbw_dev, next_unit, on_csw_dev, on_csw_max_lun_dev, on_data_dev,
}

-- What a unit answers to READ CAPACITY(10): the address of its last block, and the size of a block.
pub record Unit32 : Type 0 where
  pub last_block : ℕ
  pub size : ℕ

abbrev pub Fits : List Unit32 → Type 0
Fits [] = Unit {0}
Fits (u ∷ us) = (u.last_block < 2 ^ 32) × (u.size < 2 ^ 32) × Fits us

-- The command as it was sent, the eight bytes of the answer, and the status.
abbrev pub command_sent : ℕ → Transfer
command_sent lun = record {
  handle = 1;
  actual_num_bytes = 31;
  data_buffer = cbw_bytes (init_cbw padding true lun 0x1234 (bare_cmd (opcode read_capacity)) 8);
}

abbrev pub capacity_data : Unit32 → Transfer
capacity_data u = record {
  handle = 1;
  actual_num_bytes = 8;
  data_buffer = be32 u.last_block ++ be32 u.size;
}

abbrev pub status : Transfer
status = record {
  handle = 1;
  actual_num_bytes = 13;
  data_buffer = le32 0x53425355 ++ (le32 0x1234 ++ (le32 0 ++ (0 ∷ [])));
}

-- The answer to the MAX LUN request: the setup packet, and the highest unit's number.
abbrev pub max_lun_data : ℕ → Transfer
max_lun_data n = record {
  handle = 1;
  actual_num_bytes = 9;
  data_buffer = 0xa1 ∷ 0xfe ∷ 0 ∷ 0 ∷ 0 ∷ 0 ∷ 1 ∷ 0 ∷ n ∷ [];
}

module _ (env : Env Call) where
  abbrev pub complete : List Transfer → World Msc Call → World Msc Call
  complete [] w = w
  complete (t ∷ ts) w = complete ts (transfer_done env t w).1

  -- The transfers that complete while the units from `lun` on are asked.
  abbrev pub answers : ℕ → List Unit32 → List Transfer
  answers lun [] = []
  answers lun (u ∷ us) = command_sent lun ∷ capacity_data u ∷ status ∷ answers (lun + 1) us

  pub complete-append :
      (ts us : List Transfer) (w : World Msc Call)
      → complete (ts ++ us) w ≡ complete us (complete ts w)
  complete-append [] us w = refl
  complete-append (t ∷ ts) us w = complete-append ts us (transfer_done env t w).1

  pub command_sent_dev :
      (lun : ℕ) (w : World Msc Call) → (transfer_done env (command_sent lun) w).1.dev ≡ w.dev
  unfolding transfer_done init_cbw cbw_bytes
  command_sent_dev lun w = on_cbw_dev env (command_sent lun) w

  module _ (room : Allocates env) (w : World Msc Call) (sound : Sound w.dev) where
    status_dev : w.dev.event ≡ read_capacity → (transfer_done env status w).1.dev ≡ next_unit w.dev
    unfolding transfer_done
    status_dev e = on_csw_dev env room status w sound e

    pub max_lun_dev :
        (n : ℕ)
        → w.dev.event ≡ max_lun
        → (transfer_done env (max_lun_data n) w).1.dev
          ≡ record (w.dev) { luns = n; lun = 0; event = read_capacity }
    unfolding transfer_done
    max_lun_dev n e = on_csw_max_lun_dev env room (max_lun_data n) w sound e

    pub capacity_dev :
        (u : Unit32)
        → u.last_block < 2 ^ 32
        → u.size < 2 ^ 32
        → w.dev.event ≡ read_capacity
        → w.dev.lun < 4
        → (transfer_done env (capacity_data u) w).1.dev ≡ record (w.dev) {
          block_count = set w.dev.block_count w.dev.lun u.last_block;
          block_size = set w.dev.block_size w.dev.lun u.size;
        }
    unfolding transfer_done
    capacity_dev u c s e h =
        on_data_dev env room (capacity_data u) w sound e h
        ∙ rw (bswap-le u.last_block c, bswap-le u.size s)

-- The units `us` are still to be asked: the arrays hold `pc` and `ps` for the units before.
pub record Asking (o : Msc) (us : List Unit32) (pc rc ps rs : List ℕ) : Type 0 where
  pub sound : Sound o
  pub asking : o.event ≡ read_capacity
  pub at_count : o.lun ≡ length pc
  pub at_size : o.lun ≡ length ps
  pub left : o.luns + 1 ≡ o.lun + length us
  pub counts : o.block_count ≡ pc ++ rc
  pub sizes : o.block_size ≡ ps ++ rs
  pub count_room : length us ≤ length rc
  pub size_room : length us ≤ length rs
  pub fits : o.lun + length us ≤ 4

-- All of `us` have been asked: behind `pc` and `ps` the arrays hold what the units said, and then
-- what they held before.
pub record Enumerated (o : Msc) (us : List Unit32) (pc rc ps rs : List ℕ) : Type 0 where
  pub sound : o.fault ≡ false
  pub asked : o.event ≡ inquiry
  pub at_last : o.lun ≡ o.luns
  pub counts : o.block_count ≡ pc ++ (map (λ u. u.last_block) us ++ drop (length us) rc)
  pub sizes : o.block_size ≡ ps ++ (map (λ u. u.size) us ++ drop (length us) rs)

-- The object after one unit has been asked.
abbrev pub learn : Unit32 → Msc → Msc
learn u o = next_unit (record o {
  block_count = set o.block_count o.lun u.last_block;
  block_size = set o.block_size o.lun u.size;
})

module _ (o : Msc) (u : Unit32) {pc ps : List ℕ} (x y : ℕ) {rc rs : List ℕ} where
  learn-Asking :
      (v : Unit32) (us : List Unit32)
      → Asking o (u ∷ v ∷ us) pc (x ∷ rc) ps (y ∷ rs)
      → Asking (learn u o) (v ∷ us) (pc ++ (u.last_block ∷ [])) rc (ps ++ (u.size ∷ [])) rs
  learn-Asking v us a = ground (
    arith,
    a.sound.0,
    a.sound.1,
    set-append pc rc x u.last_block o.lun,
    set-append ps rs y u.size o.lun,
    append_assoc pc (u.last_block ∷ []) rc,
    append_assoc ps (u.size ∷ []) rs,
    length-append pc (u.last_block ∷ []),
    length-append ps (u.size ∷ []),
  )

  learn-Enumerated :
      Asking o (u ∷ []) pc (x ∷ rc) ps (y ∷ rs)
      → Enumerated (learn u o) (u ∷ []) pc (x ∷ rc) ps (y ∷ rs)
  learn-Enumerated a =
      ground
        (arith, a.sound.0, set-append pc rc x u.last_block o.lun, set-append ps rs y u.size o.lun)

Enumerated-cons :
    {o : Msc} (u : Unit32) (x y : ℕ) (us : List Unit32) {pc rc ps rs : List ℕ}
    → Enumerated o us (pc ++ (u.last_block ∷ [])) rc (ps ++ (u.size ∷ [])) rs
    → Enumerated o (u ∷ us) pc (x ∷ rc) ps (y ∷ rs)
Enumerated-cons u x y us {pc} {rc} {ps} {rs} d = record {
  sound = d.sound;
  asked = d.asked;
  at_last = d.at_last;
  counts = d.counts ∙ append_assoc pc (u.last_block ∷ []) _;
  sizes = d.sizes ∙ append_assoc ps (u.size ∷ []) _;
}

module _ (env : Env Call) (room : Allocates env) where
  pub one_unit :
      (lun : ℕ) (u : Unit32) (w : World Msc Call)
      → Sound w.dev
      → w.dev.event ≡ read_capacity
      → w.dev.lun < 4
      → u.last_block < 2 ^ 32
      → u.size < 2 ^ 32
      → (complete env (command_sent lun ∷ capacity_data u ∷ status ∷ []) w).dev ≡ learn u w.dev
  one_unit lun u w sound e h c s =
      let sent = command_sent_dev env lun w in
      let w1 = (transfer_done env (command_sent lun) w).1 in
      let w2 = (transfer_done env (capacity_data u) w1).1 in
      let told : w2.dev ≡ record (w.dev) {
        block_count = set w.dev.block_count w.dev.lun u.last_block;
        block_size = set w.dev.block_size w.dev.lun u.size;
      } =
        capacity_dev env room w1 (rw sent sound) u c s (ap (λ o. o.event) sent ∙ e) (rw sent h)
        ∙ rw sent in
      status_dev env room w2 (rw told sound) (ap (λ o. o.event) told ∙ e) ∙ ap next_unit told

  pub enumerate :
      (us : List Unit32) (pc rc ps rs : List ℕ) (lun : ℕ) (w : World Msc Call)
      → Fits us
      → 0 < length us
      → Asking w.dev us pc rc ps rs
      → Enumerated (complete env (answers env lun us) w).dev us pc rc ps rs
  enumerate [] pc rc ps rs lun w f h a = absurd (omega arith)
  enumerate us pc [] ps rs lun w f h a = absurd (omega (arith, a.count_room))
  enumerate us pc rc ps [] lun w f h a = absurd (omega (arith, a.size_room))
  enumerate (u ∷ []) pc (x ∷ rc) ps (y ∷ rs) lun w f h a =
      rw (one_unit lun u w a.sound a.asking (omega (arith, a.fits)) f.0 f.1)
        (learn-Enumerated w.dev u x y a)
  enumerate (u ∷ v ∷ us) pc (x ∷ rc) ps (y ∷ rs) lun w f h a =
      let w' = complete env (command_sent lun ∷ capacity_data u ∷ status ∷ []) w in
      let one = one_unit lun u w a.sound a.asking (omega (arith, a.fits)) f.0 f.1 in
      Enumerated-cons u x y (v ∷ us) (
        enumerate (v ∷ us) (pc ++ (u.last_block ∷ [])) rc (ps ++ (u.size ∷ [])) rs (lun + 1) w' f.2
          (omega arith) (rw one (learn-Asking w.dev u x y v us a)))
