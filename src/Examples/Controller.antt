-- ===== src/Examples/Controller.antt =====
-- A model of the SPI controller with a chip behind it, and a transfer on it.
use rustsbi_d.Base.{
  ℕ, zero, suc, ◌+◌, ◌-◌, ◌*◌, ◌%◌, ◌^◌, ◌≤◌, ◌<◌, min, ◌≡◌, refl, ap, ◌∙◌, inl, inr, Bool, true,
  false, Option, none, some, List, [], ◌∷◌, ◌++◌, arith, ◌==◌, if◌then◌else◌, Bool-cases, ==_iff,
  get_or,
}
use rustsbi_d.Spl.Flash.{copy_into, first_or}
use rustsbi_d.Base.Ram.{peek}
use rustsbi_d.Spl.Flash.Chip.{image, IsNand}
use rustsbi_d.Spl.Flash.Controller.{exchange, carried, copy_into-carried}
use rustsbi_d.Examples.Models.{Nand, busy, loaded, nand_prompt}
use rustsbi_d.Hal.Transfer.{Port, transfer}
use rustsbi_d.Hal.Transfer.Bus.{Burst, IsController}
use rustsbi_d.Hal.Transfer.Exchange.{transfer-exchange}

-- `late` says that the next byte comes in after one more poll.
pub record Line (C : Type 0) : Type 0 where
  pub mbc : ℕ
  pub mtc : ℕ
  pub stc : ℕ
  pub dbc : ℕ
  pub burst : Option Burst
  pub late : Bool
  pub chip : C

module _ {C : Type 0} (wire : List ℕ → ℕ → C → ℕ → ℕ) (next : List ℕ → ℕ → ℕ → C → C) where
  abbrev push : ℕ → Option Burst → Option Burst
  push byte none = none
  push byte (some b) = some (record b { sent = b.sent ++ (byte ∷ []) })

  abbrev rf_cnt : Line C → ℕ × Line C
  rf_cnt d = if d.late then (0, record d { late = false }) else (1, d)

  abbrev take_byte : Option Burst → Line C → ℕ × Line C
  take_byte none d = (0, d)
  take_byte (some b) d = (
    wire b.sent b.dummy d.chip b.taken,
    record d { burst = some (record b { taken = b.taken + 1 }); late = true },
  )

  abbrev finish : Option Burst → Line C → Bool × Line C
  finish none d = (true, d)
  finish (some b) d =
      if b.taken == b.total
      then (
        true,
        record d { burst = none; chip = next b.sent b.dummy (b.total - (b.out + b.dummy)) d.chip },
      )
      else (false, d)

  abbrev pub port : Port (Line C)
  port = record {
    write_mbc = λ n d. record d { mbc = n };
    write_mtc = λ n d. record d { mtc = n };
    write_stc = λ n d. record d { stc = n };
    write_dbc = λ n d. record d { dbc = n };
    set_xch = λ d. record d {
      burst = some (record {
        total = d.mbc;
        out = d.mtc;
        single = d.stc;
        dummy = d.dbc;
        sent = [];
        taken = 0;
      });
    };
    tf_cnt = λ d. (0, d);
    rf_cnt = rf_cnt;
    write_txd = λ byte d. record d { burst = push byte d.burst };
    read_rxd = λ d. take_byte d.burst d;
    xch_is_clear = λ d. finish d.burst d;
  }

  abbrev pub line_delay : Line C → ℕ
  line_delay d = if d.late then 1 else 0

  late_most : (d : Line C) → line_delay d ≤ 1
  late_most d = elim (Bool-cases d.late) [ inl l ↦ rw l (omega arith) | inr l ↦ rw l (omega arith) ]

  line_poll :
      (d : Line C) (b : Burst)
      → d.burst ≡ some b
      → let (cnt, d') = rf_cnt d in
        (d'.burst ≡ some b) × (d'.chip ≡ d.chip) × (cnt ≡ 0 → line_delay d' < line_delay d)
  line_poll d b e = elim (Bool-cases d.late) [
    | inl l ↦ rw l (e, refl, λ z. omega arith)
    | inr l ↦ rw l (e, refl, λ z. absurd (omega (arith, z)))
  ]

  line_got :
      (d : Line C) (b : Burst)
      → d.burst ≡ some b
      → 0 < (rf_cnt d).0
      → let (byte, d') = port.read_rxd (rf_cnt d).1 in
        (byte ≡ wire b.sent b.dummy d.chip b.taken)
        × (d'.burst ≡ some (record b { taken = b.taken + 1 }))
        × (d'.chip ≡ d.chip)
  line_got d b e h = elim (Bool-cases d.late) [
    | inl l ↦ absurd (omega (arith, rw l at h))
    | inr l ↦ rw (l, e) (refl, refl, refl)
  ]

  line_ends :
      (d : Line C) (b : Burst)
      → d.burst ≡ some b
      → b.taken ≡ b.total
      → let (clear, d') = finish d.burst d in
        (clear ≡ true)
        × (d'.burst ≡ none)
        × (d'.chip ≡ next b.sent b.dummy (b.total - (b.out + b.dummy)) d.chip)
  line_ends d b e t = rw (e, (==_iff b.taken b.total).1 t) (refl, refl, refl)

  pub port-IsController : IsController port (λ d. d.burst) (λ d. d.chip) wire next line_delay 1
  port-IsController = record {
    prompt = late_most;
    begins = λ total out dummy d idle t s w. (refl, refl);
    room = λ d b e. (omega arith, e, refl);
    put = λ byte d b e f s. (ap (push byte) e, refl);
    poll = λ d b e f l. line_poll d b e;
    got = λ d b e f l h. line_got d b e h;
    ends = λ d b e f t. line_ends d b e t;
  }

-- A chip that answers the command 0x9f with three bytes behind the dummy byte, and counts the bursts.
abbrev wire : List ℕ → ℕ → ℕ → ℕ → ℕ
wire x dummy n i = get_or (0 ∷ 0 ∷ 0xef ∷ 0xaa ∷ 0x21 ∷ []) i 0

abbrev next : List ℕ → ℕ → ℕ → ℕ → ℕ
next x dummy count n = n + 1

abbrev idle_line : Line ℕ
idle_line = record { mbc = 0; mtc = 0; stc = 0; dbc = 0; burst = none; late = true; chip = 0 }

transfer-exchange_example :
    (d' : Line ℕ) × (transfer (port wire next) 2 (0x9f ∷ []) 1 3 idle_line
      ≡ some (0xef ∷ 0xaa ∷ 0x21 ∷ [], d'))
    × (d'.burst ≡ none)
    × (d'.chip ≡ 1)
transfer-exchange_example =
    transfer-exchange (port wire next) (λ d. d.burst) (λ d. d.chip) wire next (line_delay wire next)
      1 2 1 3 (0x9f ∷ []) idle_line (port-IsController wire next) refl (omega arith) (omega arith)
      (omega arith) (omega arith)

-- The flash chip of the models, by what comes in at each position of a burst.
module _ (page : ℕ → ℕ → ℕ) where
  abbrev pub nand_wire : List ℕ → ℕ → Nand → ℕ → ℕ
  nand_wire (cmd ∷ key ∷ []) dummy d i = busy d
  nand_wire (cmd ∷ hi ∷ lo ∷ []) dummy d i = page (loaded d) (hi * 2 ^ 8 + lo + (i - 4))
  nand_wire _ dummy d i = 0xEF

  abbrev pub nand_next : List ℕ → ℕ → ℕ → Nand → Nand
  nand_next (cmd ∷ key ∷ []) dummy count d = (false, loaded d)
  nand_next (cmd ∷ hi ∷ mid ∷ lo ∷ []) dummy count d = (true, hi * 2 ^ 16 + mid * 2 ^ 8 + lo)
  nand_next _ dummy count d = d

  peek-image :
      (f : ℕ → ℕ) (a k n : ℕ) → 4 ≤ k → peek k n (λ i. f (a + (i - 4))) ≡ image f (a + (k - 4)) n
  peek-image f a k zero h = refl
  peek-image f a k (suc n) h =
      ap (λ l. f (a + (k - 4)) ∷ l)
        (peek-image f a (k + 1) n (omega arith) ∙ ap (λ b. image f b n) (omega (arith, h)))

  wired_status :
      (d : Nand)
      → let (got, d') = exchange nand_wire nand_next (0x0f ∷ 0xc0 ∷ []) 0 1 d in
        (first_or 0 got % 2 ≡ min 1 (busy d)) × (busy d' ≡ busy d - 1) × (loaded d' ≡ loaded d)
  wired_status (true, p) = (refl, refl, refl)
  wired_status (false, p) = (refl, refl, refl)

  pub wired-IsNand : IsNand (exchange nand_wire nand_next) page busy loaded 1
  wired-IsNand = record {
    prompt = nand_prompt page;
    status = wired_status;
    page_read = λ d hi mid lo _ _ _ _. refl;
    cache_read = λ d hi lo count _ _ _ _.
        peek-image (page (loaded d)) (hi * 2 ^ 8 + lo) 4 count (omega arith)
        ∙ ap (λ b. image (page (loaded d)) b count) {y = hi * 2 ^ 8 + lo} (omega arith);
  }

abbrev pub idle_nand : Line Nand
idle_nand = record {
  mbc = 0;
  mtc = 0;
  stc = 0;
  dbc = 0;
  burst = none;
  late = true;
  chip = (true, 9);
}

abbrev bytes : ℕ → ℕ → ℕ
bytes p i = p + i

copy_into-carried_example :
    (d' : Line Nand) × (copy_into
        (carried (port (nand_wire bytes) (nand_next bytes)) 2)
        2
        3
        4095
        3
        idle_nand
      ≡ some (2048 ∷ 2 ∷ 3 ∷ [], d'))
    × (d'.burst ≡ none)
copy_into-carried_example =
    copy_into-carried (port (nand_wire bytes) (nand_next bytes)) (λ d. d.burst) (λ d. d.chip)
      (nand_wire bytes) (nand_next bytes) (line_delay (nand_wire bytes) (nand_next bytes)) 1 2 2 3
      4095 bytes busy loaded 1 idle_nand (port-IsController (nand_wire bytes) (nand_next bytes))
      (omega arith) (wired-IsNand bytes) (omega arith) (omega arith) refl
