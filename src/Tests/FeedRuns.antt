-- ===== src/Tests/FeedRuns.antt =====
-- The shell with bytes that come over USART3.
use tinyrtos.Prelude.{
  ℕ, ◌/◌, ◌≡◌, refl, arith, List, [], ◌∷◌, ◌++◌, map, some, inl, false, replicate, length-replicate,
  bit, codes,
}
use tinyrtos.Kernel.{Kernel}
use tinyrtos.Queue.{Queue}
use tinyrtos.Bsp.Usart3.{Masks, UsartPort, usart3_start}
use tinyrtos.Bsp.Usart3.Start.{moder_digit, afr_digit, usart3_start_lem}
use tinyrtos.Osi.Task.{Osi}
use tinyrtos.Osi.Init.{Board, osi_init}
use tinyrtos.Osi.Feed.{Event, interrupt, round, run_events}
use tinyrtos.Osi.Feed.Log.{feed, arrived}
use tinyrtos.Osi.Feed.Holds.{HoldsBytes}
use tinyrtos.Osi.Feed.Delivered.{Delivered}
use tinyrtos.Osi.Feed.Started.{shell_is_fed, nothing_lost}
use tinyrtos.Tests.Fixtures.{layout, started}

abbrev pub masks : Masks
masks = record {
  gpioden = 8;
  usart3en = 0x0004_0000;
  te = 8;
  re = 4;
  ue = 1;
  rxneie = 32;
  rxne = 32;
}

abbrev reset_port : UsartPort
reset_port = record {
  ahb1enr = 0x0010_0000;
  apb1enr = 0;
  moder = 0;
  afr_1 = 0xFF00_0000;
  cr1 = 0;
  cr2 = 0;
  cr3 = 0;
  brr = 0;
  irq_enabled = false;
  usart3_init = false;
}

abbrev zero_queue : Queue
zero_queue = record {
  buffer = [];
  item_size = 0;
  capacity = 0;
  head = 0;
  tail = 0;
  count = 0;
  waiting_task = 0;
}

abbrev pub board : Board
board = record {
  statics = record {
    osi_init = false;
    rx_queue = some zero_queue;
    tx_mutex = some (record { owner = 0; waiting_task = 0 });
    storage = replicate 128 0;
  };
  port = reset_port;
  kernel = started;
}

abbrev same : ℕ → Kernel
same i = started

-- "h", a round, a spurious interrupt, a line feed, and two rounds.
abbrev events : List Event
events =
    interrupt 32 b'h' started
    ∷ round 0 started same
    ∷ interrupt 0 7 started
    ∷ interrupt 32 b'\n' started
    ∷ round b'h' started same
    ∷ round b'\n' started same
    ∷ []

abbrev shell : Osi
shell = record { cmd = replicate 128 7; len = 0; saw_cr = false; halted = false }

nothing_lost_example :
    let log = feed masks 128 events [] in
    Delivered 128 log shell (
      run_events masks events
        ((osi_init masks layout 0x0800_0901 115_200 3 board).statics.rx_queue, shell))
    × (map (λ (x : ℕ × (ℕ → Kernel)). x.0) log.taken ++ log.left ≡ arrived masks events)
    × (osi_init masks layout 0x0800_0901 115_200 3
          (osi_init masks layout 0x0800_0901 115_200 3 board)
        ≡ osi_init masks layout 0x0800_0901 115_200 3 board)
nothing_lost_example =
    nothing_lost masks layout 0x0800_0901 115_200 3 board zero_queue events shell refl refl
      (length-replicate {A = ℕ} 128 0) (omega arith)

arrived_run : arrived masks events ≡ codes "h\n"
arrived_run = refl

usart3_start_lem_example :
    (bit 17 (usart3_start masks 216_000_000 115_200 reset_port).moder
      ≡ moder_digit 17 (bit 17 reset_port.moder))
    × (bit 17 (usart3_start masks 216_000_000 115_200 reset_port).afr_1
        ≡ afr_digit 17 (bit 17 reset_port.afr_1))
    × ((usart3_start masks 216_000_000 115_200 reset_port).brr ≡ 216_000_000 / 115_200)
    × (usart3_start masks 216_000_000 9600 (usart3_start masks 216_000_000 115_200 reset_port)
        ≡ usart3_start masks 216_000_000 115_200 reset_port)
usart3_start_lem_example =
    usart3_start_lem masks 216_000_000 115_200 9600 17 reset_port refl (omega arith)

-- A queue of two bytes that holds "x".
abbrev small_queue : Queue
small_queue = record {
  buffer = b'x' ∷ 0 ∷ [];
  item_size = 1;
  capacity = 2;
  head = 1;
  tail = 0;
  count = 1;
  waiting_task = 0xFFFF_FFFF;
}

small_queue-HoldsBytes : HoldsBytes 2 (codes "x") small_queue
small_queue-HoldsBytes = record {
  valid = record {
    some_size = omega arith;
    some_room = omega arith;
    storage = omega arith;
    addressable = omega arith;
    count_in = omega arith;
    head_in = omega arith;
    tail_in = omega arith;
    ring = inl refl;
  };
  size = refl;
  room = refl;
  items = refl;
}

shell_is_fed_example :
    let log = feed masks 2 events (codes "x") in
    Delivered 2 log shell (run_events masks events (some small_queue, shell))
    × (map (λ (x : ℕ × (ℕ → Kernel)). x.0) log.taken ++ log.left ≡ codes "x" ++ log.accepted)
shell_is_fed_example =
    shell_is_fed masks 2 events (codes "x") small_queue shell small_queue-HoldsBytes
