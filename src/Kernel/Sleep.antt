-- ===== src/Kernel/Sleep.antt =====
-- Sleeping: rtosk_kernel_sleep_ms and rtosk_kernel_tick of src/kernel/kernel.c, over the wrap of the
-- tick counter.
use tinyrtos.Prelude.{
  ℕ, zero, suc, ◌+◌, ◌-◌, ◌^◌, ◌≤◌, ◌<◌, ◌≡◌, refl, ◌∙◌, subst, ap, arith, Bool, true, false, ltb,
  if◌then◌else◌, add32, length, ◌&&◌,
}
use tinyrtos.Task.{
  expired, slot, set_slot, blocked, ready, max_tasks, block_current_until, update_blocked,
}
use tinyrtos.Task.Table.{slot-set_slot, length-set_slot, count-set_slot}
use tinyrtos.Task.Wake.{Woken-update_blocked, is_due}
use tinyrtos.Kernel.Switch.{
  state-take_pendsv, wake_tick-take_pendsv, length-take_pendsv, count-take_pendsv,
}
use tinyrtos.Kernel.Frame.{enter_critical-SameBut, critical_yield-SameBut, SameBut}
use tinyrtos.Kernel.{
  Kernel, kernel_tick, take_pendsv, sleep_ms, kernel_yield, on_table, enter_critical,
}

-- `elapsed` ticks after a sleep of `ms` began at tick `start`, its wake tick has come exactly if
-- `ms` ticks have gone by; for `ms` and `elapsed` up to 2 ^ 31, whatever `start` is.
pub expired_iff :
    (start ms elapsed : ℕ)
    → start < 2 ^ 32
    → ms ≤ 2 ^ 31
    → elapsed < 2 ^ 31
    → expired (add32 start elapsed) (add32 start ms) ≡ (if ltb elapsed ms then false else true)
expired_iff start ms elapsed h hm he = ground arith

-- One SysTick interrupt and the context switch after it, which saves the stack pointer `sp`.
abbrev pub tick_and_switch : (sp : ℕ) → Kernel → Kernel
tick_and_switch sp k = take_pendsv sp (kernel_tick k)

-- `n` of them; the `i`-th saves `sps i`.
abbrev pub ticks : (sps : ℕ → ℕ) → ℕ → Kernel → Kernel
ticks sps zero k = k
ticks sps (suc n) k = tick_and_switch (sps n) (ticks sps n k)

-- User task `i` sleeps until `wake_tick`, and the tick counter stands at `now`.
record Sleeps (i wake_tick now : ℕ) (k : Kernel) : Type 0 where
  running : k.kernel_init ≡ true
  sized : k.table.count ≤ length k.table.tasks
  user : i < k.table.count
  state : (slot k.table i).state ≡ blocked
  wake : (slot k.table i).wake_tick ≡ wake_tick
  clock : k.systicks ≡ now

-- What one tick does to a slot, with the switch after it.
record Ticked (k : Kernel) (now : ℕ) (k' : Kernel) : Type 0 where
  running : k'.kernel_init ≡ k.kernel_init
  clock : k'.systicks ≡ now
  size : length k'.table.tasks ≡ length k.table.tasks
  count : k'.table.count ≡ k.table.count
  states : (j : ℕ) → (slot k'.table j).state ≡ (slot (update_blocked now k.table).0 j).state
  wakes : (j : ℕ) → (slot k'.table j).wake_tick ≡ (slot (update_blocked now k.table).0 j).wake_tick

table-kernel_tick :
    (k : Kernel)
    → k.kernel_init ≡ true
    → (kernel_tick k).table ≡ (update_blocked (add32 k.systicks 1) k.table).0
unfolding kernel_tick on_table kernel_yield
table-kernel_tick k init = ground arith

Ticked-tick :
    (sp : ℕ) (k : Kernel)
    → k.kernel_init ≡ true
    → k.table.count ≤ length k.table.tasks
    → Ticked k (add32 k.systicks 1) (tick_and_switch sp k)
unfolding kernel_tick on_table kernel_yield take_pendsv
Ticked-tick sp k init fits =
    let w = Woken-update_blocked (add32 k.systicks 1) k.table fits in
    let e = table-kernel_tick k init in
    let k' = kernel_tick k in
    record {
      running = ground arith;
      clock = ground arith;
      size = length-take_pendsv sp k' ∙ ap (λ t. length t.tasks) e ∙ w.size;
      count = count-take_pendsv sp k' ∙ ap (λ t. t.count) e ∙ w.count;
      states = λ j. state-take_pendsv sp k' j ∙ ap (λ t. (slot t j).state) e;
      wakes = λ j. wake_tick-take_pendsv sp k' j ∙ ap (λ t. (slot t j).wake_tick) e;
    }

module _ (i wake_tick now sp : ℕ) (k : Kernel) (h : Sleeps i wake_tick now k) where
  slot-due :
      (b : Bool)
      → expired (add32 now 1) wake_tick ≡ b
      → (ltb i k.table.count && is_due (add32 k.systicks 1) k.table i) ≡ b
  slot-due b e = rw (h.clock, h.state, h.wake, e) (ground (arith, h.user))

  Sleeps-early :
      expired (add32 now 1) wake_tick ≡ false
      → Sleeps i wake_tick (add32 now 1) (tick_and_switch sp k)
  Sleeps-early e =
      let r = Ticked-tick sp k h.running h.sized in
      let same : slot (update_blocked (add32 k.systicks 1) k.table).0 i ≡ slot k.table i =
        (Woken-update_blocked (add32 k.systicks 1) k.table h.sized).slots i
        ∙ rw (slot-due false e) refl in
      record {
        running = r.running ∙ h.running;
        sized = omega (arith, r.size, r.count, h.sized);
        user = omega (arith, r.count, h.user);
        state = r.states i ∙ rw same h.state;
        wake = r.wakes i ∙ rw same h.wake;
        clock = r.clock ∙ ap (λ s. add32 s 1) h.clock;
      }

  Sleeps-due :
      expired (add32 now 1) wake_tick ≡ true → (slot (tick_and_switch sp k).table i).state ≡ ready
  Sleeps-due e =
      let r = Ticked-tick sp k h.running h.sized in
      rw
        (
          r.states i,
          (Woken-update_blocked (add32 k.systicks 1) k.table h.sized).slots i,
          slot-due true e,
        )
        refl

-- The table and the clock after rtosk_kernel_sleep_ms.
pub sleep_ms-SameBut :
    (ms : ℕ) (k : Kernel)
    → SameBut (block_current_until (add32 k.systicks ms) k.table) k (sleep_ms ms k)
unfolding sleep_ms
sleep_ms-SameBut ms k =
    let wake_tick = add32 (enter_critical k).systicks ms in
    let c = critical_yield-SameBut (block_current_until wake_tick) k in
    record {
      same_table =
          c.same_table
          ∙ ap (λ s. block_current_until (add32 s ms) k.table)
              (enter_critical-SameBut k).same_systicks;
      same_systicks = c.same_systicks;
      same_init = c.same_init;
    }

-- The current user task after rtosk_kernel_sleep_ms.
Sleeps-sleep_ms :
    (ms : ℕ) (k : Kernel)
    → k.kernel_init ≡ true
    → k.table.count ≤ length k.table.tasks
    → k.table.current < k.table.count
    → k.table.count ≤ max_tasks
    → Sleeps k.table.current (add32 k.systicks ms) k.systicks (sleep_ms ms k)
unfolding block_current_until
Sleeps-sleep_ms ms k init fits user few =
    let s = sleep_ms-SameBut ms k in
    let task = record (slot k.table k.table.current) {
      state = blocked;
      wake_tick = add32 k.systicks ms;
    } in
    let set_table : (sleep_ms ms k).table ≡ set_slot k.table k.table.current task =
      s.same_table ∙ ground arith in
    let e = slot-set_slot k.table k.table.current k.table.current task (omega arith) in
    record {
      running = s.same_init ∙ init;
      sized = rw set_table (
          ground (
            arith,
            length-set_slot k.table k.table.current task,
            count-set_slot k.table k.table.current task,
          ));
      user = rw set_table (ground (arith, count-set_slot k.table k.table.current task));
      state = rw set_table (ground (arith, e));
      wake = rw set_table (ground (arith, e));
      clock = s.same_systicks;
    }

module _ (ms : ℕ) (k : Kernel) (sps : ℕ → ℕ) where
  sleeping :
      (n : ℕ)
      → k.systicks < 2 ^ 32
      → ms ≤ 2 ^ 31
      → n < ms
      → Sleeps k.table.current (add32 k.systicks ms) k.systicks (sleep_ms ms k)
      → Sleeps k.table.current
          (add32 k.systicks ms)
          (add32 k.systicks n)
          (ticks sps n (sleep_ms ms k))
  sleeping zero clock small lt h = let e : add32 k.systicks 0 ≡ k.systicks = omega arith in rw e h
  sleeping (suc n) clock small lt h =
      let e : add32 k.systicks (suc n) ≡ add32 (add32 k.systicks n) 1 = omega arith in
      rw e (
        Sleeps-early k.table.current (add32 k.systicks ms) (add32 k.systicks n) (sps n) _
          (sleeping n clock small (omega arith) h)
          (rw (← e) (expired_iff k.systicks ms (suc n) clock small (omega arith) ∙ ground arith)))

  -- A user task that calls rtosk_kernel_sleep_ms with 0 < ms < 2 ^ 31 in a started kernel sleeps through every tick before the
  -- `ms`-th and is ready after the `ms`-th, whatever the tick counter was, its wrap included. Between
  -- the ticks nothing but the context switch runs.
  pub sleep_ms_exact :
      k.kernel_init ≡ true
      → k.table.count ≤ length k.table.tasks
      → k.table.current < k.table.count
      → k.table.count ≤ max_tasks
      → k.systicks < 2 ^ 32
      → 0 < ms
      → ms < 2 ^ 31
      → ((n : ℕ)
          → n < ms
          → (slot (ticks sps n (sleep_ms ms k)).table k.table.current).state ≡ blocked)
        × ((slot (ticks sps ms (sleep_ms ms k)).table k.table.current).state ≡ ready)
  sleep_ms_exact init fits user few clock pos small =
      let h = Sleeps-sleep_ms ms k init fits user few in
      (
        λ n lt. (sleeping n clock (omega arith) lt h).state,
        wakes (ms - 1) (omega arith) (sleeping (ms - 1) clock (omega arith) (omega arith) h),
      )
    where
      wakes :
          (m : ℕ)
          → suc m ≡ ms
          → Sleeps k.table.current
              (add32 k.systicks ms)
              (add32 k.systicks m)
              (ticks sps m (sleep_ms ms k))
          → (slot (ticks sps ms (sleep_ms ms k)).table k.table.current).state ≡ ready
      wakes m e h =
          subst (λ n. (slot (ticks sps n (sleep_ms ms k)).table k.table.current).state ≡ ready) e
            (Sleeps-due k.table.current (add32 k.systicks ms) (add32 k.systicks m) (sps m) _ h
              (ground arith))

  -- A user task that calls rtosk_kernel_sleep_ms with more than 2 ^ 31 + 1 milliseconds in a started
  -- kernel is ready again after the first tick.
  pub sleep_ms_overlong :
      k.kernel_init ≡ true
      → k.table.count ≤ length k.table.tasks
      → k.table.current < k.table.count
      → k.table.count ≤ max_tasks
      → k.systicks < 2 ^ 32
      → 2 ^ 31 + 1 < ms
      → ms < 2 ^ 32
      → (slot (ticks sps 1 (sleep_ms ms k)).table k.table.current).state ≡ ready
  sleep_ms_overlong init fits user few clock over word =
      Sleeps-due k.table.current (add32 k.systicks ms) k.systicks (sps 0) _
        (Sleeps-sleep_ms ms k init fits user few) (ground arith)
