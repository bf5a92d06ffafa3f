-- ===== src/Devices/Clint/Tests.antt =====
-- The timers of a machine with one hart.
use riscv_em.Base.{◌≡◌, refl, ◌≤◌, List, [], ◌∷◌, some, get_elem?, inl, arith}
use riscv_em.Hart.{Hart}
use riscv_em.Hart.Interrupts.Heard.{MachineHears}
use riscv_em.Hart.Samples.{user_hart}
use riscv_em.Memory.{Outcome}
use riscv_em.Devices.Clint.{Clint, timer_get, timer_clocksource, update_mip}
use riscv_em.Devices.Clint.Laws.{Known, Follow, Listens, TimerTaken, update_mip-Follow, timer_taken}

abbrev one_timer : Clint
one_timer = record {
  start = 0x2000000;
  msip = 0 ∷ [];
  mtimecmp = 5 ∷ [];
  mtime = record { begin = 0; freq = 1000000000 };
}

user_hart-Known : Known one_timer (user_hart ∷ [])
unfolding Known
user_hart-Known = ((0, 5, refl, refl), tt)

update_mip-Follow_example :
    (harts' : List Hart) × (update_mip 7 one_timer (user_hart ∷ []) ≡ Outcome.done harts')
    × Follow one_timer (timer_get 7 one_timer.mtime) (user_hart ∷ []) harts'
update_mip-Follow_example = update_mip-Follow one_timer 7 (user_hart ∷ []) user_hart-Known

user_hart-Listens : Listens user_hart
unfolding MachineHears
user_hart-Listens = record {
  enabled = refl;
  kept = refl;
  word = omega arith;
  unmasked = inl (omega arith);
}

due_now : 5 ≤ timer_get 7 one_timer.mtime
unfolding timer_get timer_clocksource
due_now = omega arith

timer_taken_example :
    (harts' : List Hart) × (h' : Hart) × (update_mip 7 one_timer (user_hart ∷ [])
      ≡ Outcome.done harts')
    × (get_elem? harts' 0 ≡ some h')
    × TimerTaken h'
timer_taken_example =
    timer_taken one_timer 7 0 5 (user_hart ∷ []) user_hart user_hart-Known refl refl due_now
      user_hart-Listens
