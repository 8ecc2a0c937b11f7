-- ===== src/Harness/Timer.antt =====
-- HpcTimerStart and HpcTimerElapsedMilliseconds (authvars_test/host/edk2_test_harness/EdkTest.h).
-- GetPerformanceCounter is clock() (authvars_test/host/edk2/linux_fixup.h), whose clock_t is a
-- signed long of 32 bits on the target; its value is an argument, as is the frequency.
use qemu_pipeline.Base.{
  ℕ, ◌+◌, ◌-◌, ◌*◌, ◌/◌, ◌^◌, ◌%◌, ◌<◌, ◌≤◌, ◌≡◌, ◌≢◌, ap, false, ltb, ◌==◌, if◌then◌else◌, arith,
}
use qemu_pipeline.Outcome.{Outcome, ok, fault}

-- The conversion of a clock_t to UINT64. `clock` is its 32 bits; the conversion extends the sign.
abbrev uint64_of_clock : ℕ → ℕ
uint64_of_clock clock = if ltb clock (2 ^ 31) then clock else clock + (2 ^ 64 - 2 ^ 32)

unfoldable pub hpc_timer_start : ℕ → ℕ
hpc_timer_start clock = uint64_of_clock clock

-- The difference and the product are of UINT64; a frequency of 0 is a division by zero.
unfoldable pub hpc_timer_elapsed_milliseconds : ℕ → ℕ → ℕ → Outcome ℕ
hpc_timer_elapsed_milliseconds ticks_per_second clock start =
    if ticks_per_second == 0
    then fault
    else ok (((uint64_of_clock clock + 2 ^ 64 - start) % 2 ^ 64 * 1000) % 2 ^ 64 / ticks_per_second)

-- Between two readings of clock() that are less than 2 ^ 31 ticks apart, with a frequency other
-- than 0, the elapsed milliseconds are those of the ticks, even where the 32 bits have wrapped
-- around, unless clock() has gone from its positive values to its negative ones in between. Then
-- they are those of 2 ^ 64 less a thousand times what the ticks are short of 2 ^ 32.
pub hpc_timer_elapsed_milliseconds-start :
    (ticks_per_second clock ticks : ℕ)
    → ticks_per_second ≢ 0
    → clock < 2 ^ 32
    → ticks < 2 ^ 31
    → ((clock < 2 ^ 31 → clock + ticks < 2 ^ 31)
        → hpc_timer_elapsed_milliseconds ticks_per_second
            ((clock + ticks) % 2 ^ 32)
            (hpc_timer_start clock)
          ≡ ok (ticks * 1000 / ticks_per_second))
      × (clock < 2 ^ 31
          → 2 ^ 31 ≤ clock + ticks
          → hpc_timer_elapsed_milliseconds ticks_per_second
              ((clock + ticks) % 2 ^ 32)
              (hpc_timer_start clock)
            ≡ ok ((2 ^ 64 - (2 ^ 32 - ticks) * 1000) / ticks_per_second))
unfolding hpc_timer_elapsed_milliseconds hpc_timer_start
hpc_timer_elapsed_milliseconds-start frequency clock ticks some_ticks small near = (
  (λ stays. rw positive (ap (λ n. ok (n / frequency)) (right stays))),
  λ low crosses. rw positive (ap (λ n. ok (n / frequency)) (wrong low crosses)),
)
  where
    positive : (frequency == 0) ≡ false
    positive = ground (arith, some_ticks)

    right :
        (clock < 2 ^ 31 → clock + ticks < 2 ^ 31)
        → ((uint64_of_clock ((clock + ticks) % 2 ^ 32) + 2 ^ 64 - uint64_of_clock clock)
              % 2 ^ 64
              * 1000)
            % 2 ^ 64
          ≡ ticks * 1000
    right stays = ground (arith, stays, small, near)

    wrong :
        clock < 2 ^ 31
        → 2 ^ 31 ≤ clock + ticks
        → ((uint64_of_clock ((clock + ticks) % 2 ^ 32) + 2 ^ 64 - uint64_of_clock clock)
              % 2 ^ 64
              * 1000)
            % 2 ^ 64
          ≡ 2 ^ 64 - (2 ^ 32 - ticks) * 1000
    wrong low crosses = ground (arith, small, near)
