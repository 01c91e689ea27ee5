-- ===== src/Pn532/Driver/Waits.antt =====
-- waitForChip ends.
use nfc_cpp.Base.{
  ℕ, zero, suc, ◌+◌, ◌-◌, ◌*◌, ◌/◌, ◌%◌, ◌^◌, ◌≤◌, ◌<◌, ◌≡◌, refl, arith, inl, inr, Bool, true,
  false, Bool-cases, ltb, Option, some, ok,
}
use nfc_cpp.Pn532.Driver.{IHardwareBus, elapsed_ms, has_timeout, wait_loop, wait_for_chip, or_never}

-- A delay takes the time that it is asked for, and less than an hour more.
pub record IsTimely (b : IHardwareBus) : Type 0 where
  pub tick-lt : (bus : b.Bus) → b.get_tick_ms bus < 2 ^ 32
  pub delays :
      (bus : b.Bus) (ms : ℕ)
      → (late : ℕ) × (late < 3600000)
        × (b.get_tick_ms (b.delay_ms bus ms) ≡ (b.get_tick_ms bus + (ms + late)) % 2 ^ 32)

module _ (b : IHardwareBus) (timely : IsTimely b) (start timeout : ℕ) (start_fits : start < 2 ^ 32)
    (timeout_fits : timeout ≤ 2 ^ 31) where
  open b use {Bus, get_tick_ms, delay_ms, available}

  step_elapsed :
      (bus : Bus)
      → elapsed_ms start (get_tick_ms bus) < timeout
      → elapsed_ms start (get_tick_ms bus) + 10 ≤ elapsed_ms start (get_tick_ms (delay_ms bus 10))
  unfolding elapsed_ms
  step_elapsed bus h =
      let (late, small, e) = timely.delays bus 10 in
      let fits = timely.tick-lt bus in rw e (omega arith)

  in_time :
      (bus : Bus)
      → has_timeout start timeout (get_tick_ms bus) ≡ false
      → elapsed_ms start (get_tick_ms bus) < timeout
  unfolding has_timeout
  in_time bus h = ground arith

  wait_loop-returns :
      (fuel : ℕ) (bus : Bus)
      → 1 ≤ fuel
      → timeout ≤ elapsed_ms start (get_tick_ms bus) + 10 * (fuel - 1)
      → (end : Bool × Bus) × (wait_loop b fuel start timeout bus ≡ some end)
  unfolding wait_loop
  wait_loop-returns zero bus h k = absurd (omega arith)
  wait_loop-returns (suc fuel) bus h k =
      elim (Bool-cases (has_timeout start timeout (get_tick_ms bus))) [
        | inl late ↦ ((false, bus), rw late refl)
        | inr early ↦ elim (Bool-cases (ltb 0 (available bus))) [
          | inl ready ↦ ((true, bus), rw (early, ready) refl)
          | inr silent ↦
              let e = elapsed_ms start (get_tick_ms bus) in
              let before : e < timeout = in_time bus early in
              let later = step_elapsed bus before in
              let (end, ends) =
                wait_loop-returns fuel (delay_ms bus 10) (omega arith) (omega arith) in
              (end, rw (early, silent) ends)
        ]
      ]

ended :
    (b : IHardwareBus) (bus : b.Bus) (wait : Option (Bool × b.Bus)) (end : Bool × b.Bus)
    → wait ≡ some end
    → or_never b bus wait ≡ (ok end.0, end.1)
ended b bus wait end h = rw h refl

-- waitForChip returns, if a delay takes its time and less than an hour more: the rounds that the
-- model counts out for a timeout of at most 2^31 ms are enough.
pub wait_for_chip-returns :
    (b : IHardwareBus) (timeout : ℕ) (bus : b.Bus)
    → IsTimely b
    → timeout ≤ 2 ^ 31
    → (answered : Bool) × (next : b.Bus) × (wait_for_chip b timeout bus ≡ (ok answered, next))
unfolding wait_for_chip
wait_for_chip-returns b timeout bus timely fits =
    let start = b.get_tick_ms bus in
    let (end, ends) =
      wait_loop-returns b timely start timeout (timely.tick-lt bus) fits (timeout / 10 + 2) bus
        (omega arith) (omega arith) in
    (end.0, end.1, ended b bus (wait_loop b (timeout / 10 + 2) start timeout bus) end ends)
