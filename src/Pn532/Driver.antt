-- ===== src/Pn532/Driver.antt =====
-- Pn532Driver::executeCommand, transceive, sendCommand, wakeUp and waitForChip of
-- Src/Pn532/Pn532Driver.cpp, with IHardwareBus and the clock of Include/Utils/Timing.h as an
-- interface: what a delay brings to the bus is the bus's own.
pub mod Waits
use nfc_cpp.Base.{
  ℕ, zero, suc, ◌+◌, ◌-◌, ◌/◌, ◌%◌, ◌^◌, Bool, true, false, not, ◌==◌, ltb, leb, List, [],
}
use nfc_cpp.Base.{◌∷◌, length, replicate, if◌then◌else◌, Option, none, some, Result, ok, err, fault}
use nfc_cpp.Base.{guard, from_pn532}
use nfc_cpp.Base.Codes.Pn532Error
use nfc_cpp.Base.Steps.{Step, after, ◌>>=◌, lift}
use nfc_cpp.Pn532.{
  CommandRequest, CommandResponse, Pn532ResponseFrame, pn532_frame_max, response_code_offset,
}
use nfc_cpp.Pn532.Request.{build}
use nfc_cpp.Pn532.Response.{check_ack, ack_frame, parse_response_frame}

pub record IHardwareBus : Type 1 where
  pub Bus : Type 0
  pub write : Bus → List ℕ → Result (Unit {0}) × Bus
  pub read : Bus → ℕ → Result (List ℕ) × Bus
  pub available : Bus → ℕ
  pub get_tick_ms : Bus → ℕ
  pub delay_ms : Bus → ℕ → Bus

pub record IPn532Command : Type 1 where
  pub State : Type 0
  pub build_request : State → Result CommandRequest
  pub parse_response : State → Pn532ResponseFrame → Result CommandResponse × State

abbrev pub default_timeout_ms : ℕ
default_timeout_ms = 500

abbrev pub poll_interval_ms : ℕ
poll_interval_ms = 10

-- The ticks are 32 bits wide, and their difference wraps.
unfoldable pub elapsed_ms : ℕ → ℕ → ℕ
elapsed_ms start_tick current_tick = (current_tick + (2 ^ 32 - start_tick)) % 2 ^ 32

unfoldable pub has_timeout : ℕ → ℕ → ℕ → Bool
unfolding elapsed_ms
has_timeout start_tick timeout_ms current_tick = leb timeout_ms (elapsed_ms start_tick current_tick)

module _ (b : IHardwareBus) where
  open b use {Bus, write, read, available, get_tick_ms, delay_ms}

  -- The loop of waitForChip, on fuel: none when the rounds run out.
  unfoldable pub wait_loop : ℕ → ℕ → ℕ → Bus → Option (Bool × Bus)
  unfolding has_timeout
  wait_loop zero start timeout bus = none
  wait_loop (suc fuel) start timeout bus =
      if has_timeout start timeout (get_tick_ms bus)
      then some (false, bus)
      else (if ltb 0 (available bus)
          then some (true, bus)
          else wait_loop fuel start timeout (delay_ms bus poll_interval_ms))

  abbrev pub or_never : Bus → Option (Bool × Bus) → Result Bool × Bus
  or_never bus none = (fault, bus)
  or_never bus (some (answered, bus')) = (ok answered, bus')

  -- A round for each poll interval of the timeout, and two for its ends.
  unfoldable pub wait_for_chip : ℕ → Step Bus Bool
  unfolding wait_loop
  wait_for_chip timeout bus =
      or_never bus (wait_loop (timeout / poll_interval_ms + 2) (get_tick_ms bus) timeout bus)

  abbrev pub put : List ℕ → Step Bus (Unit {0})
  put bytes bus = write bus bytes

  abbrev pub get : ℕ → Step Bus (List ℕ)
  get count bus = read bus count

  abbrev pub wake_up : Step Bus (Unit {0})
  wake_up = put (replicate 10 0x00)

  abbrev pub send_command : List ℕ → Step Bus (Unit {0})
  send_command frame = do done ← wake_up; put frame

  abbrev pub require : Bool → ℕ → Step Bus (Unit {0})
  require test code = lift (guard test (from_pn532 code))

  abbrev pub pause : ℕ → Step Bus (Unit {0})
  pause ms bus = (ok tt, delay_ms bus ms)

  abbrev pub ask_available : Step Bus ℕ
  ask_available bus = (ok (available bus), bus)

  -- The response frame, once the command has been acknowledged.
  unfoldable pub receive_frame : CommandRequest → Step Bus Pn532ResponseFrame
  unfolding wait_for_chip
  receive_frame request = do
    answered ← wait_for_chip request.response_timeout_ms
    done ← require answered Pn532Error.timeout
    done ← pause 20
    count ← ask_available
    done ← require (not (count == 0)) Pn532Error.timeout
    frame ← get (if ltb count pn532_frame_max then count else pn532_frame_max)
    lift (parse_response_frame frame request.command_code)

  unfoldable pub transceive : CommandRequest → Step Bus Pn532ResponseFrame
  unfolding wait_for_chip receive_frame
  transceive request = do
    frame ← lift (build request)
    done ← send_command frame
    answered ← wait_for_chip default_timeout_ms
    done ← require answered Pn532Error.timeout
    ack ← get (length ack_frame)
    done ← require (check_ack ack) Pn532Error.invalid_ack_frame
    (if not request.expects_data
        then lift (
            ok (record {
              command_code = (request.command_code + response_code_offset) % 2 ^ 8;
              payload = [];
            }))
        else receive_frame request)

  abbrev pub parse_with :
      (c : IPn532Command)
      → c.State
      → Result Pn532ResponseFrame × Bus
      → Result CommandResponse × c.State × Bus
  parse_with c command (ok frame, bus) =
      let (response, command') = c.parse_response command frame in (response, command', bus)
  parse_with c command (err e, bus) = (err e, command, bus)
  parse_with c command (fault, bus) = (fault, command, bus)

  unfoldable pub execute_command :
      (c : IPn532Command) → c.State → Bus → Result CommandResponse × c.State × Bus
  unfolding transceive
  execute_command c command bus =
      parse_with c command (after (c.build_request command, bus) (λ request. transceive request))
