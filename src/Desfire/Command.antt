-- ===== src/Desfire/Command.antt =====
-- Include/Nfc/Desfire/IDesfireCommand.h, DesfireRequest.h and DesfireResult.h: what a DESFire
-- command offers to the card that runs it. A call that changes the command or the context hands
-- back what it leaves.
pub mod Read
pub mod Select
pub mod Commit
pub mod File
pub mod Application
pub mod DataFile
pub mod ValueMutation
use nfc_cpp.Base.{
  ℕ, Bool, List, [], ◌∷◌, ◌==◌, Result, ok, err, fault, ◌>>=◌, push_all, from_desfire,
}
use nfc_cpp.Base.Codes.DesfireError
use nfc_cpp.Desfire.Context.{DesfireContext}
use nfc_cpp.Desfire.Policy.{Outcome}

pub record DesfireRequest : Type 0 where
  pub command_code : ℕ
  pub request_data : List ℕ
  pub expected_response_length : ℕ

pub record DesfireResult : Type 0 where
  pub status_code : ℕ
  pub result_data : List ℕ

unfoldable pub is_success : DesfireResult → Bool
is_success result = result.status_code == 0x00

unfoldable pub is_additional_frame : DesfireResult → Bool
is_additional_frame result = result.status_code == 0xAF

pub record IDesfireCommand : Type 1 where
  pub State : Type 0
  pub build_request : State → DesfireContext → Result DesfireRequest × State
  pub parse_response :
      State → List ℕ → DesfireContext → Result DesfireResult × State × DesfireContext
  pub is_complete : State → Bool
  pub reset : State → State

-- The status byte and the data that every parseResponse copies out of `response`.
unfoldable pub read_result : List ℕ → Result DesfireResult
read_result [] = err (from_desfire DesfireError.invalid_response)
read_result (status ∷ bytes) = do
  copied ← push_all 256 [] bytes
  ok (record { status_code = status; result_data = copied })

-- The end of a parseResponse that updates the context and then is complete: an error of the update
-- leaves the command as it was.
abbrev pub finish :
    {S : Type 0} (command completed : S) (result : DesfireResult)
    → Outcome (Unit {0})
    → Result DesfireResult × S × DesfireContext
finish command completed result (ok done, context) = (ok result, completed, context)
finish command completed result (err e, context) = (err e, command, context)
finish command completed result (fault, context) = (fault, command, context)

-- A parseResponse of a command with one answer: the answer is read, the context updated, and the
-- command completed.
abbrev pub parse_one_answer :
    {S : Type 0} (command completed : S) (context : DesfireContext)
    (update : DesfireResult → Outcome (Unit {0}))
    → Result DesfireResult
    → Result DesfireResult × S × DesfireContext
parse_one_answer command completed context update (ok result) =
    finish command completed result (update result)
parse_one_answer command completed context update (err e) = (err e, command, context)
parse_one_answer command completed context update fault = (fault, command, context)
