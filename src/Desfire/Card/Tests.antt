-- ===== src/Desfire/Card/Tests.antt =====
-- The theorems on commands of one answer at concrete cards.
use nfc_cpp.Base.{ℕ, ◌≤◌, ◌≡◌, refl, arith, false, List, [], ◌∷◌, length, some, Result, ok, err}
use nfc_cpp.Base.{from_desfire, inr, ◌/◌, ◌%◌, ◌≢◌, IsByte}
use nfc_cpp.Base.Codes.DesfireError
use nfc_cpp.Crypto.Tests.{toy}
use nfc_cpp.Wire.{native, wrap, native_wrap, iso}
use nfc_cpp.Desfire.Policy.Frame.{IsFramed}
use nfc_cpp.Desfire.Tests.{aes_session}
use nfc_cpp.Desfire.Command.Select.{SelectApplicationCommand, select_application}
use nfc_cpp.Desfire.Command.{DesfireRequest}
use nfc_cpp.Desfire.Command.DataFile.{DataFileOptions, build_request}
use nfc_cpp.Desfire.Command.DataFile.Layout.{IsCreatable, read_options, build_request-read_options}
use nfc_cpp.Desfire.Command.Application.{
  CreateApplicationCommand, DeleteApplicationCommand, CreateApplicationOptions, DesfireKeyType,
  create_application, delete_application, encode_key_settings2,
}
use nfc_cpp.Desfire.Command.Application.KeySettings.{encode_key_settings2-IsByte, key_family}
use nfc_cpp.Desfire.Card.Untouched.{application_commands-still}
use nfc_cpp.Desfire.Command.File.{FileCommand, file_command}
use nfc_cpp.Desfire.Command.ValueMutation.{ValueCommand, value_command}
use nfc_cpp.Desfire.Card.{IApduTransceiver, Run, execute_command}
use nfc_cpp.Desfire.Card.Selection.{selection_outcome, select_application-outcome}
use nfc_cpp.Desfire.Card.Session.{value_command-IsFramed}
use nfc_cpp.Desfire.Card.Files.{file_command_refused}

-- A card that gives one answer to everything.
abbrev answering : List ℕ → IApduTransceiver
answering answer = record { Link = Unit {0}; transceive = λ link apdu. (ok answer, link) }

abbrev selection : SelectApplicationCommand
selection = record { aid = 0x01 ∷ 0x02 ∷ 0x03 ∷ []; complete = false }

wraps : wrap native (0x5A ∷ 0x01 ∷ 0x02 ∷ 0x03 ∷ []) ≡ ok (0x5A ∷ 0x01 ∷ 0x02 ∷ 0x03 ∷ [])
unfolding wrap native_wrap
wraps = refl

short : (bytes : List ℕ) → ok (0xAF ∷ []) ≡ ok bytes → length bytes ≤ 257
short [] h = omega arith
short (b ∷ []) h = omega arith
short (b ∷ b' ∷ bs) h = cc

-- An answer of 0xAF: the call succeeds and the session is as it was.
select_application-outcome_example :
    (end : Result (Unit {0}) × Run SelectApplicationCommand (Unit {0})) × (execute_command native
        (answering (0xAF ∷ []))
        select_application
        2
        selection
        tt
        aes_session
      ≡ some end)
    × ((end.0, end.1.context) ≡ selection_outcome aes_session selection.aid (ok (0xAF ∷ [])))
select_application-outcome_example =
    select_application-outcome native (answering (0xAF ∷ [])) 0 selection aes_session
      (0x5A ∷ 0x01 ∷ 0x02 ∷ 0x03 ∷ []) tt tt (ok (0xAF ∷ [])) wraps refl refl short

abbrev payment : ValueCommand
payment = record {
  options = record { file_no = 0x02; value = 100; communication_settings = 0xFF };
  complete = false;
  update_context_iv = false;
  request_state = [];
}

value_command-IsFramed_example :
    (end : Result (Unit {0}) × Run ValueCommand (Unit {0})) × (execute_command iso
        (answering (0x00 ∷ []))
        (value_command toy 0x0C)
        2
        payment
        tt
        aes_session
      ≡ some end)
    × IsFramed aes_session (end.0, end.1.context)
value_command-IsFramed_example =
    value_command-IsFramed toy iso (answering (0x00 ∷ [])) 0x0C 0 payment tt aes_session

abbrev second_file : FileCommand
second_file = record { file_no = 0x02; complete = false }

abbrev no_file : FileCommand
no_file = record { file_no = 0x20; complete = false }

file_command_refused_example :
    execute_command native (answering (0x00 ∷ [])) (file_command 0xEB toy) 2 no_file tt aes_session
    ≡ some (
      err (from_desfire DesfireError.parameter_error),
      record { command = no_file; link = tt; context = aes_session },
    )
file_command_refused_example =
    file_command_refused toy 0xEB native (answering (0x00 ∷ [])) 0 no_file tt aes_session
      (omega arith)

abbrev log_file : DataFileOptions
log_file = record {
  file_no = 0x03;
  communication_settings = 0x03;
  read_access = 0x0E;
  write_access = 0x01;
  read_write_access = 0x02;
  change_access = 0x00;
  file_size = 0x12345;
}

log_file-IsCreatable : IsCreatable log_file
log_file-IsCreatable = record {
  file = omega arith;
  settings = inr (inr refl);
  reads = omega arith;
  writes = omega arith;
  reads_writes = omega arith;
  changes = omega arith;
  some_bytes = omega arith;
  small = omega arith;
}

build_request-read_options_example :
    (request : DesfireRequest) × (build_request 0xCD
        (record { options = log_file; complete = false })
        aes_session
      ≡ (ok request, record { options = log_file; complete = false }))
    × ((request.command_code ≡ 0xCD) × (read_options request.request_data ≡ some log_file))
build_request-read_options_example =
    build_request-read_options 0xCD log_file aes_session log_file-IsCreatable

abbrev door : CreateApplicationOptions
door = record {
  aid = 0x01 ∷ 0x02 ∷ 0x03 ∷ [];
  key_settings1 = 0x0F;
  key_count = 5;
  key_type = DesfireKeyType.aes;
}

aes-ne-unknown : DesfireKeyType.aes ≢ DesfireKeyType.unknown
aes-ne-unknown e = cc

encode_key_settings2-IsByte_example :
    (byte : ℕ) × (encode_key_settings2 door ≡ some byte)
    × IsByte byte
    × (byte % 16 ≡ 5)
    × (byte / 64 ≡ key_family DesfireKeyType.aes)
encode_key_settings2-IsByte_example =
    encode_key_settings2-IsByte door (omega arith) (omega arith) aes-ne-unknown

abbrev create : CreateApplicationCommand
create = record { options = door; complete = false }

abbrev delete : DeleteApplicationCommand
delete = record { aid = door.aid; complete = false }

application_commands-still_example :
    ((end : Result (Unit {0}) × Run CreateApplicationCommand (Unit {0})) × (execute_command iso
          (answering (0x00 ∷ []))
          create_application
          2
          create
          tt
          aes_session
        ≡ some end)
      × (end.1.context ≡ aes_session))
    × ((end : Result (Unit {0}) × Run DeleteApplicationCommand (Unit {0})) × (execute_command iso
            (answering (0x00 ∷ []))
            delete_application
            2
            delete
            tt
            aes_session
          ≡ some end)
        × (end.1.context ≡ aes_session))
application_commands-still_example =
    application_commands-still iso (answering (0x00 ∷ [])) 0 tt aes_session create delete
