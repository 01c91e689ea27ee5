-- ===== src/Desfire/Card/Session.antt =====
-- CommitTransaction, Credit, Debit and LimitedCredit, run on a card.
use nfc_cpp.Base.{ℕ, suc, ◌≡◌, refl, Bool, true, false, List, [], ◌∷◌, some, Result, ok}
use nfc_cpp.Base.{◌&&◌, if◌then◌else◌}
use nfc_cpp.Crypto.Ciphers.{Ciphers}
use nfc_cpp.Wire.{WireKind}
use nfc_cpp.Desfire.Context.{DesfireContext}
use nfc_cpp.Desfire.Policy.{Outcome}
use nfc_cpp.Desfire.Policy.Frame.{
  IsFramed, kept, if-IsFramed, update_context_iv_for_plain_command-IsFramed,
  update_context_iv_for_value_operation_response-IsFramed,
}
use nfc_cpp.Desfire.Command.{DesfireResult, is_success, read_result}
use nfc_cpp.Desfire.Command.Commit.{CommitTransactionCommand, commit_transaction, commit_update}
use nfc_cpp.Desfire.Command.ValueMutation.{ValueCommand, value_command, value_update}
use nfc_cpp.Desfire.Card.{IApduTransceiver, Run, execute_command}
use nfc_cpp.Desfire.Card.OneFrame.{IsOneFrame, parse_one_answer_completes}
use nfc_cpp.Desfire.Card.Framed.{IsCareful, parse_one_answer-IsMild, execute_command-IsFramed}

-- An update behind a test that only a success passes.
pub guarded-IsCareful :
    (context : DesfireContext) (test : DesfireResult → Bool) (update : Outcome (Unit {0}))
    → ((result : DesfireResult) → is_success result ≡ false → test result ≡ false)
    → IsFramed context update
    → IsCareful context (λ result. if test result then update else (ok tt, context))
guarded-IsCareful context test update silent h = record {
  framed = λ result. if-IsFramed context (test result) h (kept context (ok tt));
  idle = λ result failure. rw (silent result failure) refl;
}

and_false : (a b : Bool) → a ≡ false → (a && b) ≡ false
and_false a b h = rw h refl

module _ (c : Ciphers) where
  pub commit_transaction-IsOneFrame : IsOneFrame (commit_transaction c)
  commit_transaction-IsOneFrame = record {
    starts = λ s. refl;
    ends = λ s response context.
        parse_one_answer_completes s (record s { complete = true }) context
          (commit_update c context response) (λ s. s.complete ≡ true) refl (read_result response);
  }

  pub value_command-IsOneFrame : (command_code : ℕ) → IsOneFrame (value_command c command_code)
  value_command-IsOneFrame command_code = record {
    starts = λ s. refl;
    ends = λ s response context.
        parse_one_answer_completes s (record s { complete = true }) context
          (value_update c command_code s context response) (λ s. s.complete ≡ true) refl
          (read_result response);
  }

  commit_update-IsCareful :
      (context : DesfireContext) (response : List ℕ)
      → IsCareful context (commit_update c context response)
  commit_update-IsCareful context response =
      guarded-IsCareful context is_success _ (λ result failure. failure)
        (update_context_iv_for_plain_command-IsFramed c context (0xC7 ∷ []) response 8)

  value_update-IsCareful :
      (command_code : ℕ) (s : ValueCommand) (context : DesfireContext) (response : List ℕ)
      → IsCareful context (value_update c command_code s context response)
  value_update-IsCareful command_code s context response =
      guarded-IsCareful context (λ result. is_success result && s.update_context_iv) _
        (λ result failure. and_false (is_success result) s.update_context_iv failure)
        (update_context_iv_for_value_operation_response-IsFramed c context response s.request_state)

  module _ (wire : WireKind) (t : IApduTransceiver) where
    -- CommitTransaction, run with any card, ends after one round: at most the IV of the session
    -- changes, and an error changes nothing.
    pub commit_transaction-IsFramed :
        (n : ℕ) (command : CommitTransactionCommand) (link : t.Link) (context : DesfireContext)
        → (end : Result (Unit {0}) × Run CommitTransactionCommand t.Link) × (execute_command wire t
              (commit_transaction c)
              (suc (suc n))
              command
              link
              context
            ≡ some end)
          × IsFramed context (end.0, end.1.context)
    commit_transaction-IsFramed n command link context =
        execute_command-IsFramed wire t (commit_transaction c) context
          (λ s response.
            parse_one_answer-IsMild s (record s { complete = true }) context
              (commit_update c context response) (read_result response)
              (commit_update-IsCareful context response))
          n command link commit_transaction-IsOneFrame

    -- Credit, Debit and LimitedCredit, run with any card, end after one round: at most the IV of
    -- the session changes, and an error changes nothing.
    pub value_command-IsFramed :
        (command_code n : ℕ) (command : ValueCommand) (link : t.Link) (context : DesfireContext)
        → (end : Result (Unit {0}) × Run ValueCommand t.Link) × (execute_command wire t
              (value_command c command_code)
              (suc (suc n))
              command
              link
              context
            ≡ some end)
          × IsFramed context (end.0, end.1.context)
    value_command-IsFramed command_code n command link context =
        execute_command-IsFramed wire t (value_command c command_code) context
          (λ s response.
            parse_one_answer-IsMild s (record s { complete = true }) context
              (value_update c command_code s context response) (read_result response)
              (value_update-IsCareful command_code s context response))
          n command link (value_command-IsOneFrame command_code)
