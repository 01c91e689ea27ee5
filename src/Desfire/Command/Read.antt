-- ===== src/Desfire/Command/Read.antt =====
-- What every command reads from an answer.
use nfc_cpp.Base.{ℕ, ◌≤◌, ◌≡◌, refl, List, ◌∷◌, length, ok, push_all_fits, [], arith}
use nfc_cpp.Desfire.Command.{read_result}

pub read_result_fits :
    (status : ℕ) (bytes : List ℕ)
    → length bytes ≤ 256
    → read_result (status ∷ bytes) ≡ ok (record { status_code = status; result_data = bytes })
unfolding read_result
read_result_fits status bytes h = rw (push_all_fits 256 [] bytes (omega arith)) refl
