-- ===== src/Desfire/Command/DataFile/Layout.antt =====
-- What the card reads from a request to create a data file.
use nfc_cpp.Base.{
  ℕ, ◌+◌, ◌*◌, ◌/◌, ◌%◌, ◌^◌, ◌≤◌, ◌<◌, ◌≡◌, ◌⊎◌, refl, arith, true, false, List, [], ◌∷◌, Option,
  none, some, ok,
}
use nfc_cpp.Base.Bits.{bit_and-byte}
use nfc_cpp.Crypto.Words.{le24}
use nfc_cpp.Desfire.Context.{DesfireContext}
use nfc_cpp.Desfire.Command.{DesfireRequest}
use nfc_cpp.Desfire.Command.DataFile.{
  DataFileOptions, validate_common_options, validate_data_file_options, build_access_rights_bytes,
  build_create_data_file_request, build_request,
}

-- The layout of the DESFire documentation: two halves to an access byte, the size in three bytes.
unfoldable pub read_options : List ℕ → Option DataFileOptions
read_options (file_no ∷ settings ∷ low ∷ high ∷ s0 ∷ s1 ∷ s2 ∷ []) = some (record {
  file_no = file_no;
  communication_settings = settings;
  read_access = high / 16;
  write_access = high % 16;
  read_write_access = low / 16;
  change_access = low % 16;
  file_size = s0 + 256 * (s1 + 256 * s2);
})
read_options _ = none

-- The options that the documentation allows.
pub record IsCreatable (o : DataFileOptions) : Type 0 where
  pub file : o.file_no ≤ 31
  pub settings :
      (o.communication_settings ≡ 0)
      ⊎ ((o.communication_settings ≡ 1) ⊎ (o.communication_settings ≡ 3))
  pub reads : o.read_access ≤ 15
  pub writes : o.write_access ≤ 15
  pub reads_writes : o.read_write_access ≤ 15
  pub changes : o.change_access ≤ 15
  pub some_bytes : 0 < o.file_size
  pub small : o.file_size < 2 ^ 24

validate_common_options-IsCreatable :
    (o : DataFileOptions) → IsCreatable o → validate_common_options o ≡ true
unfolding validate_common_options
validate_common_options-IsCreatable o h =
    ground (arith, h.file, h.settings, h.reads, h.writes, h.reads_writes, h.changes)

validate_data_file_options-IsCreatable :
    (o : DataFileOptions) → IsCreatable o → validate_data_file_options o ≡ true
unfolding validate_data_file_options
validate_data_file_options-IsCreatable o h =
    ground (arith, validate_common_options-IsCreatable o h, h.some_bytes, h.small)

halves :
    (a b : ℕ)
    → a ≤ 15
    → b ≤ 15
    → ((a % 16 * 16 + b % 16) / 16 ≡ a) × ((a % 16 * 16 + b % 16) % 16 ≡ b)
halves a b ha hb = (omega arith, omega arith)

three_bytes :
    (v : ℕ) → v < 2 ^ 24 → v % 256 + 256 * (v / 2 ^ 8 % 256 + 256 * (v / 2 ^ 16 % 256)) ≡ v
three_bytes v h = omega arith

le24-size :
    (file_no settings low high v : ℕ)
    → v < 2 ^ 24
    → read_options (file_no ∷ settings ∷ low ∷ high ∷ le24 v)
      ≡ some (record {
        file_no = file_no;
        communication_settings = settings;
        read_access = high / 16;
        write_access = high % 16;
        read_write_access = low / 16;
        change_access = low % 16;
        file_size = v;
      })
unfolding read_options le24
le24-size file_no settings low high v h =
    rw (bit_and-byte v, bit_and-byte (v / 2 ^ 8), bit_and-byte (v / 2 ^ 16), three_bytes v h) refl

-- CreateStdDataFile and CreateBackupDataFile, reset and with options that the documentation
-- allows, build a request with their command code, and the bytes of the request read back, by the
-- documented layout, as the options.
pub build_request-read_options :
    (command_code : ℕ) (options : DataFileOptions) (context : DesfireContext)
    → IsCreatable options
    → (request : DesfireRequest) × (build_request command_code
          (record { options = options; complete = false })
          context
        ≡ (ok request, record { options = options; complete = false }))
      × ((request.command_code ≡ command_code) × (read_options request.request_data ≡ some options))
unfolding build_request build_access_rights_bytes
build_request-read_options command_code o context h =
    let (rw_access, change) = halves o.read_write_access o.change_access h.reads_writes h.changes in
    let (read, write) = halves o.read_access o.write_access h.reads h.writes in
    (
      build_create_data_file_request command_code o
          (o.read_write_access % 16 * 16 + o.change_access % 16)
          (o.read_access % 16 * 16 + o.write_access % 16),
      rw (validate_data_file_options-IsCreatable o h, validate_common_options-IsCreatable o h) refl,
      (
        refl,
        rw
            (
              le24-size o.file_no o.communication_settings _ _ o.file_size h.small,
              rw_access,
              change,
              read,
              write,
            )
            refl,
      ),
    )
