-- ===== src/Desfire/Command/Application/KeySettings.antt =====
-- What CreateApplication tells the card about the keys of an application.
use nfc_cpp.Base.{ℕ, ◌+◌, ◌*◌, ◌/◌, ◌%◌, ◌^◌, ◌≤◌, ◌<◌, ◌≡◌, ◌≢◌, refl, arith, some, le→ltb, IsByte}
use nfc_cpp.Base.Bits.{bit_and-nibble, bit_or-above}
use nfc_cpp.Desfire.Command.Application.{
  DesfireKeyType, CreateApplicationOptions, encode_key_settings2, key_type_bits,
}

-- The two highest bits of the key settings, by the type of the application's keys: 0 for DES and
-- two-key 3DES, 1 for three-key 3DES and 2 for AES.
unfoldable pub key_family : DesfireKeyType → ℕ
key_family DesfireKeyType.des3_3k = 1
key_family DesfireKeyType.aes = 2
key_family _ = 0

key_family-lt : (t : DesfireKeyType) → key_family t < 3
unfolding key_family
key_family-lt t = ground arith

family_bits :
    (t : DesfireKeyType)
    → t ≢ DesfireKeyType.unknown
    → key_type_bits t ≡ some (key_family t * 2 ^ 6)
unfolding key_type_bits key_family
family_bits DesfireKeyType.aes h = refl
family_bits DesfireKeyType.des h = refl
family_bits DesfireKeyType.des3_2k h = refl
family_bits DesfireKeyType.des3_3k h = refl
family_bits DesfireKeyType.unknown h = elim (h refl) [ ]

-- For 1 to 14 keys of a known type, the second key settings byte of CreateApplication holds the
-- number of keys in its lowest four bits and the family of their type in its highest two, and it
-- is a byte.
pub encode_key_settings2-IsByte :
    (options : CreateApplicationOptions)
    → 1 ≤ options.key_count
    → options.key_count ≤ 14
    → options.key_type ≢ DesfireKeyType.unknown
    → (byte : ℕ) × (encode_key_settings2 options ≡ some byte)
      × IsByte byte
      × (byte % 16 ≡ options.key_count)
      × (byte / 64 ≡ key_family options.key_type)
unfolding encode_key_settings2
encode_key_settings2-IsByte options some_keys few known =
    let bounded = key_family-lt options.key_type in
    (
      key_family options.key_type * 2 ^ 6 + options.key_count,
      rw
          (
            le→ltb 14 options.key_count few,
            family_bits options.key_type known,
            bit_and-nibble options.key_count,
            bit_or-above 6 (key_family options.key_type) (options.key_count % 16) (omega arith),
          )
          (ground arith),
      omega arith,
      omega arith,
      omega arith,
    )
