-- ===== src/Lib.antt =====
-- A model of the NFC library's protocol core, for a PN532 reader and DESFire cards.
--
-- The program's parts. A DESFire command yields a PDU. A wire (Src/Nfc/Wire) makes an APDU of it
-- and reads the card's answer. The reader driver (Src/Pn532) puts bytes into request frames and
-- takes them out of response frames. A session (Include/Nfc/Desfire/DesfireContext.h) chains an IV
-- through all commands: the secure messaging policy (Src/Nfc/Desfire/SecureMessagingPolicy.cpp)
-- derives, checks and replaces it with the helpers of
-- Src/Nfc/Desfire/Detail/ValueOperationCryptoUtils.h and Src/Utils/DesfireCrypto.cpp.
--
-- The files.
--   Base: lists, byte vectors of a fixed capacity, bitwise operations, the error values of
--     Include/Error, and Result, the outcome of a call. `ok` and `err` are etl::expected; `fault`
--     stands for what C++ leaves undefined, an access out of range or a push onto a full vector.
--   Wire: IsoWire and NativeWire. Wire/Iso has the theorems.
--   Pn532: the request and response records; Pn532/Checksum, Pn532/Request (build, buildAck,
--     buildNack of Pn532RequestFrame.cpp) and Pn532/Response (parseResponseFrame and checkAck of
--     Pn532Driver.cpp), Pn532/Driver (executeCommand, transceive and waitForChip over IHardwareBus
--     and a clock) and Pn532/Adapter (InDataExchange.cpp and Pn532ApduAdapter::transceive, with
--     Chip, a chip that they are run against), each with the modules of its theorems below it.
--   Crypto: Ciphers, a record for the block ciphers; Words, Des, Crc, Block, Keys and Cmac, with
--     Cmac/Standard for the CMAC of the standard, whose subkeys are numbers (Cmac/Doubling).
--   Desfire: Context (the session record, resolveSessionCipher, setContextIv), PlainIv (the six IV
--     derivations), Verify (the two MAC verifications), ValuePayload (encryptPayload,
--     buildEncryptedValuePayload, protectValueOperationRequest) and Policy (the operations on
--     DesfireContext&, which return their result with the context that they leave).
--   Desfire/EncryptedPayload: protectEncryptedPayload and the IV update after the command.
--   Desfire/Command: IDesfireCommand as a record of its calls, with SelectApplicationCommand,
--     CommitTransactionCommand, the two commands on a file number (File), the two that create a data
--     file (DataFile), the three value commands (ValueMutationCommandUtils.h) and the three on
--     applications and the whole card (Application: CreateApplicationCommand,
--     DeleteApplicationCommand and FormatPiccCommand).
--   Desfire/Card: DesfireCard::executeCommand over any command, wire and IApduTransceiver. Its
--     theorem modules: OneFrame (commands of one answer), Bounded (commands of several rounds),
--     Selection, Framed, Untouched, Session and Files.
--   Desfire/FileIds: GetFileIdsCommand.cpp, with its search for the length of the MAC. Lengths
--     and Listing are about any answer; Chained and Runs are about an AES session with a card that
--     has the key.
--   Desfire/FreeMemory: FreeMemoryCommand.cpp; Runs is about a card outside a session.
--   Desfire/WriteData and Desfire/ReadData: WriteDataCommand.cpp and ReadDataCommand.cpp, with
--     Ciphering and Decoding for the enciphered chunks. Desfire/Memory is a card with a file, by
--     which Stores, Reads and RoundTrip measure them; Ends, Endless and Accepts are about any card,
--     a card that never ends an answer, and an enciphered chunk.
--   Reader: executeCommand over Pn532ApduAdapter, from a call down to the bytes on the bus.
--   Desfire/Authenticate: AuthenticateCommand.cpp. Keying has the options and sizes, Ciphering the
--     three cryptographic steps, Stages the command itself; Guarded and Runs are about any card,
--     AesCard is a card with the key, Passes and Mutual are about a run with it.
--   Tests, in each part: the theorems at concrete inputs.
--
-- Conventions. A number is a natural one, a uint8_t or size_t that can wrap has its modulus written
-- out. An out-parameter with a `bool` result is an Option. Both widths of a CMAC helper are one
-- definition with the block size as its argument. A loop is structural recursion on the list that
-- it reads or on the rounds that are left, a number the code has computed, so no fuel is needed.
-- The loop of rotateRight, whose index may wrap, is on fuel: one unit more than the bytes.
-- The loop of executeCommand is on fuel, since a command says when it is complete: two units are
-- enough for a command of one answer, three for an authentication and two more than its bytes for
-- WriteData, whatever the card does; a ReadData has no such bound. The
-- loop of waitForChip has a round for each poll interval, which is enough while a delay takes its
-- time. The calls of executeCommand are steps on a run: the command, the link to the card and the
-- context. Log lines have no model.
--
-- Not modelled. The block ciphers of cppDes and tiny-aes are submodules, so they are a parameter;
-- IsSized, IsBytewise, IsInverse and IsAesInverse name what is relied on: words stay below 2 ^ 64,
-- AES works in place and gives bytes for bytes, encryption undoes decryption and AES decryption
-- undoes encryption. The numbers of the standard library's generator are a parameter too. The serial port, timing and logging are system
-- calls. The commands that read and write records, that create record and value files, that manage
-- keys, or that ask for versions, settings and the list of applications, the card manager and the
-- driver's configuration calls have no model.
pub mod Base
pub mod Wire
pub mod Pn532
pub mod Crypto
pub mod Desfire
pub mod Reader
