-- ===== src/Lib.antt =====
-- A verification library for Leyni, a Bitwarden client for Sailfish OS.
--
-- The crypto core (src/crypto) is a set of functions from bytes to bytes that throw `CryptoError`.
-- A byte string is a list of natural numbers; `IsBytes` says that they are below 256. A function
-- that may throw returns `Result`, whose error carries the text of the exception.
--
--   Prelude     names of the libraries, lists, tests, errors, decimal text, search in a text
--   Crypto      src/crypto: Base64, SecureBytes (comparison), EncString (text form), Kdf, Keys,
--               Cipher (encrypt-then-MAC), PinWrap, Totp,
--               PasswordGen
--   Crypto.Primitives
--               what libcrypto and libargon2 compute, as a parameter; `HmacLaws` and `AesLaws` are
--               the documented behaviour that a round trip needs
--   Vault       src/vault: Json (values as Qt holds them), Items (cipheritem.h), SyncParser, Maps,
--               State (the members of the vault, lock, timer), OtpUri (parseTotpSecret), Access (keys
--               and secrets on demand), Display (rebuildDisplayData), Session (loadSync, unlock,
--               unlockWithMasterKey, verifyMasterKey, reloadSync), Write (buildCreateBody,
--               buildUpdateBody; Edits, Steps and Survives are about the keys of the object that an edit
--               sends), ListModel (vaultmodel.cpp), Stores (pinstore.cpp, syncstore.cpp)
--   Vault.Qt    what the program takes from Qt, as a parameter
--   Api         src/api: Types, Requests and Responses (apijson.cpp), ServerConfig, Client
--               (apiclient.cpp), and Sound, where an outcome fits its reply. A request is a value; what
--               runs on its reply takes a `Reply` and makes an `Outcome`
--   Ui          src/ui/appcontroller.cpp: State (its members), Account (pages, settings, lock, sign
--               out), Session (sign in, unlock, sync), Login, Pin, Writes, Items, and Controller,
--               whose `step` is one event. Jobs, Callbacks, Waiting, Liveness and Reachable are about
--               what it waits for; Safety, SafeSteps, SafeReplies, Invariant, Guarantees and Locking
--               about what it keeps
--   Tests       runs at concrete inputs, and the theorems below at inputs that meet their hypotheses
--
-- The vault keeps the encrypted sync in `sync_data`. To unlock, it stretches the master key
-- (Crypto.Keys), decrypts the protected user key (Crypto.Cipher over Crypto.EncString) and with it
-- the display data; a reader finds the item, takes the key of the item, of its organization or of the
-- user, and decrypts one text. A call takes the vault and gives the vault it leaves and an `Answer`,
-- whose `failure` is the error message. `Step` is one call or a timeout of the timer, `Reachable`
-- what steps lead to from a new vault.
--
-- The list model changes its rows one by one; each change is a `RowChange` that the view gets, and
-- `replay` is the view. The controller is a machine: an event is a call from QML, the reply to any of
-- the requests that wait, the end of a worker, or a timeout. A callback is a value (`Call`,
-- `DeriveNext`, `PinRun`) that the event runs. `World` is what the event takes from outside: answers of
-- the disk, random bytes, the time. `with_vault` changes the vault and runs the slots that its signals
-- are connected to, those of the list model and of the controller. The end of a worker and the
-- delivery of its signal are one event. To read a null pointer sets `crashed`, and no step follows.
-- The type of an item that QML creates is one of the four of `CipherType`.
--
-- A loop over a text is a recursion on the list of its bytes. Loops that count take the number of
-- rounds: eight for the counter of a code, `digits` for its padding, twenty for the decimal print of
-- a 64-bit number. Machine words wrap where the source computes in `uint32_t` or `uint64_t`, and so do
-- the `int` products of the timers (Vault.Int) and the `int` sum of Crypto.PasswordGen; Qt starts no
-- timer with a negative interval.
--
-- Not modelled: QML and main.cpp; the options of the password generator and the list of
-- folders as QML gets them; how Qt sends a request; the permissions of the PIN file; memory locking and
-- zeroing, which change no byte that the code reads; sizes above 2^31, which the source casts to
-- `int`.
pub mod Prelude
pub mod Crypto
pub mod Vault
pub mod Api
pub mod Ui
pub mod Tests
