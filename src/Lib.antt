-- ===== src/Lib.antt =====
-- A model of signal2sip, the daemon that bridges Signal calls to a SIP server, and theorems on it.
--
-- The program. One process serves several Signal accounts. An authenticated socket receives the
-- envelopes of an account; its dispatch queue hands them to one worker thread, which decrypts
-- them through the protocol stores and passes call messages to RingRTC. RingRTC's audio runs over
-- a bridge of two ring buffers to a SIP call. Accounts, keys, sessions and contacts are in one
-- encrypted database; the configuration is an INI file for the process and a row of the database
-- for each account.
--
-- Which file models what.
--   Base: lists over native numbers, texts as byte lists, results, tables keyed by account and key.
--   Base64: util/Base64.cpp, base64Encode and base64Decode with its decode table.
--   Padding: signal/Padding.cpp, padMessageBody and stripPaddingMessageBody.
--   Voip.RingBuffer: voip/ring_buffer.h, push and pop as whole calls, on size_t arithmetic.
--   Voip.Spsc: the same file, with the loads and stores of the two threads interleaved.
--   Voip.Bridge: voip/audio_bridge.cpp and voip/ringrtc_sip_bridge.cpp, the callbacks of the two
--     ports, one tick of the feeder thread, and start, stop and destruction.
--   Storage: storage/Storage.cpp and storage/schema.sql. Records holds the tables; Accounts, Keys
--     and Contacts the methods on them; Isolation deleteAccount. A method takes the database and
--     the account that the connection is opened for, and returns a result and the new database.
--   Config: daemon/Config.cpp. Ini is the reader, Accept the checks on an account, Load the whole.
--   ContactResolver: daemon/ContactResolver.cpp, resolveOutgoingTarget.
--   ProtocolStores: signal/ProtocolStores.cpp, the callbacks that libsignal makes.
--   CallSignaling: daemon/CallSignaling.cpp, the device list cache, sends and replies; Messages is
--     what is sent and how it is received.
--   Dispatch: daemon/main.cpp, the class EnvelopeDispatchQueue, as a step relation.
--   Daemon: daemon/main.cpp; reloadConfig, and in Sync syncStorageContacts. Calls holds the
--     callbacks of SIP calls and of the registration, Calls.Flow onCallState and onIncomingCall;
--     what PJSIP calls back with during a wait is an argument. Watchdog is the loop of main on one
--     account: registration watchdog, socket watchdog, periodic sync; what a reload leaves
--     of the account is an argument. Push is onPush.
--     StorageService is daemon/StorageServiceSync.cpp, with ciphers and parsers as arguments.
--   Socket: signal/AuthSocket.cpp; connecting, interruption, requests, closing. Socket.Race is the
--     block that the waiting thread and the promise's completion share in doConnect, as a step
--     relation. The daemon's loop and gendb use it.
--   Gendb: gendb/ProvisioningClient.cpp (Encoding, Png) and gendb/main.cpp: Bootstrap is
--     bootstrapGlobalConfigIfNeeded, over Config; Commands the settings and account commands, over
--     Storage and Socket; Registration the guards and requests of register and
--     register-captcha; Args parseArgs and the choice of the command.
--
-- Numbers and time. A byte is a number below 256; size_t arithmetic is taken modulo 2 ^ 64 in the
-- ring buffer, and message lengths are far below that; database integers are natural numbers,
-- since they are only stored and compared, but for a version counter that stays far below 2 ^ 63.
-- Clocks are numbers given to each call. Loops are structural recursion on their input, but for
-- the blocks of the zlib stream, whose fuel is one more than the length of the data: each block
-- but the last takes data, and the reader is shown to get all of it back.
--
-- Parameters. The network, the JSON and protobuf libraries, libsignal's serialization and cipher,
-- the file system and the opening of a database are arguments of the definitions that use them;
-- a theorem that needs something of them has it as a hypothesis.
--
-- Not modelled. Input and output errors of the database, its migrations and its encryption; the
-- daemon's account setup, SIP endpoint, prekey and attribute refresh and audio probe; the
-- socket's keep-alive thread and proxy settings; what gendb's verify and link generate and save,
-- and its console QR code; the terminal interface; the memory orders of the ring buffer below
-- release and acquire, which are read as one order of all accesses.
pub mod Base
pub mod Base64
pub mod Padding
pub mod Voip
pub mod Storage
pub mod Config
pub mod ContactResolver
pub mod ProtocolStores
pub mod CallSignaling
pub mod Dispatch
pub mod Daemon
pub mod Socket
pub mod Gendb
