-- ===== src/Lib.antt =====
-- libnitrokey: a verification library of the C++ library that talks to Nitrokey Pro, Nitrokey
-- Storage and Librem Key devices.
--
-- The program's parts, from the bottom up, and the files that model them:
--
-- - misc.cc and libnitrokey/misc.h: the checksum of the STM32 (`_crc32`, `stm_crc32`), hex text
--   (`hex_string_to_byte`, `hexdump`) and copies into fixed fields (`strcpyT`) are in Misc, with
--   the small text functions of NitrokeyManager.cc. A buffer is a list of bytes; 32-bit words
--   wrap around as `% 2 ^ 32`. Misc/Stream holds the string streams of the standard library, as
--   the list of what is put into them.
-- - libnitrokey/LibraryException.h, CommandFailedException.h, LongOperationInProgressException.h
--   and DeviceCommunicationExceptions.h: Exceptions holds one constructor for each class, and the
--   monad of calls that may throw. A throw keeps the state that was reached. Exceptions/Messages
--   holds the messages, and Exceptions/Reasons the reasons of a failed command.
-- - device.cc and libnitrokey/device.h: Device/Model and Device/State hold the fields of `Device`
--   and its constructors, Device/Link `_connect`, `_disconnect`, `_reconnect`, `send` and `recv`,
--   Device/Enumeration `enumerate`, and Device/Texts the texts for the log. Device/Heap holds the
--   objects behind shared pointers, each at an address. hidapi is outside the repository: it is
--   the record `Hid` of Device/Hid, a parameter with its own state of the world, and every
--   theorem holds for all its behaviours.
-- - libnitrokey/device_proto.h and dissect.h: Proto/Packet holds the two packets of 65 bytes,
--   Proto/Transaction `Transaction::run`, with its two loops, the translation of the status of a
--   Storage, and the tests behind the loops, Proto/Queries the packets of the commands, and
--   Proto/Dissect `QueryDissector` and `ResponseDissector`. Device/Link/Asked puts a count of the
--   calls of `hid_get_feature_report` beside the world of any hidapi.
-- - libnitrokey/command_id.h, command.h, stick10_commands.h, stick10_commands_0.8.h and
--   stick20_commands.h: Commands holds the identifiers, the payload of every command that is
--   sent, as data and as packed bytes (Commands/Stick10/Payloads and its like), and in
--   Commands/Responses the response payloads that callers get. Commands/Dissect holds the macros
--   of command.h and the `dissect` methods of the payloads, Commands/Names `commandid_to_string`
--   of command_id.cc.
-- - NitrokeyManager.cc: Manager holds the operations. They use the layers below through the
--   record `Link` of Manager/Interface (is a device connected, of which model, run a command),
--   which Manager/Connection fills by `Transaction::run` on the manager's device.
--   Manager/Authorization/Log wraps any link into one that records the commands it is given.
--   Manager/Texts holds the calls that return the text of a response.
-- - NitrokeyManager.cc, libnitrokey/NitrokeyManager.h: Manager/State holds the members of the
--   manager with its pointers, the count of references being what `device`, the map and the local
--   variables hold; an assignment destroys what nothing holds any more. Manager/Connecting and
--   Manager/ById are the calls that connect, list and disconnect devices, and Manager/Ownership
--   all of them in any order.
-- - NK_C_API.cc, NK_C_API.h: CApi holds the templates that catch exceptions and turn them into
--   status numbers, the functions that are made of them, and the structs that they fill. What is
--   written to a caller's struct is returned beside the number.
-- - log.cc, libnitrokey/log.h: Log holds the levels, the prefix and the choice of what is
--   printed, Log/Functions the handlers that call a function of the client and the calls that set
--   one.
--
-- Loops. The receiving loop of `run` has no fuel: it recurses on the retry counter and on the ten
-- "busy" answers that cost no retry. `send` recurses on its three attempts, `recv` on the
-- device's count of retries, `hex_string_to_byte` and `hexdump` on their bytes. Sending a secret
-- in reports recurses on a fuel that starts at the size of the secret, and each round takes a
-- byte or more. Printing a number has room for twenty digits, enough for 64 bits. Counters of
-- errors and the count of device objects are taken as unbounded.
--
-- The build. Texts are those of the default build, with the log and without LOG_VOLATILE_DATA.
--
-- Not modelled: where log messages are sent from, the classes of commands that nothing sends,
-- `isValid` of the payloads, which nothing calls, the messages that the place of a throw gives,
-- clearing and freeing of memory, a shortage of memory, what lies in memory behind the payload of
-- an answer when a name in it fills its field and nothing ends it (`strndup` reads on), and the
-- version. The map `connected_devices` of the manager stays empty, since its cache is switched
-- off. `std::stoull` and the conversion of wide strings are parameters. Mutexes make each call on
-- the device atomic, so that no interleaving is modelled. A Boolean member of a packed payload is
-- a bit of the byte it stands in.
pub mod Prelude
pub mod Misc
pub mod Exceptions
pub mod Log
pub mod Device
pub mod Proto
pub mod Commands
pub mod Manager
pub mod CApi
mod Tests
