-- ===== src/Lib.antt =====
-- MEFSC, an encrypted file store: a client encrypts files under a password and keeps them on a server,
-- over a connection whose messages are encrypted once more under session keys.
--
-- The parts of the program and the modules that model them:
--   Wire      src/encryption_utils/SessionEnc.cpp (`recv_fully`) and
--             src/encryption_utils/encryption_utils.cpp (`send_raw_blob`, `recv_raw_blob`): bytes on a
--             socket. Everything else is sent and received through them.
--   Session   src/encryption_utils/SessionEnc.cpp and `encrypt_stream_buffer`: the class
--             `SessionEncWrapper`. `wrap` and `read_wrapper` are its two constructors, `unwrap` and
--             `send_all` its methods; Session/Parts has the methods that send a message piece by piece,
--             which nothing calls.
--   Keys      src/encryption_utils/encryption_utils.cpp: `server_crypt_gen` and `client_crypt_gen`, by
--             which the two ends of a connection get their session keys.
--   Slots     include/common/TwoSlotBuffer.h: the buffer between the thread that receives a file and the
--             thread that writes it. Each method is one function; Slots/Threads has the two threads, as
--             the handlers start them, as steps that interleave in any order, with threads that sleep on
--             the condition variables until they are woken.
--   Server    src/server/read_write_handlers.cpp: the class `FS_Operator`. Server/Upload has `init_read`
--             and `WTFS_Handler__Server`, Server/Download `RFFS_Handler__Server`, Server/Listing
--             `LFFS_Handler__Server` and `DFFS_Handler__Server`.
--             Server/Login has `login` of src/server/auth.cpp and `verify_credentials` of
--             src/server/server.cpp, Server/Connection `handle_conn`, which calls all of these, and
--             Server/Startup the start of `main`, and
--             Server/Pool the threads of `main` and `worker`, the signal handler and `kill_server`, as
--             steps that interleave in any order over the variables that they share.
--   Client    src/client/authed_entry.cpp and the handlers of src/client/client.cpp: Client/Upload has
--             `Sender_Agent`, Client/Download `Receiver_Agent` and `RFFS_Handler`, Client/Listing
--             `LFFS_Handler` and `DFFS_Handler`, and Client/Program `send_credentials`, `authed_comms` and
--             what `main` does over its connection. Client/Startup has the start of
--             `main`, and Client/Input `get_stuff`.
--   Store     what the server promises, without a word about bytes: a store of sealed files by name, its
--             requests and replies, and what a request may do. Store/Wire has how requests and replies go
--             over a connection, Store/Folder what is used of a file system, one directory with plain
--             files. Server/Connection/Performs, Server/Connection/Refines and Server/Connection/Whole
--             relate the branches of `handle_conn`, its loop and the whole of it to the store.
--             For the client, Client/Program/Requests has which turns of the user stand for which requests
--             and which replies suit them; Client/Program/Turns, Client/Program/Handlers
--             and Client/Program/Replied relate one turn to them, Client/Program/Sessions the loop, and
--             Client/Program/Whole the whole client.
--   Transfer  the format of a file on the wire, which relates what one side sends to what the other side
--             takes in: `Announcement`, `Chunks` and `Messages`.
--   RoundTrip the two sides together: RoundTrip/Upload a whole upload, RoundTrip/File an upload and a
--             download, RoundTrip/Listing a listing, the loops alone, and RoundTrip/Connection the whole
--             client with the whole of `handle_conn`.
--   Constants include/common/constants.h; CText the C strings that file names are.
--   Common    shared names and lemmas; Outcome how a C++ function runs: it goes on, returns early, or
--             ends in a fault (it does not return, an exception ends the program, behaviour is
--             undefined).
--   Platform  what the program calls and does not contain: the socket, libsodium, the file system
--             and sqlite (Platform/Database) are parameters. Platform/Laws states, as hypotheses, what the
--             theorems use of their documented behaviour; Platform/Toy keeps these laws and is what the
--             examples run on.
--
-- State: a `World` is the connection, `errno`, the disk and the random source of one process. The
-- objects are the records `Operator`, `CommsAgent` and `SenderAgent`; a nonce that a function counts up
-- in place is passed in and answered. An uninitialised variable has the value that the record `Stale`
-- or an argument gives it.
--
-- Bounds: bytes are natural numbers, and an `int` is its pattern of 32 bits. The length of a ciphertext
-- is subtracted modulo 2 ^ 64 as in `unwrap`. `fuel` bounds the calls of `recv` in one `recv_fully`;
-- `stream_chunk_size + 16` calls and one for each signal still to come are enough, since a call that a
-- signal does not interrupt delivers a byte at least. `rounds` bounds the rounds of a loop over chunks:
-- as many as there are chunks are enough, and n rounds for a file of fewer than n * `chunk_size` bytes.
-- `actions` bounds the actions of one connection; more than there are requests are enough. The fuel of
-- `get_stuff` bounds the values that it tries to read; more than the length of the input is enough.
--
-- Not modelled: the time limits of a connection, menus and logs, the program under prehistoric, which
-- is not built, wiping memory, and two connections that use one directory at the same time: the disk is
-- that of one connection. A handler writes the file in one step, when its writing thread has
-- ended; Slots shows what that thread has written by then.
pub mod Common
pub mod Constants
pub mod Outcome
pub mod Platform
pub mod Wire
pub mod Keys
pub mod Session
pub mod CText
pub mod Transfer
pub mod Store
pub mod Slots
pub mod Server
pub mod Client
pub mod RoundTrip
