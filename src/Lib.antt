-- ===== src/Lib.antt =====
-- libcody, the library with which a compiler (the client) and a module mapper (the server) talk.
--
-- The client writes request lines into its message buffer, sends them as one message, and reads a
-- message of response lines, one for each request. The server reads a message, calls its resolver
-- for each request line, and the resolver writes the response with the response functions of the
-- server. A message is lines of words; each line but the last ends in a space, a `;` and a newline.
--
-- Prelude: lists over the native numbers, Boolean tests, texts.
-- Status: errno values, and the `int` results of the code: 0, -1 or an errno value.
-- Number: std::to_string and strtoul of the standard libraries as far as the code uses them, and
--   ParseUnsigned of server.cc, with 32 bits for `unsigned` and 64 for `unsigned long`.
-- Buffer: MessageBuffer of cody.hh and buffer.cc. Buffer/Append has Append, AppendWord and
--   AppendInteger; Buffer/Lex has Lex, a state machine with one step for a byte; Buffer/Line has
--   LexedLine; Buffer/Transfer has Read and Write. Beside them stand the proofs: Words, Message and
--   RoundTrip on what is written and read back, Bare on words with no quotes, Bounds on the memory
--   of Append, NotAscii on other bytes, Newlines on what no line holds, Marks, Consume, LastLine
--   and Lines on single lines, Reading on whole messages.
-- Packet: Packet and the codes of cody.hh. Packet/Storage has a packet in memory, with the moves
--   of cody.hh and packet.cc, and Packet/Moves what they do to its value.
-- Server: Server of cody.hh and server.cc, its responses, and the virtual functions of Resolver
--   as a record. Server/Process has the request handlers, ProcessRequests and DirectProcess.
--   Server/Replies has the responses that README.md allows, Server/Answers is the contract of a
--   resolver, Server/Round and Server/Loop the proof about ProcessRequests, Server/Table about the
--   words of the requests. Server/Objects has the moves of a server and its transfers.
-- Resolver: the default resolver of resolver.cc on a POSIX system; Resolver/Contract shows that
--   it keeps the contract; Resolver/Names and Resolver/NoParent are about GetCMIName.
-- Response: the response table of client.cc; Response/Trip is about the responses of the server.
-- Client: Client of cody.hh and client.cc; Client/Requests has the request calls. Client/Objects
--   has a client in memory, with its union, its moves and its getters. Client/Receiving,
--   Client/Sending and Client/Message are about the loops over Read and Write, Client/Kinds and
--   Client/Queue (with Client/Communicate) about the packets that a call and Uncork may return
--   whatever the server does (Response/Kinds has the table of them), Client/Failing about a broken
--   connection, Client/Robust about any message of the server, Client/Lines, Client/RequestTrip and
--   Client/Invoke about the lines of the requests, and Client/Corked and Client/ErrorTrip about
--   Uncork and about the errors of the server.
-- Session: calls of a client, and the packets that the default resolver promises for them.
--   Session/Told has the packets of calls in any order, with the errors of the handshake;
--   Session/Quoted is about the lines that those errors quote, Session/Line about one line at the
--   server, and Session/InOrder about sessions with no such error. Session/Written has the lines of
--   the calls and of the answers, and Session/Readable is about reading them back; Session/Steps,
--   Session/Plain and Session/Greeting have what the resolver makes of a line, Session/Packets what
--   the client makes of an answer, and Session/Calls both for each call. Session/Joined is about
--   messages of lines, Session/Serving about the server on such a message, Session/Received about
--   the client; Session/Whole has the calls one by one, and Session/Batch those between Cork and
--   Uncork. Session/Pieces is about messages over descriptors. Session/Host has the main function
--   of tests/02-comms/server-1.cc, and Session/Remote the session of a client over descriptors with
--   it: Remote/Hosted is about the server, Remote/Exchange about one message there and back,
--   Remote/Whole and Remote/Batch about calls one by one and corked, and Remote/Relayed has a
--   system for every session.
-- Net: the state that netclient.cc and netserver.cc change, which is the open descriptors, the
--   lists of addresses and errno, and what the helpers share; Net/Client and Net/Server have the
--   helpers. Net/Outcome, Net/Sockets, Net/Inet6 and Net/Listen6 are about what the helpers leave
--   behind, Net/Reports about messages and errno, Net/Ports and Net/Paths about the addresses.
-- Fatal: the end of the program on an error of its own, and the note on the build, of fatal.cc
--   and internal.hh; Fatal/Source is about the file that is shown.
-- Tests: runs on small inputs.
--
-- A char is its value as an unsigned octet; where the code compares signed chars, bytes from 128 on
-- are those below 0. A buffer is the list of its bytes and lastBol. An operation that reads outside
-- the buffer or fails an assertion gives `none`. Functions that change an object take it and give it
-- back. A resolver is a handle and a record of functions, which are parameters, as strerror is. The
-- system calls of Read and Write are arguments: functions from what the call is given to its answer;
-- the capacity of the vector is given with each call of Read. The loops over them take the list of
-- the answers to come, and `none` is a loop that waits for another answer.
--
-- In Net the system is a record of functions from the state to the answer, so that two calls with the
-- same arguments may be answered differently; a call on a descriptor that is not open, or a list of
-- addresses freed twice, is `none`. The labels of the code are functions of what they read.
--
-- The loop of ProcessRequests runs on as much fuel as the buffer has bytes, which is enough, since
-- each round takes a newline at least. to_string has ten rounds, enough for 32 bits. The loop over
-- the dots of a header name has a round for each byte.
--
-- Not modelled: the branches for Windows and for a system with no fstatat, the size of memory, the
-- self-assignment of Client and Server, and the operators of Flags.
pub mod Prelude
pub mod Status
pub mod Number
pub mod Buffer
pub mod Packet
pub mod Server
pub mod Resolver
pub mod Response
pub mod Client
pub mod Net
pub mod Session
pub mod Fatal
pub mod Tests
