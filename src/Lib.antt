-- ===== src/Lib.antt =====
-- EdgeCompute: NatProbe, which finds the type of the NAT that a machine is behind, PunchHole, which
-- connects two peers behind NATs through a server, over UDP and over TCP, and EdgeFS, a file store.
--
-- NatProbe. The server (NatProbe/nat_probe_server.c) opens two ports on each of its addresses and
-- answers a request by the socket that the request's network type asks for. The client
-- (NatProbe/nat_probe_client.c) sends requests with retries, makes five tests in turn, and records
-- the type that the first successful test names. Both use NatProbe/nat_probe.c for the addresses of
-- the server's domain.
--   NatProbe.Types    NatProbe/nat_probe.h, and get_string_network_type of NatProbe/nat_probe.c
--   NatProbe.Dns      np_get_server_ip
--   NatProbe.Server   the table of sockets, recv_msg, process, send_msg, read_callback and main; its
--                     children prove the two loops (Table, Open), destroy_socket (Close), the table
--                     as a whole (Layout) and the socket of a reply (Reply)
--   NatProbe.Client   the exchange, the five tests, np_network_type_probe and main; its children prove
--                     the loops (Loops), the exchange (Exchange) and the tests (Probe)
--
-- PunchHole. Devices ping the server, which keeps a list of them, newest first. A query makes the
-- server send the queried device a PUNCH_HOLE with the address of the device that asks, and the
-- device that asks the queried device's address.
--   PunchHole.Wire      the messages of p2p_transfer.h as bytes, with the padding of the structs; Abi
--                       is about their layout
--   PunchHole.Common    the macros of p2p_transfer.h, and p2p_transfer.c
--   PunchHole.Registry  the list of devices and the loop over it; Lookup proves what it finds
--   PunchHole.Udp       Server and Peer are PunchHole/p2p_transfer_udp/p2p_transfer_server/
--                       p2p_transfer_server.c and PunchHole/p2p_transfer_udp/p2p_transfer_peer/
--                       p2p_transfer_peer.c; Rendezvous runs both against each other's bytes
--   PunchHole.Tcp       Server and Peer are the same two files under PunchHole/p2p_transfer_tcp; the
--                       server's Query and Connection are about its queries, the peer's Retries and
--                       Joining about its descriptors
--
-- Log is PunchHole/p2p_transfer_udp/p2p_transfer_server/log.c, of which every program has a copy.
--
-- EdgeFS. The disk is cut into chunks. An index file that is mapped into memory holds a head, a bitmap
-- of the taken chunks and an entry for every chunk. The digest of a file name chooses a chunk, where a
-- chain of entries starts; it holds the chunks of all files with that hash key, each with the file's
-- digest, the room left in the chunk and the next chunk of the chain.
--   EdgeFs.Format  EdgeFS/src/EdgeFSProtocol.h, EdgeFS/src/EdgeFSConst.h, and the macros and helpers of
--                  EdgeFS/src/common that the code uses
--   EdgeFs.Bitmap  EdgeFS/src/Bitmap.cpp; its children are about the bits (Bits), the two searches
--                  (Search), the choice of idle chunks (Choice) and its first chunk (Begins)
--   EdgeFs.Init    initFS of EdgeFS/src/EdgeFS.cpp, with EdgeFS/src/DataMgr.cpp and
--                  EdgeFS/src/IndexMgr.cpp; Sizes is about the sizes and the two index files
--   EdgeFs.File    EdgeFS/src/common/FileOper.cpp, over lseek, read and write
--   EdgeFs.Chain   the walks along a chain and calcWriteVariable; Linked is a chain as the list of its
--                  chunks, and Walks is about the walks on it
--   EdgeFs.Disk    lseek, write and read of a disk that keeps what is written, as an interface
--   EdgeFs.Contents  the bytes that the chunks of a chain hold of a file
--   EdgeFs.Write   EdgeFS::write; its children are about the lengths (Plan), the new chunks (Fill), what
--                  a read then notes (Noted, First, Append), the links (Links), the body (Correct), the
--                  chunks that it takes (Keeps, Takes), the bytes (Data, Holds, Refines, Appended), and
--                  the operation as a whole: on a chain (Appends, Whole) and for an unused hash key
--                  (Creates)
--   EdgeFs.Read    EdgeFS::read; its children are about the places that it reads (Addresses), the chunks
--                  of a file (Packed), the reads one after the other (Pieces), the operation as a whole
--                  (Whole), what a write leaves for it (Packs, Grows), what the walks find (Finds) and a read
--                  behind a write (Back)
--   EdgeFs.Logging  EdgeFS/src/common/AsyncLogging.cpp: the states of the log thread and of the thread
--                  that stops it, the queue, and the steps of the threads as events; Order is about the
--                  lines, Bounds about the queue, Stop about the end
--   EdgeFs.MediaLog  EdgeFS/src/common/logger.cpp
--
-- The system. Sys has the calls of the operating system and of libevent. A run carries the history of
-- its calls, newest first; an Env answers each call from the history so far, so an answer may depend
-- on all that went before. A run ends with a value, in a failed assertion, in an access out of bounds
-- or of a freed connection, or out of fuel. Sys.Returns has the runs that end with a value, and the
-- rules to put them together. Clib has the functions of cJSON and of the C library that format and
-- parse NatProbe's messages; cJSON is a copy of another project's library and is not modelled. Base
-- has the shared names, tests, lists and integers; Tests has concrete systems.
--
-- Bounds and fuel. The only loops without a bound of their own are those that make an interrupted call
-- again, and the walks along a chain of EdgeFS. Both run on fuel: Settles says that signals interrupt
-- fewer calls in a row than that, and the walks have fuel for the chunks of the chain. The events of
-- a dispatcher are a list of callbacks, and the threads of the log are a list of events, in any order
-- in which each can happen. Numbers are unbounded where the source only stores
-- or copies them; the widths of the messages' fields are hypotheses of the round trips, and a
-- conversion to an unsigned type is written out.
--
-- Not modelled: SHA-1, a copy of another project's code, whose digest is an argument; the random numbers
-- of the search for idle chunks, which are a function; the text and the time of log lines, which are
-- arguments; EdgeFS/src/common/StrStream.cpp, which is not part of the build; the events, timers and
-- signal handlers of libevent beyond the order of callbacks; the interleaving of the TCP peer's thread with
-- its callbacks; an index file of EdgeFS that is there and shorter than its head. The layout of messages is that of a 64-bit little-endian machine.
pub mod Base
pub mod Sys
pub mod Clib
pub mod Log
pub mod NatProbe
pub mod PunchHole
pub mod EdgeFs
pub mod Tests
