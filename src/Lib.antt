-- ===== src/Lib.antt =====
-- Models and proofs for the study programs under study-linux-kernel/: small C programs, each about
-- one part of the Linux interface, and a hash table that they share.
--
-- Parts and files. A path is given from the repository's root.
-- HashTable models study-linux-kernel/dll/common_hashtable_dll.c and .h: Hash has hash_func, Table
--   the node, the table, init, put and get, Iterator the cursor. Traversal.traverse
--   is the loop that the cursor is made for.
-- Chatroom models its client study-linux-kernel/socket/chatroom_server.c: Joining is about a
--   client that is known, Repeating about the loop that sends a message to each client. Registry is what
--   the server keeps true of its table and its sockets, Sending, Admitting and Serving how it keeps it.
-- ReadyList models the growing array of study-linux-kernel/io-model/terminal-io-epoll-et.c, and
--   EpollReader the two processes of that program, which use it.
-- FileIo models study-linux-kernel/file-io/copy.c.
-- Socket models servers of study-linux-kernel/socket/: StreamServer is socket_stream_base_server_v1.c,
--   ThreadServer socket-server-tcp-mt.c and ForkServer socket-server-tcp-mp.c, both over Worker, the
--   loop that serves one connection. ThreadServer.Race has the variable that the accepting loop and
--   the new threads share, with its schedules as a step relation, and ForkServer.Leak is about the
--   descriptors that the accepting process keeps. LocalServer is
--   socket_unixdomain_stream_server.c.
-- SelectServer models what study-linux-kernel/socket/socket-server-http-select.cpp and
--   socket-server-tcp-select.cpp share: the set of accepted descriptors, the accepting loop, and the
--   rounds of the thread that serves the set. Serving and Rounds have the rule by which what the
--   service of one descriptor keeps is kept by the thread. Broadcast is socket-server-tcp-select.cpp.
-- Http models socket-server-http-select.cpp: Text has strip and splitstr, Request the parser, Response
--   the answers, Server the two threads. Under Text, Trimming is about strip, and Windows, Quiet,
--   Pieces, Rejoining and Uncut are about the loop of splitstr; Request.Whole and Response.Messages
--   put the parts together. Tests.Stale runs both servers over select on replies by which a line or an
--   answer goes to the wrong connection.
-- Client models clients of study-linux-kernel/socket/: Select is socket-client-tcp-select.c, Tcp
--   socket-client-tcp.c, Chat chatroom_client.c, Stream socket_stream_base_client_v1.c and Local
--   socket_unixdomain_stream_client.c.
-- Datagram models datagram servers and clients of study-linux-kernel/socket/: EchoServer and EchoClient
--   are echo_dgram_server.c and echo_dgram_client.c, BaseServer and BaseClient
--   socket_dgram_base_server_v1.c and socket_dgram_base_client_v1.c, LocalServer and LocalClient
--   socket_unixdomain_dgram_server.c and socket_unixdomain_dgram_client.c, whose names are in Names and
--   Overlong. Returning and Asking are about what servers and clients send, Echoing about a client at its
--   server. SocketPair models socket_unixdomain_pair.c; Shouting puts its two processes together.
-- Pipe models study-linux-kernel/ipc-pipe/: Primer is pipe-primer.c, Sync multiprocess-sync.cpp, which
--   pipe-multiprocess-sync.cpp repeats, and Filter pipe-filter.cpp.
-- Fifo models fifo-common.h, fifo-client.cpp and fifo-server.cpp there: Answering is about a request at
--   the server and its response at the client, Leaving about the client's exits.
-- PosixQueue models study-linux-kernel/ipc-posix-queue/: Create is pmsg_create.cpp, Send pmsg_send.cpp, and
--   Calling is about how they end.
-- Terminal models study-linux-kernel/io-model/: Epoll is terminal-io-epoll.c, whose two processes
--   Epoll.Relaying puts together, Poll and Select are terminal-io-poll.c and terminal-io-select.c.
-- Inotify models study-linux-kernel/monitoring-files/: Buffer is the walk over the bytes of a read,
--   which both programs have, Watch is inotify.c and MatchDir monitoring_dir.c.
-- Base has the lists, the C strings and the faults, Sys the programs' view of kernel and libc.
--
-- How state is modelled. A data structure is a record, and a function that writes through a pointer
-- returns the changed record. What C leaves undefined is a fault (Base.Run): a copy past the end of
-- an array, a use of NULL, an index that was not allocated, a read of memory that was never written.
-- malloc is an argument that says whether there is memory.
-- A program is a function of a world: the replies that the environment has ready, the events so far
-- and errno. The kernel, libc and the scheduler are no part of the repository; they stand in the
-- model as the list of replies, over which the theorems quantify. A call takes the next reply and is
-- recorded with it; where there is no reply the process waits in that call, so what a theorem says
-- of waiting processes it says of every call that a run reaches. A process that a signal
-- kills in a call, such as an unhandled SIGPIPE in send, is one that waits there. One convention of the kernel is
-- built in: a reading call stores as many bytes as it returns, and at most as many as it was given
-- room for. fprintf and printf are recorded with their format and arguments, and what they format is
-- not modelled. Where %s is given an array that was received into, its text is the C string in it, and
-- an array with no NUL is a fault. The texts that the HTTP server
-- formats are modelled. atoi and what getopt finds are parameters, and so are libc's ways between an address and its text,
-- the decimal text of a number, and the files that the HTTP server finds. Where a set is shared by
-- two threads, each is a run of its own, and the descriptors that the other thread inserts or erases
-- come with the reply of a lock, or of the sleep over an empty set; the unlocked reads of the set
-- before select see what was there then, and the size that is read behind it comes with the reply of
-- read. fork answers 0 in the child, so each branch is followed as
-- a run of its own. Where two processes talk to each other, a theorem is about a run of each, and has as
-- its hypothesis what a socket or a pipe promises: that the one receives what the other has sent
-- (Sys.Exchange says what was sent, received and shown). Sys.Discipline has rules on calls, which the
-- call that a process waits in keeps too; execlp is such a call where it succeeds. The time of day, its
-- text and what an array holds before it is written are parameters.
--
-- Bounds and fuel. The indices of strip are int: its theorem is about texts of less than 2^31 bytes.
-- The size_t arithmetic of splitstr is modulo 2^64, and its theorems are about shorter texts.
-- hash_func computes modulo 2^32 as unsigned int does. int fields and counters that grow by one are
-- unbounded numbers. A while or for (;;) loop of a program takes fuel; each round takes a reply, so
-- fuel above the number of replies is enough (Sys.Loops.loop-Ends), and the theorems have that as
-- their hypothesis and exclude that the fuel runs out. The loop over the cursor needs one round more
-- than there are entries, the walk over a buffer of events one round more than there are bytes, and
-- the loop over the ready list one round more than its size. The chat server has at most 100 clients
-- and no more entries than clients, so fuel above 100 is enough for its loop over the table.
--
-- memcpy of no bytes from NULL and of an array onto itself are taken to do nothing, and toupper to
-- leave the bytes from 128 on as they are. SIGPIPE is modelled where a client handles it: the handler
-- runs where the call answers EPIPE, and the SIGABRT that ends the process is status 134.
--
-- Not modelled: the programs that PROJECT.json lists so, other signal handlers, free, and the freeing of
-- memory at the end of a process.
pub mod Base
pub mod Sys
pub mod HashTable
pub mod ReadyList
pub mod FileIo
pub mod Socket
pub mod SelectServer
pub mod Broadcast
pub mod Http
pub mod EpollReader
pub mod Chatroom
pub mod Client
pub mod Datagram
pub mod SocketPair
pub mod Pipe
pub mod Fifo
pub mod PosixQueue
pub mod Terminal
pub mod Inotify
pub mod Tests
