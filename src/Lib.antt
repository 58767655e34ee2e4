-- ===== src/Lib.antt =====
-- The programs of this repository, modelled and proved: the DNS client, the epoll server with its
-- thread pool and the coroutine scheduler in 2.3.1-coroutine, the KCP echo server and the chat room
-- in 2.2.3-udp-kcp-quic, the load-test clients in test7 to test9, the address book in test2, the web
-- server and the TCP servers in test8, the thread pool in test3, the connection pool in test4, the
-- blocking DNS client in test5, and the word count in test1.
--
-- The parts:
--   Base: the shared names. Base/Memory has C memory as lists of bytes: an access outside a block is
--   the result `fault` of the type Run (Base/Outcome), a loop that runs out of its passes is
--   `out_of_fuel`. Base/Int has integers over the native numbers.
--   Dns: 2.3.1-coroutine/async_dns_client_noblock.c. Request has dns_create_header,
--   dns_create_question and dns_build_request, Name has dns_parse_name, Response has
--   dns_parse_response. Tokens says what strtok makes of a host name. Question and Layout are about
--   the request, Decode about names, Answers about responses, RoundTrip about a name that is built
--   and read back, and Limits about what goes wrong at the edges. Decode and Answers describe names
--   and packets as they stand in memory, by data types (NameAt, Questions, AnswersAt).
--   Pool: the thread pool of 2.3.1-coroutine/server_mulport_epoll.c. Links has the macros LL_ADD and
--   LL_REMOVE over a heap of pointers, Chain what they do to a list. Workers has worker_function,
--   workqueue_add_job and workqueue_shutdown as turns of threads, the relation Step of all turns and
--   Reach of their runs; a signal wakes a worker that waits, and a wait may end for no reason. Safety
--   has what holds in every run, Progress what the signal is for. Init has workqueue_init and
--   threadpool_init. Workers keeps the queue as a list: what Chain says of additions in front and
--   removals of the head is what makes that the right view.
--   Io: the socket loops of the same file. Recv has nRecv, Send has nSend, Echo has client_cb and
--   epoll_et_loop. The system is the list of what its calls answer; a list that ends before the loop
--   does gives no result, so that a theorem that has a result says that the loop ends.
--   RecvResult, RecvClose and SendResult are about them.
--   Server: main and its handlers in the same file. State has the variables, Handler has
--   client_data_process and client_job on top of nRecv and nSend, Loop the opening of the ports and
--   the turns: the event loop handles a ready descriptor, or a queued job is run. Accounts and Replies
--   are about them. Client data goes to the pool as a job that is named by its descriptor. A job's turn
--   is whole; Race has a job's `curfds --` in two halves, with the loop's turns between them.
--   Dns.Client has dns_async_client_init, dns_async_client_commit and what dns_async_client_proc does
--   with one ready socket, as steps on the sockets that they share; Sockets and Freed are about them.
--   Coroutine: 2.3.1-coroutine/ucontext-backup.c. Schedule has the three functions and the scheduler,
--   with the bound 30 as a parameter, RoundRobin what they do.
--   Kcp: 2.2.3-udp-kcp-quic/server.c. Library is the interface of the kcp library and the laws that
--   the server relies on, Serve its loop, Echo what it answers, Clock its clock and sleep.
--   Chat: the chat room of the same directory. Library is the interface of the kcp library and the laws
--   of its queues, Session is KcpSession (kcp_session.cc), Server is KcpServer with the methods of
--   ChatServer (kcp_server.cc, chat_server.cc), Client is KcpClient with those of ChatClient
--   (kcp_client.cc, chat_client.cc). A session is named by a number, which stands for the pointer that
--   the table and the set of users share, and `memory` holds the objects. Each turn of the thread that
--   updates and of the one that receives is one step, since a lock keeps them apart. Sending and
--   Receive say what sending a line and reading a message do; Room, Walk, Turns, Ends and Serve are
--   about the room in every run, Lines, Broadcast and Datagram about messages, Join about a client that
--   comes, Timeouts and Farewell about clients that go, Oversized about a message that is too long; Cut
--   and Showing are about the client. The loop that reads messages takes a pass for each that waits and
--   one more. Small is a small library that keeps to the laws, for the examples.
--   Load: test7/mul_port_client_epoll.c, to which test8/mul_port_client_epoll.c is equal, and the
--   variant test9/mul_port_client_epoll.c. Client has the loop of main, over a record of what differs,
--   Connections what its counter and ports keep to.
--   Tcp: 2.2.3-udp-kcp-quic/tcp-udp-rtt/tcp-rtt/rtt_server.c, its set-up and one turn of its loop.
--   Contacts: test2/contacts.cpp. Persons and Nodes have the data and the doubly linked list, Files
--   saving and loading, Entries the entries of the menu, Menu the menu itself, a list of commands over
--   the book and the disk. Chain says what a list in the store is, Book what an address book is,
--   Unlink, Without and Delete what a removal does, Saving and Loading what a file has and gives,
--   Storage what the entries make of that, Backup a save and a load. Catalogue has the steps of
--   commands on lists of persons, Refinement relates the program to them. `new` hands out addresses in
--   turn, and never one twice; a loop over the list has a pass for each node that was ever made, and
--   one more, which is enough on a book.
--   Web: test8/reactor.cpp, webserver.cpp and webserver.h. Connection has the connection, Response
--   http_request and http_response, Reactor the callbacks and the event loop. A Peer is a connection
--   with what epoll watches and the bytes that have been sent since the last request. Phases says how
--   far a response has come, Filling and Readiness what http_response does there, Writing and Turns
--   what write_callback does, Serving and Requests whole responses, Reuse a descriptor that is
--   accepted again.
--   Tasks: test3/threadpool.h. Pool has the moves of the workers, submit and stop as steps: a task is
--   taken with the mutex and begun without it. Carried counts the tasks taken and not begun, Safety has
--   what holds in every run, Stop what the end of the pool leaves.
--   Sql: test4/connectionpool.h. Pool has the methods and their runs, Handles what becomes of the
--   connections.
--   Query: test5/dnstest.cpp. Message has the request, Answers print_dns_a_records, Client dns_commit.
--   Names is about names and requests, Printed and Response about responses, Bounds about the reads.
--   Demux: test8/tcpserver.cpp. Epoll has epollio and client_task, and what becomes of their sockets,
--   Poll has pollio, Leaving what it does when a client leaves.
--   Words: test1/count_word.cpp, over what fread gives.
--
-- Bounds: dns_parse_name and the loop over a question's name take a number of passes; a theorem says
-- how many are enough, the labels and pointers of the name and one more, or the bytes left and one
-- more. An `unsigned short` in memory is two bytes, the low one first, and htons swaps them; numbers
-- are reduced modulo the width where the code stores them in one.
--
-- Not modelled: printing; the directory in which test2 keeps its files; what the memory allocator,
-- random, inet_ntop and the system calls do, which are arguments of the definitions or answers in
-- lists; the copy of the kcp library under 2.2.3-udp-kcp-quic and udp_socket.cc beside it; selectio and
-- oneoneio of test8/tcpserver.cpp; and the programs of test3 to test9 that are not named above.
pub mod Base
pub mod Dns
pub mod Pool
pub mod Io
pub mod Server
pub mod Coroutine
pub mod Kcp
pub mod Chat
pub mod Load
pub mod Contacts
pub mod Web
pub mod Tasks
pub mod Sql
pub mod Query
pub mod Demux
pub mod Words
pub mod Tcp
