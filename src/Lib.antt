-- ===== src/Lib.antt =====
-- Million: an actor framework in C++. A `Million` object owns services; a service processes the
-- messages of its queue one after another, in coroutines that wait for replies under session ids.
-- Modules under module/ are services of their own, such as the cluster service, which carries
-- messages to services of other nodes.
--
-- Files of the core. Session (million/include/million/session_def.h) has the ids and the reply
-- flag, Snowflake (million/include/million/seata_snowflake.hpp) the generator of session and
-- service ids. Message and Task have what the scheduler sees of a message
-- (million/include/million/message.h) and of a coroutine (million/include/million/task.h).
-- TaskExecutor (million/src/task_executor.cpp) keeps the waiting coroutines of one service, and
-- ServiceCore (million/src/service_core.cpp) has its stages, its queue and `ProcessMsg`, and
-- ServiceCore/Separate the thread that a service may have of its own.
-- ServiceTable has the list of services and the maps of their ids and names, and RunQueue the
-- workers that share the services (million/src/service_mgr.cpp, million/src/worker.cpp) as
-- interleaved steps of any number of threads, EventMgr (million/src/event_mgr.cpp) the
-- subscriptions to message types, and ServiceLock (million/src/service_lock.cpp) the lock between
-- the coroutines of a service. ModuleCode (million/include/million/module_def.h) packs two ids into
-- a code, and ProtoCodec (million/src/proto_codec.cpp, million/include/million/proto_mgr.h) makes
-- packets of messages. WheelTimer (million/src/internal/wheel_timer.hpp) has the five wheels of the
-- timers; its children refine them to the rounds that each task has left. SessionMonitor
-- (million/src/session_monitor.cpp) keeps the timeouts of sessions in it, and
-- SessionMonitor/Ticks has the loop of its thread. HeapTimer
-- (million/src/internal/heap_timer.hpp) is the other timer, with a heap of tasks. TcpConnection
-- (million/src/net/tcp_connection.cpp) has the packets on a stream of bytes, and
-- TcpConnection/Sending the send queue and the coroutines that write it.
--
-- Files of the modules. Cluster (module/cluster/src/cluster_service.h) has the connections to other
-- nodes, the handshake and the messages that wait for it. Cluster/Packets has the parts in which its
-- packets are sent on a TcpConnection and how they are taken apart again, and Cluster/Forward what is
-- done with the notifications in them. DbRow (module/db/src/db_row.cpp) has the rows of tables with
-- the flags of their changed fields, and DbService (module/db/src/db_service.h) the rows that a node
-- caches, with the ticks that write them back; a handler that waits for the SQL service is two
-- functions, before and after the answer. SqlService (module/db/src/sql_service.h) has the texts of its
-- statements, the values that are bound to them, and those that are read from a row. ConfigTable
-- (module/config/include/million/config/config_table.h) has the tables of settings and the indices
-- over their fields, whose values are those of million/include/million/proto_field_any.h. Gateway
-- (module/gateway/src/gateway_service.h) has the sessions of users, whose packets a TcpConnection
-- carries and the ProtoCodec reads.
--
-- Prelude has the lemmas on tests, lists, maps and bits that the others share. Functions keep the
-- names of the source in snake case. State is passed explicitly; what a method asks of another
-- component is a list of effects. Integers of 64 and 32 bits are numbers, with their wrap-around
-- written out where the source computes; addresses, handles and endpoints are numbers too. The
-- build is one with NDEBUG, so `assert` has no effect, and the host is little-endian; log lines are
-- left out. Parameters are the handlers of services, every clock, which services are alive, what
-- they answer, the reads of the asio library, what the columns of the SQL database give back, and
-- protobuf, with the law that a message is parsed from what was written of it where a statement
-- needs it. `EventMgr.unsubscribe` takes fuel, since
-- its loop does not always end. The loops of TcpConnection take fuel that is enough: growing a buffer
-- takes no more rounds than bytes are needed, a body has no more chunks than bytes, and a stream no
-- more packets; so does the thread in ServiceCore/Separate, with a round for each message of the
-- queue. Every other function is total.
--
-- Not modelled: the threads of the timers, so that for ServiceCore a timeout is a message that comes
-- at any time; threads and the memory of services, where a service that RunQueue or
-- ServiceCore/Separate has deleted stays in the model; sockets and io threads beyond the bytes that they carry; the loading of modules and
-- settings; the SQL database and the Redis service; the files of the settings; the etcd, agent,
-- JavaScript and logger modules; C++'s memory and exceptions beyond the results written out.
pub mod Prelude
pub mod Session
pub mod Snowflake
pub mod Message
pub mod Task
pub mod TaskExecutor
pub mod ServiceCore
pub mod RunQueue
pub mod EventMgr
pub mod ServiceLock
pub mod ModuleCode
pub mod ProtoCodec
pub mod Cluster
pub mod DbRow
pub mod WheelTimer
pub mod ServiceTable
pub mod TcpConnection
pub mod DbService
pub mod ConfigTable
pub mod HeapTimer
pub mod Gateway
pub mod SqlService
pub mod SessionMonitor
