-- ===== src/Lib.antt =====
-- protobase, a small network library in C++ that follows the reactor pattern (src/base, src/codecs,
-- src/net).
--
-- Common holds the shared names, Boolean tests, lists over native numbers, and size_t arithmetic with
-- its wrap-around. Memory is the C++ heap as far as src/base/Buffer.cpp uses it: blocks and reference
-- counts by address, where an access to memory that is not live is a fault (none).
--
-- Buffer is src/base/Buffer.h and src/base/Buffer.cpp: Buffer the object, its constructors, moves and
-- destructor; Buffer/Space makeSpace, makeOwnBuffer, ensureWriteableBytes and the appends; Buffer/Read
-- the peeks and reads; Buffer/Slice slice, slicePacket and readBuffer; Buffer/Fd readFd and writeFd,
-- where what the kernel does is an argument. Buffer/Valid states the invariant (Holds) and the readable
-- bytes (content); the other children prove. Decoder is src/codecs/LengthFieldBasedFrameDecoder.cpp:
-- Decoder/Frames is one call of decode; Decoder/Stream a buffer that readFd fills and decode empties, with
-- the description that Stream/Refine compares it with, Stream/Messages streams of messages, and
-- Stream/Delivery what becomes of them. Transfer joins a sending Connection with such a receiver.
--
-- TimerWheel is src/net/TimerWheel.h and src/net/TimerWheel.cpp: TimerWheel/Slots the counts of nodes
-- in slots, Release what a slot's destructor does, Step one tick, Schedule runs of ticks and new timers,
-- Faults the timers that the wheel does not serve. The destructors that call each other take fuel, and
-- two steps are enough where every task runs once.
--
-- Channel is src/net/Channel.h and src/net/Channel.cpp; Poller is src/net/EpollPoller.cpp, src/net/Poller.cpp
-- and the methods of a channel that reach the poller through the loop; Poller/Interest compares a
-- channel's status with the set that its calls of epoll_ctl leave in the kernel. Connection is
-- src/net/Connection.cpp, a channel with an input and an output: Connection/Send and Connection/Handlers
-- are its operations, Connection/Queue what a send and a write
-- keep of the bytes, Order the bytes over runs of sends and writes, Loss a failed write, Watermark the
-- high-water mark, States closed connections, Progress the order of the states, Shutdown and Events
-- what shutdown and a hang-up do. A Connection keeps its buffers by their readable bytes;
-- Connection/Detailed has the methods with the two buffers of src/base/Buffer.cpp, and its children prove that
-- they do the same: Kept what a method of Buffer does to the bytes, Refine a send, Handling a read and a write, Runs any
-- number of calls.
--
-- EventLoop is src/net/EventLoop.cpp, its queued functors and wake-ups: EventLoop/Moves the moves
-- of the loop and of other threads, Wakeups what holds between any of them, Turn a turn of the loop.
-- EventLoop/Timers is its timers, whose channels the code deletes by hand: Timers/Lifetimes what each
-- operation does to them, Runs any sequence of operations, Specs the times that are set. EventLoop/Dispatch is a turn of the
-- loop over the channels of timers: Dispatch/Repeated the turns of repeated timers, Dangling those with a
-- one-shot timer. EventLoop/Life is the constructors and the destructor with those of EpollPoller, and
-- Life/Lives the loops that a thread makes and destroys.
--
-- Connector is src/net/Connector.cpp: Connector/Retry the delays of its retries, Sockets what becomes of
-- the sockets that it opens.
--
-- LoopThread is src/net/EventLoopThread.cpp: LoopThread/Handshake is how startLoop gets the loop of the
-- new thread, LoopThread/Ending the destructor and the end of that thread, and Ending/Joins whether the
-- destructor returns.
--
-- Acceptor is src/net/Acceptor.cpp with the listening Socket of src/net/Socket.cpp; Acceptor/Descriptors
-- is what becomes of the descriptors. Pool is src/net/EventLoopThreadPool.cpp, and Pool/Rounds its order.
-- Server is src/net/TcpServer.cpp, which takes a loop of the pool for each connection, keeps the
-- connections by their names, and gives tasks to the loops: Server/Names the names, Lifecycle what one
-- arrival or removal does, Runs a server from its start to its end, Balance the loops of connections.
-- Client is src/net/TcpClient.cpp, a connector with the connection that it makes: Client/Keen what
-- keeps its connector trying, Active clients that retry, Disconnect what disConnect stops.
--
-- Logger is src/base/Logger.cpp: Logger the building of sinks and of the logger, Logger/Settings the
-- setters, InForce the settings that the logger is built from, Levels the levels of the sinks,
-- Directories the directories of the log file.
--
-- Bytes are numbers; a size_t is a number below 2^64 whose sums and differences wrap. The host is
-- little-endian, as the casts in the code suppose. Log lines are left out.
--
-- Not modelled: Thread and CurrentThread, the thin wrappers InetAddress and Timestamp, what only
-- calls the kernel, the C library or spdlog; nor the programs under src/test and the copy of spdlog
-- under third.
pub mod Common
pub mod Memory
pub mod Buffer
pub mod Decoder
pub mod TimerWheel
pub mod Transfer
pub mod Channel
pub mod Poller
pub mod Connection
pub mod EventLoop
pub mod Connector
pub mod LoopThread
pub mod Pool
pub mod Server
pub mod Logger
pub mod Client
pub mod Socket
pub mod Acceptor
pub mod Examples
