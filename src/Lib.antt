-- ===== src/Lib.antt =====
-- co-net: coroutines over io_uring, with one ring and one task loop for each thread.
--
-- A process has a main ring (class SystemLoop) and one ring for each worker thread. Every ring has
-- a loop of scheduled tasks; a task is a chain of coroutines that await one another. An awaited
-- operation parks its task and hands the ring an entry with the address of a token; the completion
-- is written into the token and wakes the task. Rings send one another tasks, descriptors and
-- functions as messages: entries of the sender that become completions of the receiver.
--
-- The files, and what they model, all under include/co_net:
--   Base           helpers: Boolean tests, lists over the native numbers, integers
--   Timer          timer/timer.hpp: the duration literals
--   Async          async: Frame is promise_type.hpp, result.hpp, awaiter.hpp and the promise and
--                  awaiter of task.hpp; Task is the owner of a frame; Scheduled is
--                  scheduled_task.hpp
--   Net            net: Address is ip_addr.hpp, Socket is socket.hpp and tcp/listener.hpp,
--                  Connection is the state of tcp/connection.hpp
--   Io             io: Token is prep/completion_token.hpp and uring_msg.hpp; Sqe the entries and
--                  completions; Tickets the completions that entries ask for; Stream the reads and
--                  writes of a connection; Setup the constructors of uring.hpp; World the
--                  memory, the rings and the commands; Ring the methods of uring.hpp that submit,
--                  and the destructor of a connection; Handler the methods that handle completions,
--                  with the two that tcp/connection.hpp defines; Await prep/uring_awaiter.hpp and
--                  the operations of prep; Buffer is buffer.hpp and ring_buf_receive
--   Context        context: Workers is the rings of worker.hpp and pick_worker; Startup the
--                  threads of worker.hpp and the constructor of SystemLoop; Spawn the functions
--                  of context.hpp that hand out work, and terminate; TaskLoop is task_loop.hpp;
--                  Process the calls that the threads make; Flight the messages between the
--                  threads, from the call that sends one to its completion; Loops is
--                  SystemLoop::run, the loop of a worker thread and block_on; Accept is
--                  io/prep/prep_multishot_accept.hpp and multishot_accept_then; Traits is traits.hpp
--   Dump           dump.hpp: the texts of the debug output
--   Tests          runs of the theorems at concrete values
--
-- How the code is read. A function that changes state is a function on World that ends in a value
-- and a world, or in a fault: an undefined access, or an exception that nobody handles. `new`
-- gives an address that was never used before; `delete` empties it, and a later access is a fault.
-- A pointer to a scheduled task is the ring and the task's place in its list, since lists only
-- grow. An entry is the list of what the program writes to it. A
-- submission takes any number of the waiting entries, which may depend on the thread that submits: the
-- rings are set up with IORING_SETUP_SINGLE_ISSUER, so the kernel refuses another thread's submission,
-- as when a worker destroys a connection of the main ring, and the entries keep waiting. The handler
-- of SIGINT is taken to run on the main thread. What liburing, the kernel and the
-- C++ library decide is a parameter: records Platform, Kernel and Inet, and the completions that a
-- call shows. Threads interleave call by call: Process and Loops allow any order of calls, the
-- theorems on single deliveries state the order of theirs. Loops also allows them between any two
-- steps of a loop, its wait included. How two calls interleave inside one another is not modelled.
--
-- In Flight the kernel is the documented behaviour of io_uring: an entry with user data completes
-- once on its ring with that data, unmarked and with any result; a message arrives once on its ring
-- with the data and the mark that the entry gives, and with its result, or any for a descriptor; the
-- multishot accept completes any number of times on the main ring. The completions of entries whose
-- user data the program never writes are left out: all but the last cancellation of a ring that stops
-- ask to complete only when they fail, and would then carry whatever the slot of the entry held. A
-- token that a coroutine waits for lives in the coroutine's frame, which is taken to stay until the
-- completion.
--
-- Bounds and fuel. Only the task loop runs on fuel, one unit for each round; the theorem on it
-- gives a bound that is enough. The duration literals and the flags of a completion wrap at 64 and
-- 32 bits as the source's do; indices, counters and descriptors have no upper bound here.
--
-- Not modelled: the bodies of coroutines (a parameter, or any sequence of calls), the two waits of
-- a ring (calls of liburing), a thread that counts the latch down before the latch is constructed,
-- which the order of SystemLoop's members allows, and the thread-local pointers of
-- context/this_ctx.hpp (arguments instead).
pub mod Base
pub mod Timer
pub mod Async
pub mod Net
pub mod Io
pub mod Context
pub mod Dump
mod Tests
