-- ===== src/Lib.antt =====
-- coutil, a Lua library of coroutines over libuv: its C core, with the theorems that make it correct.
--
-- The program. Lua states are run as tasks by the threads of a pool (src/lthpool.c); they exchange
-- values over channels (src/lchaux.c), on which a state waits in a queue of states (also in
-- src/lchaux.c) until another one with a matching endpoint comes.
--
-- Prelude holds shared names: tests, lists, integers. Examples has the theorems listed below at
-- concrete inputs, and runs.
--
-- StateQ models `lcu_StateQ` of src/lchaux.c over an explicit store of the links, which the program
-- keeps in the Lua registries of the queued states; StateQ.Chain says which list of states a queue
-- stands for, StateQ.Refinement and StateQ.Removal that each operation does to that list what it
-- should. The loop of `lcuCS_removestateq` takes fuel; as many rounds as there are states suffice.
--
-- Pool models src/lthpool.c: `ThreadPool` is `struct lcu_ThreadPool`, each function is a step from
-- where it takes `pool->mutex` to where it gives it up. Pool.Worker has `threadmain`, Pool.Close what
-- ends a pool, Pool.Create its creation, Pool.Count the counters (with `threads:count` of
-- src/lthreadm.c). Pool.System is a transition system of any number of workers, interleaved with
-- calls of other threads. A wait on a condition may end at any time, as libuv allows; signals are
-- recorded as effects. The inner loop of a worker takes fuel; two rounds suffice (Pool.Turns).
-- C integers are natural numbers here where the theorems show that they are not negative.
--
-- Threads models src/lthreadm.c: the object and the sentinel of a pool, and the new states that become
-- its tasks.
--
-- Operation models the operation of a coroutine of src/loperaux.c: `Operation` has the flags of
-- `lcu_Operation`, what libuv has of it, where its coroutine is suspended, and the counters of the
-- scheduler. Operation.Events has the callbacks and the resumes, as events that any run may have;
-- what a setup function does, and when libuv reports, is given with the event. A failed assertion
-- is `none`.
--
-- Scheduler models src/lscheduf.c with `lcuU_checksuspend` of src/loperaux.c: when a call runs the loop,
-- and when the loop of a task stops; what `uv_run` returns is a parameter.
--
-- Request models the requests of objects of src/loperaux.c (`lcu_UdataRequest`) in the same way,
-- Object their handles (`lcu_UdataHandle`).
--
-- Channel models the rendezvous of src/lchaux.c, Channel.Names the map from names to channels as a
-- function, Channel.Wakes how tasks with their own event loop sleep (`lcu_ChannelTask`, with
-- `uv_onsynced` of src/lchannem.c) as a transition system of one task and any number of threads.
-- Channel.Swap has the exchange of values, `swapvalues`, on stacks as lists, with `lcuL_pushfrom` and
-- `lcuL_movefrom` of src/lmodaux.c. Channel.Await has the channels of src/lchannem.c: one channel with
-- the stack of its state, its place in the queue of its sync, and the coroutine that awaits on it;
-- whom a call meets, what the allocator gives and whether the loop runs are parameters.
--
-- Address models the addresses of src/lcommunf.c. The functions of the C library and of libuv are the
-- record `Net`, with what the code relies on in `IsNet`; an access outside of the memory that the
-- code has is the result `undefined`. `mem2port` goes byte by byte up to the end of the array.
--
-- Listen models the passive sockets of src/lcommunf.c (`LISTENCONN_UNIT` to `listen_accept`) on the
-- handles of Object; `uv_accept` is a parameter, which succeeds as often as connections are announced.
--
-- Address.Found has the list that `system.findaddr` gives, Address.Hints what its mode asks for, and
-- Address.Netmask the length of a mask that `netinfo_call` gives.
--
-- Buffer models the bounds of the buffers of src/lmodaux.c on `size_t`, which wraps around at 2^64.
--
-- Coroutine models the life of the Lua states of src/lcoroutm.c that the threads of libuv run.
--
-- File models parts of src/lfilef.c: the permissions, and `system.fileinfo` with the mode `~` (the
-- callbacks of the other modes do the same rounds). File.Info has the rounds, with the results on the
-- stack as a list; what libuv answers is the record `Answers`. The loop takes fuel; 5 suffices.
-- File.Temp has the template and the mode of `system.maketemp`, up to the call of libuv, File.Open the
-- mode of `system.openfile` and the descriptor of a file, File.Listing the lists of directories; what
-- libuv answers is given with each call.
--
-- Process models parts of src/lprocesf.c: the environment as a block of pointers and bytes, what reads
-- it (Process.Env), the array of the arguments (Process.Args), and the table of signals
-- (Process.Signals). A table of Lua is the list of its entries in the order of `lua_next`.
--
-- Not modelled: the other operations of libuv on sockets, files, processes and terminals, which the
-- source mostly passes on; the module tables; and the Lua code.
pub mod Prelude
pub mod StateQ
pub mod Pool
pub mod Operation
pub mod Channel
pub mod Address
pub mod Buffer
pub mod Object
pub mod Request
pub mod Coroutine
pub mod File
pub mod Process
pub mod Listen
pub mod Threads
pub mod Scheduler
pub mod Examples
