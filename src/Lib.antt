-- ===== src/Lib.antt =====
-- rsyscall: Linux system calls as methods of process objects, in Python.
--
-- What is modelled, from python/ of the repository; paths without a folder are below python/rsyscall/:
--   Memory.Arena: `Allocation`, `Arena` and `align` of memory/allocator.py. The state is one arena
--     with the `valid` flags of the objects made in it; a method that may raise returns a result
--     beside the state it leaves. `allocate`, `free`, `split` and `merge` are one function each, cut
--     where the source calls another method. Memory.Arena.History has the sequences of these calls.
--   Memory.Allocator: `UnlimitedAllocator._bulk_malloc` of memory/allocator.py, on the list of its
--     arenas. It calls `allocate` and `align` of Memory.Arena. The `mmap` system call is a parameter,
--     which succeeds or raises for a length. The first loop is `pass` and the second `fill`.
--   Memory.Batch: `perform_batch`, its two allocators and `NullAllocation` of memory/ram.py. The
--     callable is a tree of its calls of `RAM`; the allocator is a parameter, which Memory.Batch.Served
--     also fills with `bulk_malloc` of Memory.Allocator. Whether the writes at the end return or raise
--     is a parameter too.
--   Memory.Socket: memory/socket_transport.py. `SpanAllocation`, and the bytes that `write` and `read`
--     of the transport send through its sockets. How many bytes a system call moves is an argument.
--   Handle.Fd: the file descriptor handles of handle/fd.py. Handles, tasks and tables are numbers,
--     and the state is the store of their fields. It records the close system calls that are made; how
--     such a call ends is an argument. Handle.Fd.History has the sequences of these calls.
--     Handle.Fd.Unshare has the garbage collection of a table and `unshare_files`, which no other task
--     interrupts; the order of a dict's keys and of a table's tasks is an argument.
--   Handle.Pointer: `Pointer` and its subclasses of handle/pointer.py. Its `split`, `merge`, `near` and
--     `free` call the functions of Memory.Arena. The memory behind a transport, and the serializers of
--     struct.py, are parameters.
--   Concur: `RequestQueue`, `Event` and `Future` of python/dneio/concur.py. A continuation is a number,
--     and an operation returns what it sends or throws into continuations; the code that those run is
--     further operations. Inotify and Connection have these queues as lists of their own.
--   Epoll: epoller.py. `allocate_number` of `EpollWaiter`; the status and the counters of
--     `EpolledFileDescriptor`; the loop of `AsyncFileDescriptor.read`, `write` and `accept`, where the
--     events that arrive meanwhile and the end of each system call are arguments. Epoll.Connect and
--     Epoll.WriteAll: `connect` and `write_all`; Epoll.Calls: the calls one after the other. Two calls on
--     one file descriptor at the same time are not modelled. Epoll.Dispatch: a round of
--     `EpollWaiter._run`, and what `EpolledFileDescriptor._run` does with an event.
--   Process.Wait: `ChildState` of sys/wait.py. The numbers of codes and signals are a parameter.
--   Process.Child: `ChildProcess` of handle/process.py. Process.Child.World interleaves its calls, the
--     kernel's answers and the reads of the siginfo, as a step relation. The `setpriority` and
--     `getpriority` that it inherits are steps there that no guard holds back.
--   Process.Monitor: `waitpid`, `kill` and `killpg` of `AsyncChildProcess`, and the loop of
--     `AsyncSignalfd`, in monitor.py. A call of `waitpid` goes from one await to the next; the state
--     changes of the child and its signals come between. `kill` calls Process.Child.
--   Signal: `SignalTask` and `SignalBlock` of signal.py, with the mask that the kernel has.
--   Connection: the two loops of `SyscallConnection` in tasks/connection.py. The server and the
--     encoding of a system call are parameters. Connection.Order has a server that reads system calls
--     from the bytes and answers them in that order.
--   Inotify: `Watch` and the dispatch by `Inotify._run` in inotify_watch.py.
--   Environ: command.py and environ.py. The file system is a parameter.
--   Struct: the list serializer and the null-terminated strings of struct.py. The serializer of an
--     element, and `os.fsencode` and `os.fsdecode`, are parameters.
--   ReadBuffer: `AsyncReadBuffer` of epoller.py. How each read of the file ends is an argument, with
--     the end of the file, errors and cancellation; the types of the bindings are parameters.
--   Fuse: `FuseIn`, its classes and `FuseInList` of linux/fuse.py. What the generated bindings and
--     Python's encodings do is a parameter, a record of functions; Fuse.Fits has its laws, for numbers
--     that fit into the fields of the kernel's structs.
--   Bits: `bits` of struct.py, and the words of `Sigset` in signal.py, of the capabilities in
--     sys/capability.py and of `CpuSet` in sched.py. A set is a list, and `has` says what is in it;
--     Bits.Abstract has a `Sigset` as a quotient, which forgets the order of the list. The members of
--     `SIG` are a predicate on numbers.
--   Iovec: `IovecList` and `split_iovec` of sys/uio.py. A pointer is any type with a size and a split;
--     the laws of these are those of `Pointer.split`. The spans of Memory.Socket are such a type.
--   Sockaddr: `SockaddrUn` of sys/un.py, `SockaddrIn` and `SockaddrIn6` of netinet/in_.py, and
--     `SockaddrStorage` of sys/socket.py as bytes. The memory behind the buffer, where `strlen` may go
--     on, is an argument.
--   Cmsg: `CmsgSCMRights` and `CmsgList` of sys/socket.py as bytes. Reading them makes handles by the
--     `make_fd_handle` of Handle.Fd.
--   Base: numbers, Boolean tests and lists that the parts share.
-- Concurrency: control changes only where the source awaits, so a part that other tasks can interrupt
-- is a list of turns, or a step relation, between such points.
-- Numbers: starts, lengths and sizes are natural numbers, as every caller passes them.
-- Fuel: `allocate_number` takes fuel; one more than there are used numbers is enough, since each
-- further turn leaves a used number behind. `chunks` takes the length of its list, and each turn takes
-- at least one element. `list_from_bytes` takes the length of its data, for structs of at least one
-- byte, and `packets_from_bytes` does. `cmsgs_from_bytes` takes fuel; as many turns as there are bytes
-- are enough for what `cmsgs_to_bytes` writes. `bits` takes a turn for each bit of the word.
-- `read_until` takes two turns more than there are reads to come. Every other loop is a recursion on a
-- list.
-- Not modelled: the text of exceptions, `__str__` and `__repr__`, logging, the coroutines of
-- python/dneio/core.py, the structs of the generated bindings, and the removal of a handle from
-- Python's weak sets by garbage collection; thread.py, tasks/ without connection.py, and the methods
-- of one system call each, which put system calls in a row over the parts above;
-- the FUSE responses and `Dirent`, whose bytes depend on the bindings; and the programs in
-- python/rsysapps, nix.py and wish.py, which are input and output.
pub mod Base
pub mod Memory
pub mod Handle
pub mod Epoll
pub mod Concur
pub mod Connection
pub mod Environ
pub mod Inotify
pub mod Iovec
pub mod Process
pub mod Signal
pub mod Sockaddr
pub mod Cmsg
pub mod Struct
pub mod ReadBuffer
pub mod Fuse
pub mod Bits
