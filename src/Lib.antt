-- ===== src/Lib.antt =====
-- L4Re-tmpFS: a file system service for L4Re that is backed by a tmpfs, the C library's side of it, and
-- the dom0 programs that pass commands and files between machines.
--
-- The parts, and how they interact:
-- * Libfs models dom0/libfs: the protocol of the file system service. Libfs/Protocol has the operation
--   codes of include/l4fs-sys.h, Libfs/Client the calls of lib/src/l4fs.cc (`open` is `open_file`),
--   Libfs/Svr the virtual methods of include/svr.h with their defaults, and Libfs/Dispatch the switch
--   of lib/server/svr.cc. Libfs/Connection joins a client to a server: the request that a call writes
--   is the one that `dispatch` reads, and the name buffer is the server's static one.
-- * TmpFs models dom0/fs_srv/server/src/main.cc: the class `Server`, whose methods call the C library on
--   paths under /tmp/. The path buffer, the shared buffer and the dataspaces are its state. TmpFs/Start has
--   `main`, and TmpFs/Session the calls that follow it.
-- * Backend models dom0/libfs/lib/libc_backend/l4fs.cc: Backend/Defs the class template
--   `L4fs_file_base` and the counter of `Svr`, Backend/Dir the class `L4fs_dir`, Backend/File the class
--   `L4fs_file`, and Backend/Mount the constructor of `Svr` and `mount`.
-- * Service puts the three together, with one buffer that both sides have attached.
-- * Net models dom0/dom0-main/server/src: Net/Socket has tcp_socket.cc, Net/Remote has
--   tcp_client_socket.cc and remote_dom0_instance.cc, of which Net/Rom has `loadFile` and
--   `sendElfBinaryFromRom`. Net/Server has the handlers of dom0_server.cc and lua_ipc_client.cc, Net/Listen
--   the listeners and their threads, and Net/Options the command line of main.cc.
-- * Ned models dom0/dom0-ned/server/src: Ned/Boot the start in lua.cc (the Makefile never
--   defines USE_READLINE, so that the interactive mode only says that it is not there), Ned/Lua the order of the
--   libraries and the server of LUA commands of the same file, Ned/Starting the server thread and
--   Ned/Objects the list of server objects of server.cc and server.h, Ned/Task app_task.cc, Ned/Exec the
--   operations on a task of lua_exec.cc and Ned/Model the class `Am` of the same file, Ned/App the stack
--   of a program and its address space of remote_mem.h, remote_mem.cc and app_model.cc, Ned/Cap the
--   rights of capabilities of lua_cap.cc and lua_cap.h, Ned/Cast their classes and casts and
--   Ned/CapTypes the registration of their types, of the same files, over the LUA library of Ned/LuaState,
--   Ned/Namespace the name spaces of lua_ns.cc, and
--   Ned/Factory the objects and the environment of lua_factory.cc and lua_env.cc. Ned/Exec stands on the
--   tasks of Ned/Task; its threads are those of LUA, of the server that gets the exit signal, and of the
--   task. Ned/Model, Ned/Namespace and Ned/Factory stand on the capabilities of Ned/Cap, Ned/App on the
--   strings of Ned/Model.
-- * Kernel models dom0/dom0-l4re_kernel/server/src: Kernel/Main the order of main.cc, Kernel/Dispatch
--   dispatcher.cc and the attachment of the heap, Kernel/Pages the rest of page_alloc.cc and mem.cc,
--   Kernel/Stack the stack of a program (loader.h, loader.cc) and the search for its AUX vector
--   (main.cc) over the bytes of Kernel/Memory, Kernel/Loader the start of the loader's thread in
--   loader.cc, Kernel/Launch what that thread does up to the program's entry, and Kernel/Regions the
--   region map of main.cc and region.cc.
-- * Base has the shared notation, lists and integers over the native numbers, and memory: `put_at` is a
--   copy into a buffer, which grows the list when it runs over the end. Tests has the platforms and the
--   inputs at which the theorems are applied.
--
-- Parameters: `Platform.L4` has L4's constants and the reads from an IPC stream, with their laws;
-- `ulong-int` holds where an `int` and an `unsigned long` have one size. `TmpFs.Libc` is the C library
-- over the tmpfs, `Net.Os.Os` the machine, the network and Ned, `Net.Rom.Stdio` the streams of the C
-- library, `Net.Listen.Sockets` its sockets and threads, and `Backend.Mount.L4Re` the environment.
-- `Ned.Exec.RefPtr` is cxx::Ref_ptr, whose law is that the last pointer destroys the object.
-- `Ned.Boot.Ned` has the LUA library with getopt's answers, `Ned.App.Space` and
-- `Kernel.Launch.Target` the address space of a program; `Kernel.Main.Boot`,
-- `Kernel.Dispatch.Handlers` and `TmpFs.Start.Start` have what the start calls. `Ned.Cap.CapFpage` has
-- the rights of L4, `Ned.LuaState.Lua` the calls on the stack of LUA, with what is documented of them
-- in `Documented` and `Tables`, and `Ned.Namespace.L4re` the name spaces and capability slots.
-- `Kernel.Memory.Word` is the layout of a machine word, `Kernel.Loader.Platform` the calls of the
-- kernel and of L4Re, `Kernel.Regions.Map` the region map and `Kernel.Regions.Paging` the dataspaces.
--
-- Fuel: `copy_loop` has one round more than the file has bytes, `receive_from` and `send_from` one
-- more than the bytes of the transfer: a round that goes on has moved a byte. The handlers of
-- connections run for a given number of rounds, since a connection may go on for ever; `Outcome` says
-- whether they came to an end. `insert_from` has more rounds than there are regions, `clear_from` more
-- than the list has objects, the loops that look for the AUX vector more than there are words in front
-- of it, and the alignment of the stack one round for each bit of a word.
--
-- Machine words: the byte counters of `preadv`, `pwritev`, `receiveData` and `sendData`, the sizes and
-- addresses of the windows of the loader, and the search for areas wrap around as in the source; where a
-- theorem needs that they do not, it has the bound as a hypothesis.
--
-- Simplified: an operation on a list of server objects is one step, since the list's mutex is not
-- modelled; that of the start of the server thread is (Ned/Starting). No mutex guards a task: its
-- operations are split into parts (Ned/Exec), in which the threads take turns in any order, but a change of
-- its counter, with what follows from the result, is one part, although the source counts without atomics.
-- `exec` is one step. A function in a table of LUA returns the same value whenever it is called. A listener
-- thread reads both of its arguments in one step. A task can send its exit signal only as long as it has
-- its capabilities.
--
-- Not modelled: console output; signed overflow of file offsets; the demonstration of dom0-main; of
-- dom0-ned the printing of capabilities, the information of lua_info.cc, and what the
-- class of an application's model only passes to a library; of dom0-l4re_kernel the debug output; the
-- test programs, examples and configuration files.
pub mod Base
pub mod Libfs
pub mod TmpFs
pub mod Backend
pub mod Service
pub mod Net
pub mod Ned
pub mod Kernel
mod Tests
