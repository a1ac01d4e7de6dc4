-- ===== src/Lib.antt =====
-- PARSIR runs discrete event simulations in parallel and speculatively: worker threads execute the
-- events of simulation objects epoch by epoch, each epoch as long as the lookahead; an event that
-- reaches an object too late rolls the object back to its last checkpoint, which its memory manager
-- keeps.
--
-- The parts, and how they stand to the code:
--
-- - Base: lists, integers, tests and arrays over the native numbers; do blocks over Option, whose
--   `none` is a call of exit().
-- - Event, World: the events of include/engine.h and include/queue.h; the shared variables of
--   queue/queue.c and speculation/speculation.c as the record Shared, and the thread-local ones of
--   one worker as Thread. A step of the program is a function of both, a World.
-- - Slot, Queue: the calendar of queue/queue.c. An object has 2000 slots of one lookahead each
--   (`queue`), a list per slot; events beyond the window wait in the worker's fallback queue.
--   queue_insert, queue_insert_in_epoch, queue_insert_in_slot, queue_insert_from_fallback,
--   fallback_check and update_timing are the functions of these names. Queue/Calendar and
--   Queue/Epoch hold the invariant of the calendar.
-- - Speculation: speculation_queue_insert of queue/queue.c, cut into the part for a straggler, the
--   part that takes an object up again, and their guard; the worker's stack of objects, from
--   speculation/speculation.c. Speculation/Clock says what a call does to the objects' clocks,
--   Speculation/Annihilation what the retraction of an event does, Speculation/Causality is about
--   events behind their object's clock, and Speculation/Grid about the calendar.
-- - Rollback: run_rollback of speculation/speculation.c and what it calls in queue/queue.c:
--   rollback_speculation_queue, log_rollback, queue_elem_annihilation, restore_retractable_events.
--   The calls of the checkpoint backend, restore_object and set_ckpt, are recorded in
--   Shared.backend.
-- - Flush: speculation_queue_flush and retractable_queue_flush, between two epochs.
-- - Extract: queue_extract, as a machine with a state for each label of the function and for each
--   point where it lets other workers go on; Extract/Machine puts the labels together, and
--   Extract/Acquire is about taking an object up, with its rollback.
-- - Stubs: ScheduleNewEvent of stubs/stubs.c. What malloc returns is an argument.
-- - Memory: memory/memory.c: the chunk allocator of an object, __wrap_malloc and __wrap_free; in
--   Memory/Snapshot set_allocator_ckpt and restore_allocator; in Memory/Contents the memory of the
--   object, with set_used_chunks_ckpt and restore_chunks, and set_ckpt and restore_object of
--   chunk_ckpt/chunk_ckpt.c. Byte: the bits of the usage bitmaps.
-- - Engine: the loop of main in engine/engine.c that gives each worker its objects, and fills the
--   tables of the nodes that Extract claims objects by. The quotients of floats are those of the
--   numbers for the shares, which holds up to 2^24 objects, and an argument for the nodes. With one
--   node the loop leaves the tables as they are.
-- - Random, Topology: random/random.c, and FindReceiver of models/pcs/topology.c. Random/Doubles
--   has the operations on doubles that Expent and the handlers use, as a parameter.
-- - Simulation: the loop of a worker in engine/engine.c over the events of a model, as an
--   interface: a model is its INIT and its ProcessEvent, and its books say what the states hold and
--   the pending events give back. Simulation/Safety is about the order of the events. Pcs, Highway
--   and Phold fill the interface.
-- - Pcs: models/pcs/application.c, the cells of a phone network. Pcs/Radio has the power of a
--   channel, Pcs/Channels allocation and deallocation, Pcs/Calls ProcessEvent. Pcs/Bitmap,
--   Pcs/Ledger and Pcs/Allocation relate the bitmap (whose words are in Word), the list and the
--   counter of the channels, Pcs/Handlers, Pcs/Events and Pcs/Process are about ProcessEvent,
--   Pcs/Network about all the cells, and Pcs/Pool about the set of the busy channels.
-- - Highway: models/highway/application.c: Highway/Lane is about the order of a lane,
--   Highway/Traffic has ProcessEvent, Highway/Loads and Highway/Drivers are about the loads of a
--   stretch, and Highway/Network about the whole road.
-- - Phold: models/phold/application.c: the stacks of chunks and ProcessEvent; Phold/Chunks is about
--   the stacks, Phold/Handlers about ProcessEvent, and Phold/Network about all the objects.
-- - Barrier: queue/barrier-synchronization.c: the threads in barrier(), as a machine whose turns
--   are single accesses to the two counters, by any thread. Barrier/Phases says what a round goes
--   through; Barrier/Order and Barrier/Liveness are about who leaves, and when.
-- - Mvmm: MVM_MMAP_MULTIVERSIONING/patches/patches.c, in the variant MMAP_MV_STORE without the
--   grid: the regions that mmap gave, and the snapshots of their pages that the_patch and memcpy
--   take before a store. Mvmm/Pages, Mvmm/Snapshots and Mvmm/Ranges are about snapshots, Mvmm/Undo,
--   Mvmm/Rollback and Mvmm/Restore about rollback, Mvmm/Epoch and Mvmm/Checkpoints about the
--   accesses of an epoch, and Mvmm/Rounds about the next one. Of the variant that redirects loads
--   and stores, Mvmm/Versions has a page with its two versions, and Mvmm/Registers the effective
--   address of an instruction and mvmm_rewrite_base_reg_for_ea; of the variant MMAP_MV_STORE_GRID,
--   Mvmm/Grid has a page with its cells.
-- - Tests: the theorems at concrete inputs.
--
-- The build is that of the benchmarks: SPECULATION and NUMA_BALANCING, without DEBUG, AUDIT and
-- AVOID_THROTTLING; in Memory the usage bits are those of CHUNK_FULL, and set_allocator_ckpt takes
-- CHUNK_BASED_SAVE as an argument, as Pcs, Highway and Phold take SPECULATION.
--
-- What stands for what: a time is a natural number of ticks, where a tick divides LOOKAHEAD and
-- `epsilon`; the code's doubles are not rounded. An int or a pointer is a number, and wrap-around
-- is written out where the code counts on it. A queue is a list in the order of its links. A
-- section under a spin lock is one step, so the locks are not kept; a rollback and a round of a
-- flush, which take several locks in turn, are one step too, so what other workers do in their
-- midst is not shown. A queue element carries its address, by which the code unlinks it.
--
-- In Pcs, Highway and Phold a double is a value of an abstract type, with the operations of the
-- hardware and of math.h; what the theorems need of it is in IsOrderly, and the signs of the
-- build's constants are named conditions. A car's residence time is compared in ticks. malloc gives
-- memory with any bytes in it. That it gives none, and the handler exits, is a condition of Pcs and
-- Highway, by how many events the object has handled; INIT got its memory when a run starts, and
-- Phold does not test its chunks. ScheduleNewEvent is taken to accept each event that a handler
-- sends. The doubly linked channels and cars are lists, and so are the singly linked chunks, whose
-- walk follows the links as the code does. A run starts when all objects have handled INIT, which a
-- barrier waits for, and handles the events in any order; the rollbacks between are not part of it.
--
-- In Mvmm an address is a number below 2^64, the memory a function of the address, and a buffer the
-- bytes of a page; what mvmm_alloc_page returns for a page is an argument. In Extract the result of
-- barrier() is an argument of a step, and Barrier has the function itself.
--
-- Bounds: the fuel of snapshot_loop counts bytes, of which each turn covers one at least; that of
-- speculation_queue_flush and retractable_queue_flush counts claims, one for each object and one
-- that fails; that of size_class and take_chunk counts the eight classes, and one look past them;
-- the rounds of hexagon_walk and square_walk count turns of the loops, of which the first needs six
-- at most, and the second, which draws anew each time, has no bound.
--
-- Not modelled: the start of threads, the reading of the hardware configuration, the placement of
-- workers on processors, output, the benchmarks' measurements; the chunk checkpoints of
-- CHUNK_BASED_SAVE, grid_ckpt, and the backends MVM_CHUNK, MVM_GRID_CKPT and MVM_GRID_CKPT_BS,
-- which patch the compiled program; of MVM_MMAP_MULTIVERSIONING the redirection and the grid over a
-- whole region, and the rewriting of machine code; of the models, the printed statistics and the
-- fields that no handler uses.
pub mod Barrier
pub mod Base
pub mod Event
pub mod Slot
pub mod Word
pub mod World
pub mod Queue
pub mod Speculation
pub mod Rollback
pub mod Flush
pub mod Extract
pub mod Byte
pub mod Memory
pub mod Random
pub mod Pcs
pub mod Phold
pub mod Topology
pub mod Simulation
pub mod Stubs
pub mod Highway
pub mod Tests
pub mod Engine
pub mod Mvmm
