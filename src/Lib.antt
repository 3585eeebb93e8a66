-- ===== src/Lib.antt =====
-- A verification library of the C run-time of Open Dylan, the code in sources/lib/run-time that
-- programs compiled through the C back-end are linked with.
--
-- The program's parts that are modelled, and where:
--
--   Unwind (c-run-time-nlx.c; the frames of run-time.h): non-local exits and unwind-protect. The
--   compiler emits calls of SETUP_EXIT_FRAME, SETUP_UNWIND_FRAME, NLX, FALL_THROUGH_UNWIND,
--   CONTINUE_UNWIND and FRAME_RETVAL around blocks with exits and cleanups. A thread is a record of
--   what of its TEB they use, with two memories of frames; a function gives the state and, where
--   it ends in a `longjmp`, the frame jumped to (`Control`). Unwind.Exit runs an exit to its end
--   with the cleanups as a parameter; its fuel is one more than the number of frames to unwind.
--   Unwind.Verify has the checks of a build with VERIFY_NLX; their fuel bounds the length of the
--   walk, and one more than the number of frames on the stack is enough.
--
--   Calls (c-run-time.c; the methods of run-time.h): how a call enters a method. Calls has the
--   checks (CALL_CHECK, TYPE_CHECK_ARGS and those that use them) and BUFFER_VARARGS,
--   Calls.Keywords the keyword processing (default_arguments, process_keyword_parameters,
--   process_keyword_call_into, check_explicit_kwds, check_unrestricted_kwds), and Calls.Entry the
--   entry points (xep and xep_0 to xep_9, rest_xep, rest_key_xep, key_mep). Buffers are functions
--   from indices to words. An error that the run-time signals is a value of `Result`; so is an
--   access outside an array (`overrun`), and so is the break of iep_apply, through which the entry
--   points without a number pass at most 64 parameters. What calls of Dylan code do (the test
--   primitive_instanceQ) is a field of the parameter `Runtime`.
--
--   HeapTable (heap-table.c): the hash table of the heap statistics. table_find's probe runs on
--   fuel, as many rounds as there are entries, which is always enough. That the allocator has the
--   memory asked for is assumed, so lengths and counts, which are numbers here, fit in a size_t. The
--   length is a power of two in all its uses, so the masks are remainders here.
--
--   MachineWord (c-primitives-math.c): division with its four roundings, for words and for double
--   words, overflow, carry and borrow, the product of two words, rotations and the shifts of double
--   words (MachineWord.Shifts), in the build for x86-64, where a word has 64 bits and NO_LONGLONG
--   is defined. A signed word is an integer, an unsigned one a number below 2 ^ 64. Where C leaves
--   an operation undefined (division by 0, a quotient or an adjustment that is no word) the model
--   gives none. The primitives that give only the quotient or only the remainder compute the same;
--   those that pass the second value by reference (_byref) are in MachineWord.ByRef, with the
--   memory that they write.
--
--   Values (c-run-time.c; MV of run-time.h): the multiple values that a TEB holds, and how they are
--   put aside and brought back (MV_SPILL, MV_UNSPILL, MV_GET_REST_AT, MV_SET_REST_AT);
--   Calls.Returns has their type check, MV_CHECK_TYPE_REST.
--
--   Threads (posix-threads.c, the C back-end's threads; the atomic operations of run-time.h).
--   Threads.Variables has the thread variables: vectors in a memory by address, the list of active
--   threads, and the field of each TEB; Variables.Spec is what they stand for, and a relation of
--   the runs. Threads.Writers has the protocol by which writers and the thread that grows the
--   vectors keep apart, as steps of any number of threads over tlv_writer_counter and the lock of
--   the list. Threads.Locks has the simple and recursive locks and the wait for a notification,
--   and Threads.Join the joins and Threads.Semaphores the semaphores of a build without those of
--   POSIX, whose critical sections are functions and whose waits are the gaps between them. The
--   mutexes of the locks are a parameter, `Pthread`, with what POSIX says of them in Threads.Mutex;
--   a call that waits for another thread gives none. Where the code allocates, the memory is taken
--   to be there. Threads.Writers needs fewer than 2000000 threads, as TLV_GROW does.
--
--   Demangle (demangle.c): the demangling of names for stack traces, with the buffer that it fills as
--   the list of what is written, and the source as the list of the characters before its NUL. The
--   loop has as many rounds of fuel as the name has characters, and each round takes one at least.
--
--   Dispatch (c-run-time.c; the nodes of run-time.h): calls of generic functions. A generic
--   function has a graph of engine nodes; each function of a node (discriminate_engine_*,
--   monomorphic_discriminator_engine_*, if_type_discriminator_engine_*,
--   typecheck_discriminator_engine_*, cache_header_engine_*, single_method_engine_* and their keyed
--   kin in Dispatch.Keyed, general_engine_node_*) ends in the call of another, which is a value of
--   `Tail`; Dispatch.Nodes has them, and `run` follows the calls on fuel. Up to seven
--   implementation arguments are passed one by one, more in a vector. Dispatch.Tree is the
--   specification, a decision tree; one round for each node of the way and two for its end are
--   enough (`depth`). Dispatch.Install has what sets the entry points
--   (primitive_initialize_engine_node, primitive_initialize_discriminator and the cache headers),
--   Dispatch.Generic the entry points of generic functions (gf_xep, gf_optional_xep, gf_iep), and
--   Dispatch.Apply the functions that apply others to vectors. A vector on the stack is put at an
--   address that is an argument of the model. The loop of parent_gf is on fuel, which has to be
--   more than the cache headers between a node and its generic function. The callbacks of
--   discriminators are the field `discriminate` of the parameter `Dispatcher`; they give a node and
--   change nothing.
--
--   Slots (c-run-time.c, run-time.h): the engine nodes that read and write slots. An index is a
--   tagged word of 64 bits that the code stores in an `int` of 32.
--
--   Symbols (c-run-time.c): the table of symbols, primitive_string_as_symbol and
--   primitive_resolve_symbol. strncasecmp is a parameter, of which it is assumed that it tells, of
--   strings of the compared length, whether they are equal but for the case of ASCII letters, as it
--   does in the POSIX locale; the allocator gives an address that is in no place of the table.
--   The search has as many rounds as there are symbols.
--
-- Prelude has what the parts share: names of the standard library, Boolean tests, lists by native
-- numbers, integers, memories and loops. Tests runs the definitions and applies the theorems.
--
-- The parts meet in the TEB: the entry points fill its argument buffers, and unwinding saves and
-- restores its multiple values; dispatch passes the node and its parent in it; it is also where a
-- thread finds its vector of thread variables. The machine-word primitives and the table depend on
-- neither.
--
-- Not modelled: of c-run-time.c closures, the making of vectors and strings, and accessor methods;
-- of c-primitives-math.c the shifts of single words, the counting of bits and conversions of floats;
-- of posix-threads.c the making and destroying of locks and threads, and what only passes a call on
-- to POSIX threads; the collectors; the debugging aids, which print; and all Dylan code.
pub mod Prelude
pub mod Values
pub mod Unwind
pub mod Calls
pub mod MachineWord
pub mod HeapTable
pub mod Threads
pub mod Demangle
pub mod Dispatch
pub mod Slots
pub mod Symbols
mod Tests
