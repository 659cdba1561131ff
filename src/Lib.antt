-- ===== src/Lib.antt =====
-- The C programs and kernel modules of the book's repository, part by part. Each part is a
-- program or a module of its own; the modules include convenient.h and link with klib.c, and the
-- kernel calls their methods.
--
-- - ch12/1_miscdrv_rdwr_mutexlock/miscdrv_rdwr_mutexlock.c (Mutexlock): the misc device driver
--   that keeps a `secret'. Driver is the module's globals with the context that `ctx' points to;
--   a command (Cmd) threads it, and open_, read_, write_ and close_miscdrv_rdwr,
--   miscdrv_init_mutexlock and miscdrv_exit_mutexlock are the functions of these names. A mutex
--   is a flag, and taking one that is held is the fault `deadlock'. One call runs at a time.
--   Register is the abstract register that the methods refine, which Refines shows.
-- - ch12/rdwr_test_secret.c (Client): the program that writes and reads the secret: rdwr_main
--   over a record of system calls (Main.Device), which Device fills with the methods of the
--   driver with mutexes; EndToEnd runs both together.
-- - ch12/2_miscdrv_rdwr_spinlock/miscdrv_rdwr_spinlock.c (Spinlock): the same driver with
--   spinlocks and a mutex. Its State is the other driver's with ctx->spinlock and the parameter
--   `buggy'; a function that can sleep calls might_sleep, which goes wrong while a spinlock is
--   held. display_stats takes and gives back the spinlock.
-- - solutions_to_assgn/ch13/miscdrv_rdwr_refcount/miscdrv_rdwr_refcount.c (Refcount): the driver
--   with refcount_t counters, over the state of the driver with spinlocks. What refcount_inc and
--   refcount_dec do to a counter is a parameter (Ops.Refcount) with the laws RefcountLaws; Same
--   says that a read and a write are those of the driver with mutexes, Counts what calls do to
--   the counters, Limits how far these can be trusted.
-- - klib.c (Klib): powerof, snprintf_lkp, show_phy_pages and delay_sec, each in a file of its
--   own, and minsysinfo in SysInfo/Linked. An `unsigned long' is a number modulo 2^64, and the
--   loops have as many rounds as their C conditions allow, so no fuel is chosen.
-- - ch11/cgroups/cpu_constrain/primegen/primegen.c (Primegen): simple_primegen as the list of the
--   numbers and line ends it prints, and main with its checks of the arguments.
-- - ch13/4_lockdep/deadlock_eg_AB-BA/deadlock_eg_AB-BA.c (Deadlock): thrd_work as the sequence of
--   lock actions of each thread, move as one action of one thread, and Reach as any interleaving
--   of both.
-- - ch6/list_demo/list_demo.c (ListDemo): add2tail, showlist, findinlist_letter, freelist,
--   list_init and list_exit. The list is the sequence of its nodes' addresses in a memory where a
--   freed node can no longer be read; the kernel log is part of the state.
-- - ch13/3_lockfree/percpu/percpu_var.c (Percpu): thrd_work as the sequence of updates that a
--   thread makes on the copy of the CPU it is pinned to, and Reach as any interleaving of both
--   threads.
-- - ch13/rdwr_concurrent/1_demo_rdwr_nolocks and 2_demo_rdwr_rwlock (Rdwr): reader, writer and
--   the methods around them, as Code: the loads, stores and lock operations that are left to do.
--   Reach is any interleaving of any number of threads; Enabled says when a read-write lock is
--   given. RwLock and NoLocks hold the two drivers' code, Positions, Steps and Racy, RacySteps
--   the invariants, Sums, Progress and Ends the counting of steps.
-- - ch8/lowlevel_mem, ch8/page_exact_loop and ch9/vmalloc_demo (Alloc): bsa_alloc,
--   page_exact_loop_init, vmalloc_try and the exits as commands over the live pieces of memory
--   (Alloc.Heap). A piece is freed with its own function and size, all else is a fault; which
--   requests find memory is a parameter. Pages, Exact and Vmalloc hold the code, PagesUse,
--   ExactUse and VmallocUse the proofs.
-- - solutions_to_assgn/ch9/slab_custom_mult/slab_custom_mult.c (Slab): create_our_llkd_caches,
--   use_our_cache, init and exit over what kmem_cache_create returns at each index, with the
--   number of caches that live; use_all and destroy_all are init's and exit's loops. Custom is
--   ch9/slab_custom, with one cache.
-- - ch13/rdwr_concurrent/3_demo_rdwr_rcu (Rcu): reader, writer and the methods around them as
--   Code over a memory of objects. A freed object is gone; a grace period waits for the readers
--   that were in a section at its beginning; kzalloc gives any free address, or none. Places
--   names each point of the code and what a thread knows there, Facts to Steps show that every
--   step keeps that, Grace has the theorems.
-- - ch13/2_list_demo_rdwrlock and ch13/3_lockfree/list_demo_rcu (SharedList): add2tail, showlist,
--   findinlist_letter and the methods of both drivers as Code over one list; Places says what a
--   thread knows at each place, Frames to Keeps that every step keeps the invariant, Walks and
--   Progress have the theorems, Free the inits, the exits and freelist.
-- - the rest of ch13/3_lockfree/percpu/percpu_var.c and of
--   ch13/4_lockdep/deadlock_eg_AB-BA/deadlock_eg_AB-BA.c (Kthreads): run_kthrd, set_cpuaffinity,
--   and both modules' init and exit, with what kthread_run, alloc_percpu and sched_setaffinity
--   give as parameters. A pointer to a thread is NULL, an error value or a thread; going through
--   one that is no thread is an oops.
-- - ch5/min_sysinfo/min_sysinfo.c (SysInfo): llkd_sysinfo and llkd_sysinfo2 over the
--   configuration of the kernel, with the buffer of 128 bytes as the string that it holds; Texts
--   has the strings.
-- - ch11/cpu_affinity/userspc_cpuaffinity.c (Affinity): the tool's functions over what the system
--   answers (Tool.System); a cpu_set_t is a function from CPU numbers, and the loop over the 64
--   bits of an `unsigned long' has 64 rounds. Bits has the proofs.
-- - ch13/1_rmw_atomic_bitops/rmw_atomic_bitops.c (BitOps): the functions on the word `mem' as
--   functions of its value, with what init shows.
-- - ch6/foreach, ch13/3_lockfree/thrdshowall_rcu and ch13/4_lockdep/{buggy,fixed}_thrdshow_eg
--   (Threads): the five modules that list processes and threads, as commands over the tasks'
--   locks and references and the log; a lock that the module itself holds is never given to it
--   again. Format has the conversions of the kernel's snprintf, Row the pieces of a row that the
--   modules of ch13 share, Buggy, Fixed, Rcu and Showall the modules. The tasks are a list that
--   does not change during the walk. Ten decimal digits are enough for 32 bits.
-- - ch8/slab1, slab2_buggy, slab3_maxsize, slab4_actualsize and
--   solutions_to_assgn/ch8/slab_ptr_array (SlabDemos): the modules over the live pieces of memory
--   of Alloc/Heap. Sizes has the loops that run until kmalloc fails, on fuel: limit / stepsz + 2
--   rounds are enough where kmalloc refuses sizes above the limit. kmalloc(0) is taken to give a
--   piece as other sizes do.
-- - ch7/show_kernel_vas/kernel_vas.c, with SHOW_DELTA_* of convenient.h (Vas): the regions that
--   the module shows, by the kernel's configuration (Delta.Config) and the layout's macros, which
--   are parameters. Each `#if' of show_kernelvas_info is a block of lines; Exact has the sizes,
--   Once the count of the modules' region.
-- - ch5/modstacking and ch5/modparams/modparams2 (Stacking): core_lkm's exports as the interface
--   that user_lkm's init is given; the check of the parameter in Params.
-- - convenient.h (Convenient): PRINT_CTX as the columns that it prints of a context, SHOW_DELTA
--   on a 64-bit kernel, and the characters of DELAY_LOOP.
--
-- Not modelled: the modules that only print (ch4 and some of ch5 to ch9), the shell scripts, and
-- any reordering of loads and stores by compiler or processor. The kernel's own functions are not
-- in the repository: strscpy, kvmalloc and the copies between kernel and user memory are the
-- fields of the record Kernel.Kernel, what their documentation promises is Kernel.KernelLaws, and
-- Kernel.concrete is an instance; vsnprintf and the architecture's address translation are
-- arguments. Printing is left out except where the log is what a function is for.
pub mod Base
pub mod Kernel
pub mod Mutexlock
pub mod Klib
pub mod Primegen
pub mod Deadlock
pub mod Kthreads
pub mod ListDemo
pub mod Rdwr
pub mod Affinity
pub mod Alloc
pub mod BitOps
pub mod Client
pub mod Convenient
pub mod Spinlock
pub mod SysInfo
pub mod Stacking
pub mod Threads
pub mod Vas
pub mod Percpu
pub mod SharedList
pub mod Slab
pub mod SlabDemos
pub mod Rcu
pub mod Refcount
