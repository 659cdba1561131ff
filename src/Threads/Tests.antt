-- ===== src/Threads/Tests.antt =====
-- The theorems on a system with a kernel thread and a process with two threads.
use linux_kernel_programming.Base.{◌≡◌, ◌≢◌, ◌↔◌, refl, List, [], ◌∷◌, true, false, arith}
use linux_kernel_programming.Base.Words.{pos}
use linux_kernel_programming.Threads.Format.{decimal, dec_digits}
use linux_kernel_programming.Threads.Defs.{Task, Process, ended, deadlock, World}
use linux_kernel_programming.Threads.Loops.{after_rows, thread_count}
use linux_kernel_programming.Threads.Lists.{listing, buggy_init_deadlocks, fixed_and_rcu_list_all}
use linux_kernel_programming.Threads.Foreach.{
  thread_listing, process_listing, showall_inits_list_all,
}
use linux_kernel_programming.Threads.Showall.{thrd_showall_init, prcs_showall_init}
use linux_kernel_programming.Threads.Buggy
use linux_kernel_programming.Threads.Fixed
use linux_kernel_programming.Threads.Rcu

abbrev swapper : Task
swapper = record { address = 4096; pid = 0; stack = 8192; comm = 115 ∷ 119 ∷ [] }

abbrev bash_main : Task
bash_main = record { address = 20480; pid = 77; stack = 24576; comm = 98 ∷ 97 ∷ [] }

abbrev bash_worker : Task
bash_worker = record { address = 28672; pid = 78; stack = 32768; comm = 98 ∷ 98 ∷ [] }

abbrev kthreadd : Task
kthreadd = record { address = 12288; pid = 2; stack = 16384; comm = 107 ∷ [] }

abbrev tasks : List Process
tasks =
    record {
      leader = kthreadd;
      others = [];
      tgid = 2;
      mm = false;
      nr_threads = 1;
      uid = 0;
      euid = 0;
    }
    ∷ record {
      leader = bash_main;
      others = bash_worker ∷ [];
      tgid = 77;
      mm = true;
      nr_threads = 2;
      uid = 1000;
      euid = 1000;
    }
    ∷ []

abbrev idle_world : World
idle_world = record { held = λ a. false; refs = λ a. 1; rcu = 0; log = [] }

count_lem : thread_count tasks ≡ 3
unfolding thread_count
count_lem = refl

decimal_runs : decimal 1000 ≡ 49 ∷ 48 ∷ 48 ∷ 48 ∷ []
unfolding decimal dec_digits
decimal_runs = refl

buggy_init_deadlocks_example :
    (Buggy.thrd_showall_buggy_init tasks idle_world ≡ deadlock) ↔ (tasks ≢ [])
buggy_init_deadlocks_example = buggy_init_deadlocks tasks idle_world (λ a. refl)

fixed_and_rcu_list_all_example :
    (Fixed.thrd_showall_buggy_init tasks idle_world
      ≡ ended (pos 0) (after_rows (listing tasks) idle_world))
    × (Rcu.thrd_showall_rcu_init tasks idle_world
        ≡ ended (pos 0) (after_rows (listing tasks) idle_world))
fixed_and_rcu_list_all_example =
    fixed_and_rcu_list_all tasks idle_world
      ((omega arith, tt), ((omega arith, (omega arith, tt)), tt)) (λ a. refl)

showall_inits_list_all_example :
    (thrd_showall_init swapper tasks idle_world
      ≡ ended (pos 0) (after_rows (thread_listing swapper tasks) idle_world))
    × (prcs_showall_init tasks idle_world
        ≡ ended (pos 0) (after_rows (process_listing tasks) idle_world))
showall_inits_list_all_example =
    showall_inits_list_all swapper tasks idle_world
      ((omega arith, tt), ((omega arith, (omega arith, tt)), tt)) (λ a. refl)
