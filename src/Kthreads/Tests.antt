-- ===== src/Kthreads/Tests.antt =====
-- The theorems on a module that has just been inserted.
use linux_kernel_programming.Base.{ℕ, ◌≡◌, ◌≢◌, refl, true, false, arith}
use linux_kernel_programming.Base.Words.{pos}
use linux_kernel_programming.Kernel.{enomem}
use linux_kernel_programming.Kthreads.Defs.{null, thread, Module, set_cpuaffinity}
use linux_kernel_programming.Kthreads.Inits.{
  init_percpu_var, exit_percpu_var, deadlock_eg_ab_ba_init, deadlock_eg_ab_ba_exit,
}
use linux_kernel_programming.Kthreads.Runs.{LoadsKeepingRefs, inits_keep_refs}

abbrev inserted : Module
inserted = record {
  arr_tsk0 = null;
  arr_tsk1 = null;
  refs0 = 0;
  refs1 = 0;
  running0 = false;
  running1 = false;
  pcp_ctx = false;
}

abbrev address : ℕ
address = 4096

address_lem : address ≢ 0
address_lem e = omega (arith, e)

inits_keep_refs_example :
    LoadsKeepingRefs (pos 0) inserted (init_percpu_var address true thread thread) exit_percpu_var
    × LoadsKeepingRefs
        (pos 0)
        inserted
        (deadlock_eg_ab_ba_init address thread thread)
        deadlock_eg_ab_ba_exit
inits_keep_refs_example = inits_keep_refs address inserted address_lem (refl, refl, refl)

-- Not root, and no memory for new credentials
no_creds :
    set_cpuaffinity
      (record { root = false; creds = false; valid = true; sched_setaffinity = pos 0 })
    ≡ enomem
unfolding set_cpuaffinity
no_creds = refl
