-- ===== src/Rcu/Driver.antt =====
-- The driver's reader and writer, and the methods around them.
use linux_kernel_programming.Base.{
  ℕ, ◌==◌, if◌then◌else◌, List, [], ◌∷◌, ◌++◌, Bool, Option, none, some,
}
use linux_kernel_programming.Base.Words.{ℤ}
use linux_kernel_programming.Rdwr.{
  GlobalData, Seen, Call, reads, writes, Loaded, register_and_alloc, fields,
}
use linux_kernel_programming.Rcu.Code.{
  Code, rcu_read_lock, rcu_read_unlock, dereference, load, load_outside, spin_lock, spin_unlock,
  kzalloc, copy, store, assign_pointer, synchronize, await, kfree, return_read, return_write,
}

-- `reader`, and what its caller does with the locals it leaves.
abbrev pub reader : (Seen → Code) → Code
reader caller = rcu_read_lock (
    dereference (λ p.
      load p (λ g. g.issue_in_l6)
        (λ stat.
          load p (λ g. g.gps_lock)
            (λ locked.
              if locked == 0
              then rcu_read_unlock (caller (record { stat = stat; place = none }))
              else load p (λ g. g.lat)
                  (λ x.
                    load p (λ g. g.longit)
                      (λ y.
                        load p (λ g. g.alt)
                          (λ z.
                            rcu_read_unlock
                              (caller (record { stat = stat; place = some (x, y, z) })))))))))

-- The update of the copy, and what follows it
abbrev pub update : ℕ → Code → Code
update gd_new k =
    store gd_new (λ g. record g { lat = 129780 })
      (store gd_new (λ g. record g { longit = 775952 })
        (store gd_new (λ g. record g { alt = 920 })
          (store gd_new (λ g. record g { issue_in_l6 = 1 }) k)))

abbrev pub with_copy : ℕ → Code → Option ℕ → Code
with_copy gd caller none = spin_unlock caller
with_copy gd caller (some gd_new) =
    copy gd gd_new
      (update gd_new (assign_pointer gd_new (spin_unlock (synchronize (await (kfree gd caller))))))

-- The caller ignores what `writer` returns.
abbrev pub writer : Code → Code
writer caller = spin_lock (dereference (λ gd. kzalloc (λ gd_new. with_copy gd caller gd_new)))

-- SHOW_DATA(gdata), with the fields still to be printed: each is loaded through `gdata` anew.
unfoldable pub show_data : ℕ → Seen → List (GlobalData → ℕ) → List ℕ → Code
show_data count seen [] shown = return_read count seen shown
show_data count seen (f ∷ fs) shown =
    dereference (λ p. load_outside p f (λ v. show_data count seen fs (shown ++ v ∷ [])))

abbrev pub read_miscdrv_rdwr : ℕ → Code
read_miscdrv_rdwr count = reader (λ seen. show_data count seen fields [])

abbrev pub write_miscdrv_rdwr : ℕ → Code
write_miscdrv_rdwr count = writer (return_write count)

abbrev pub method : Call → Code
method (reads count) = read_miscdrv_rdwr count
method (writes count) = write_miscdrv_rdwr count

abbrev pub miscdrv_rdwr_rcu_init : ℤ → Bool → Loaded
miscdrv_rdwr_rcu_init = register_and_alloc
