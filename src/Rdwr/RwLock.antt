-- ===== src/Rdwr/RwLock.antt =====
-- ch13/rdwr_concurrent/2_demo_rdwr_rwlock/miscdrv_rdwr_rwlock.c
use linux_kernel_programming.Base.{ℕ, ◌==◌, if◌then◌else◌, [], Bool, none, some}
use linux_kernel_programming.Base.Words.{ℤ}
use linux_kernel_programming.Rdwr.Code.{
  Seen, Code, read_lock, read_unlock, write_lock, write_unlock, load, store, return_write,
  show_data, fields, Call, reads, writes, Loaded, register_and_alloc,
}

-- `reader`, and what its caller does with the locals it leaves.
abbrev pub reader : (Seen → Code) → Code
reader caller = read_lock (
    load (λ g. g.issue_in_l6)
      (λ stat.
        load (λ g. g.gps_lock)
          (λ locked.
            if locked == 0
            then read_unlock (caller (record { stat = stat; place = none }))
            else load (λ g. g.lat)
                (λ x.
                  load (λ g. g.longit)
                    (λ y.
                      load (λ g. g.alt)
                        (λ z.
                          read_unlock
                            (caller (record { stat = stat; place = some (x, y, z) }))))))))

abbrev pub writer : Code → Code
writer caller = write_lock (
    store (λ g. record g { lat = 129780 })
      (store (λ g. record g { longit = 775952 })
        (store (λ g. record g { alt = 920 })
          (store (λ g. record g { issue_in_l6 = 1 }) (write_unlock caller)))))

abbrev pub read_miscdrv_rdwr : ℕ → Code
read_miscdrv_rdwr count = reader (λ seen. show_data count seen fields [])

abbrev pub write_miscdrv_rdwr : ℕ → Code
write_miscdrv_rdwr count = writer (return_write count)

abbrev pub method : Call → Code
method (reads count) = read_miscdrv_rdwr count
method (writes count) = write_miscdrv_rdwr count

abbrev pub list_demo_rdwrlock_init : ℤ → Bool → Loaded
list_demo_rdwrlock_init = register_and_alloc
