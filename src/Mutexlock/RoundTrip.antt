-- ===== src/Mutexlock/RoundTrip.antt =====
-- A secret that is written is the secret that is read.
use linux_kernel_programming.Base.{
  ℕ, ◌-◌, ◌^◌, ◌≤◌, ◌<◌, ◌≡◌, ◌≢◌, List, [], ◌++◌, some, length, drop, take, min,
}
use linux_kernel_programming.Base.Words.{pos, add32}
use linux_kernel_programming.Kernel.{Kernel, KernelLaws, c_string}
use linux_kernel_programming.Mutexlock.Defs.{DrvCtx, maxbytes, Driver, done}
use linux_kernel_programming.Mutexlock.Ops.{read_miscdrv_rdwr, write_miscdrv_rdwr}
use linux_kernel_programming.Mutexlock.Ready.{secret, IsReady}
use linux_kernel_programming.Mutexlock.Read.{read_returns_secret}
use linux_kernel_programming.Mutexlock.Write.{taken, write_stores_secret}

-- What a write of `count` bytes leaves of the string that starts the user's buffer.
abbrev pub stored_part : List ℕ → ℕ → List ℕ
stored_part ubuf count = take (min count maxbytes - 1) (c_string (take count ubuf))

-- From a ready driver, and with a kernel that keeps its promises: if a write succeeds and what it
-- stores is not empty, then a read of at least 128 bytes whose copy succeeds gives back exactly
-- that, before the old contents of the reader's buffer.
pub read-write :
    {k : Kernel} (laws : KernelLaws k) {c : DrvCtx} {d : Driver} (r : IsReady c d) (b ubuf : List ℕ)
    (count : ℕ) (rbuf : List ℕ) (wanted : ℕ)
    → 0 < count
    → count < 2 ^ 31
    → count ≤ length ubuf
    → k.kvmalloc count ≡ some b
    → (taken laws r b ubuf count).0 ≡ 0
    → maxbytes ≤ wanted
    → wanted ≤ length rbuf
    → stored_part ubuf count ≢ []
    → ((s : List ℕ) → (k.copy_to_user rbuf s (length (c_string s))).0 ≡ 0)
    → (d' : Driver) × (d'' : Driver) × (write_miscdrv_rdwr k ubuf count d ≡ done (pos count) d')
      × (read_miscdrv_rdwr k rbuf wanted d'
          ≡ done
              (
                pos (length (stored_part ubuf count)),
                stored_part ubuf count ++ drop (length (stored_part ubuf count)) rbuf,
              )
              d'')
read-write laws {d = d} r b ubuf count rbuf wanted h s u a e big room full copies =
    let (c', runs, stored, _, _, ready) = write_stores_secret laws r b ubuf count u a e h s in
    (
      record d { ctx = some c' },
      record d { ctx = some (record c' { tx = add32 c'.tx (length (secret c')) }) },
      runs,
      rw (← stored) (
          read_returns_secret laws ready rbuf wanted big room (rw stored full)
            (copies c'.oursecret)),
    )
