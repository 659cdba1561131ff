-- ===== src/Client/Tests.antt =====
-- The program on a driver at work, and its theorem there.
use linux_kernel_programming.Base.{
  ℕ, ◌≤◌, ◌≡◌, refl, List, [], ◌∷◌, false, true, Option, some, none, arith, replicate,
  length-replicate, leb, if◌then◌else◌,
}
use linux_kernel_programming.Kernel.{concrete, concrete-KernelLaws, c_string}
use linux_kernel_programming.Mutexlock.{DrvCtx, Driver, done}
use linux_kernel_programming.Mutexlock.Ready.{IsReady}
use linux_kernel_programming.Client.Main.{bad_usage, printed, wrote, rdwr_main}
use linux_kernel_programming.Client.Device.{driver_device}
use linux_kernel_programming.Client.EndToEnd.{Succeeds, rdwr_main_round_trip, write_then_read}

abbrev context : DrvCtx
context = record {
  tx = 0;
  rx = 0;
  err = 0;
  myword = 0;
  config1 = 0;
  config2 = 0;
  config3 = 0;
  oursecret = b'o' ∷ b'k' ∷ replicate 126 0;
  lock = false;
}

abbrev idle : Driver
idle = record { ga = 0; gb = 1; lock1 = false; ctx = some context; registered = true; kbufs = 0 }

idle-IsReady : IsReady context idle
unfolding c_string
idle-IsReady = record {
  here = refl;
  free1 = refl;
  free = refl;
  size = refl;
  terminated = omega arith;
}

abbrev malloc : ℕ → Option (List ℕ)
malloc n = some (replicate n 9)

kernel_gives_lem :
    (n : ℕ)
    → n ≤ 128
    → (b : List ℕ) × ((if leb n 4096 then some (replicate n 7) else none) ≡ some b)
kernel_gives_lem n le = (replicate n 7, ground arith)

concrete-Succeeds : Succeeds concrete malloc
concrete-Succeeds = record {
  gives = λ n le. (replicate n 9, refl, length-replicate {A = ℕ} n 9);
  kernel_gives = kernel_gives_lem;
  copies_in = λ b u n. refl;
  copies_out = λ u s n. refl;
}

rdwr_main_round_trip_example :
    (d' : Driver) × (write_then_read concrete-KernelLaws concrete-Succeeds [] []
        (b'h' ∷ b'e' ∷ b'y' ∷ [])
        idle
      ≡ done (wrote 4, printed 3 (b'h' ∷ b'e' ∷ b'y' ∷ [])) d')
rdwr_main_round_trip_example =
    rdwr_main_round_trip concrete-KernelLaws concrete-Succeeds [] [] (b'h' ∷ b'e' ∷ b'y' ∷ [])
      idle-IsReady ((λ e. cc e, (λ e. cc e, (λ e. cc e, tt))))

-- Reading takes no fourth argument, and `x` is no option.
too_many_arguments :
    rdwr_main malloc (driver_device concrete) ([] ∷ (b'r' ∷ []) ∷ [] ∷ [] ∷ []) idle
    ≡ done bad_usage idle
unfolding rdwr_main
too_many_arguments = refl

unknown_option :
    rdwr_main malloc (driver_device concrete) ([] ∷ (b'x' ∷ []) ∷ [] ∷ []) idle
    ≡ done bad_usage idle
unfolding rdwr_main
unknown_option = refl
