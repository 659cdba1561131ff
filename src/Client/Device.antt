-- ===== src/Client/Device.antt =====
-- The driver with mutexes as the device that the program opens: the kernel's file layer calls the
-- methods and passes on what they return.
use linux_kernel_programming.Base.{Bool, true, false}
use linux_kernel_programming.Base.Words.{ℤ, pos, negsuc}
use linux_kernel_programming.Kernel.{Kernel}
use linux_kernel_programming.Mutexlock.{
  pure, ◌>>=◌, open_miscdrv_rdwr, close_miscdrv_rdwr, read_miscdrv_rdwr, write_miscdrv_rdwr,
}
use linux_kernel_programming.Client.Main.{Device}

abbrev pub succeeds : ℤ → Bool
succeeds (pos n) = true
succeeds (negsuc n) = false

abbrev pub driver_device : Kernel → Device
driver_device k = record {
  open_file = (do r ← open_miscdrv_rdwr; pure (succeeds r));
  read_file = read_miscdrv_rdwr k;
  write_file = write_miscdrv_rdwr k;
  close_file = (do r ← close_miscdrv_rdwr; pure tt);
}
