-- ===== src/Fs/Errno.antt =====
-- kernel/src/fs/errno.rs: error numbers with Linux's values, and the result type of the kernel.
use saeos.Prelude.{ℕ}

pub data Errno : Type 0 where
  eperm enoent eio e2big enoexec ebadf echild enomem eacces efault ebusy eexist exdev : Errno
  enodev enotdir eisdir einval emfile enotty enospc espipe erofs erange enametoolong : Errno
  enosys enotempty : Errno

-- `Errno::code`, the discriminants of the enum.
pub code : Errno → ℕ
code Errno.eperm = 1
code Errno.enoent = 2
code Errno.eio = 5
code Errno.e2big = 7
code Errno.enoexec = 8
code Errno.ebadf = 9
code Errno.echild = 10
code Errno.enomem = 12
code Errno.eacces = 13
code Errno.efault = 14
code Errno.ebusy = 16
code Errno.eexist = 17
code Errno.exdev = 18
code Errno.enodev = 19
code Errno.enotdir = 20
code Errno.eisdir = 21
code Errno.einval = 22
code Errno.emfile = 24
code Errno.enotty = 25
code Errno.enospc = 28
code Errno.espipe = 29
code Errno.erofs = 30
code Errno.erange = 34
code Errno.enametoolong = 36
code Errno.enosys = 38
code Errno.enotempty = 39

-- `FsResult<T>`.
pub data Result {ℓ} (A : Type ℓ) : Type ℓ where
  ok : A → Result A
  err : Errno → Result A
