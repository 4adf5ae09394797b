-- ===== src/Fs/Inode/Succeeds.antt =====
-- `write_inode` of oscdfs/src/inode.c on a device without faults.
use ostd_final.Common.{ℕ, ◌<◌, ◌≡◌, false, arith}
use ostd_final.Common.Exec.{ok}
use ostd_final.Fs.State.{Device, Fs}
use ostd_final.Fs.Disk.{read_block, write_block}
use ostd_final.Fs.Inode.{Inode, inode_block, write_inode}
use ostd_final.Fs.Inode.Table.{overruns, fits}
use ostd_final.Fs.Bitmap.Succeeds.{IsHealthy}

module _ ⦃dev : Device⦄ where
  pub write_inode_ok :
      (n : ℕ) (a : Inode) (s : Fs)
      → IsHealthy dev s
      → n < 128
      → overruns n ≡ false
      → (s' : Fs) × (write_inode n a s ≡ (ok tt, s')) × IsHealthy dev s'
  unfolding write_inode read_block write_block
  write_inode_ok n a s h range whole = (
    (write_inode n a s).1,
    ground (
      arith,
      h.opened,
      h.reads s.writes (inode_block n),
      h.writes s.writes (inode_block n),
      fits n range,
    ),
    record {
      opened = ground (
        arith,
        h.opened,
        h.reads s.writes (inode_block n),
        h.writes s.writes (inode_block n),
        fits n range,
      );
      reads = h.reads;
      writes = h.writes;
    },
  )
