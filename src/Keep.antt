-- ===== src/Keep.antt =====
-- Every function of src/fs.c that takes an open volume, over an arbitrary preorder on volumes: what
-- the smallest actions keep, all of them keep, on every path and under every failure of the host.
use denyfs.Prelude.{ℕ, Bool, List}
use denyfs.Layout.{Inode}
use denyfs.Crypto.{Crypto}
use denyfs.Volume.{Vol, Op, put_inode, put_free_inodes, put_hmac, clear_dirty, on_device}
use denyfs.Volume.Frame.{Frame, IsPreorder}
use denyfs.Block.{read_block, write_block, fflush}
use denyfs.Bitmap.{alloc_block, free_block}
pub mod FileMap
pub mod Directory
pub mod Files
pub mod Session
pub mod Front

-- The smallest actions keep `R`.
pub record Primitives (c : Crypto) (R : Vol → Vol → Type 0) : Type 0 where
  pub order : IsPreorder R
  pub read : (n : ℕ) → Frame R (read_block c n)
  pub write : (n : ℕ) (b : List ℕ) → Frame R (write_block c n b)
  pub alloc : Frame R alloc_block
  pub free : (n : ℕ) → Frame R (free_block n)
  pub inode : (ino : ℕ) (x : Inode) → Frame R (put_inode ino x)
  pub free_inodes : (n : ℕ) → Frame R (put_free_inodes n)
  pub hmac : (d : List ℕ) → Frame R (put_hmac d)
  pub flush : Frame R (on_device fflush)
  pub clear : Frame R clear_dirty
