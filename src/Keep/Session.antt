-- ===== src/Keep/Session.antt =====
-- The operations on names, the FUSE callbacks, and a whole session of requests.
use denyfs.Prelude.{ℕ, List, [], ◌∷◌, Bool, Option, none, some}
use denyfs.Crypto.{Crypto}
use denyfs.Volume.{Vol, Res, ok, err, Errno, enoent, Op, pure, fail}
use denyfs.Volume.Frame
use denyfs.Volume.Frame.{Frame, frame, frame_rules}
use denyfs.Files.{
  Walk, walked, stopped, bad_entry, check_absent, after_lookup, give_back_inode, vol_create,
  vol_unlink, after_block, readdir_blocks, vol_readdir,
}
use denyfs.Directory.{vol_lookup}
use denyfs.Fuse.{
  ℤ, pos, negsuc, Filler, with_name, with_offset, fuse_getattr, fill_dots, fuse_readdir, fuse_open,
  fuse_read, fuse_write, fuse_create, fuse_unlink, fuse_truncate, fuse_destroy, Request, getattr,
  readdir, open_file, read, write, create, unlink, truncate, destroy, handle, serve,
}
use denyfs.Keep.{Primitives}
use denyfs.Keep.Directory.{
  read_entries-Frame, vol_lookup-Frame, add_dirent-Frame, remove_dirent-Frame, alloc_inode-Frame,
  free_inode-Frame,
}
use denyfs.Keep.Files.{vol_flush-Frame, vol_read-Frame, vol_write-Frame, vol_truncate-Frame}

module _ {c : Crypto} {R : Vol → Vol → Type 0} (p : Primitives c R) where
  open p use {order, inode, free_inodes}

  -- The walk changes the volume no more than the lookup does.
  after_lookup-Frame : (u : Vol) (r : Res ℕ × Vol) → R u r.1 → R u (after_lookup c r (pure tt)).1
  unfolding after_lookup pure fail
  after_lookup-Frame u (ok ino, v) h = h
  after_lookup-Frame u (err enoent, v) h = h
  after_lookup-Frame u (err e, v) h = h

  pub check_absent-Frame : (name : List ℕ) → Frame R (check_absent c name)
  unfolding check_absent
  check_absent-Frame name =
      frame (λ v. after_lookup-Frame v (vol_lookup c name v) (Frame.at (vol_lookup-Frame p name) v))

  give_back_inode-Frame : (ino : ℕ) → Frame R (give_back_inode ino)
  unfolding give_back_inode
  give_back_inode-Frame ino = search (frame_rules, order, inode, free_inodes) depth 12

  pub vol_create-Frame : (now : ℕ) (name : List ℕ) → Frame R (vol_create c now name)
  unfolding vol_create
  vol_create-Frame now name =
      search
        (
          frame_rules,
          order,
          check_absent-Frame,
          alloc_inode-Frame p,
          inode,
          add_dirent-Frame,
          give_back_inode-Frame,
          vol_flush-Frame,
        )
        depth 40

  pub vol_unlink-Frame : (name : List ℕ) → Frame R (vol_unlink c name)
  unfolding vol_unlink
  vol_unlink-Frame name =
      search
        (
          frame_rules, order, vol_lookup-Frame, remove_dirent-Frame, free_inode-Frame,
          vol_flush-Frame,
        )
        depth 20

  module _ {S : Type 0} where
    after_block-Frame :
        (w : S × Walk) (next : S → Op (S × Res (Unit {0})))
        → ((s : S) → Frame R (next s))
        → Frame R (after_block c w next)
    unfolding after_block
    after_block-Frame (s, walked) next h = h s
    after_block-Frame (s, stopped) next h = search (frame_rules, order)
    after_block-Frame (s, bad_entry) next h = search (frame_rules, order)

    readdir_blocks-Frame :
        (cb : S → List ℕ → ℕ → S × Bool) (bs : List ℕ) (s : S) → Frame R (readdir_blocks c cb bs s)
    unfolding readdir_blocks
    readdir_blocks-Frame cb [] s = search (frame_rules, order)
    readdir_blocks-Frame cb (b ∷ bs) s =
        let ih = readdir_blocks-Frame cb bs in
        search (frame_rules, order, read_entries-Frame, after_block-Frame, ih) depth 20

    pub vol_readdir-Frame : (cb : S → List ℕ → ℕ → S × Bool) (s : S) → Frame R (vol_readdir c cb s)
    unfolding vol_readdir
    vol_readdir-Frame cb s = search (frame_rules, order, readdir_blocks-Frame) depth 12

  with_name-Frame :
      {A : Type 0} (o : Option (List ℕ)) (e : Errno) (k : List ℕ → Op A)
      → ((name : List ℕ) → Frame R (k name))
      → Frame R (with_name o e k)
  unfolding with_name
  with_name-Frame none e k h = search (frame_rules, order)
  with_name-Frame (some name) e k h = h name

  with_offset-Frame :
      {A : Type 0} (z : ℤ) (k : ℕ → Op A) → ((n : ℕ) → Frame R (k n)) → Frame R (with_offset z k)
  unfolding with_offset
  with_offset-Frame (pos n) k h = h n
  with_offset-Frame (negsuc n) k h = search (frame_rules, order)

  fuse_getattr-Frame : (path : List ℕ) → Frame R (fuse_getattr c path)
  unfolding fuse_getattr
  fuse_getattr-Frame path = search (frame_rules, order, with_name-Frame, vol_lookup-Frame) depth 20

  fuse_readdir-Frame :
      (path : List ℕ) (f : Filler) (buf : List (List ℕ)) → Frame R (fuse_readdir c path f buf)
  unfolding fuse_readdir fill_dots
  fuse_readdir-Frame path f buf = search (frame_rules, order, vol_readdir-Frame) depth 20

  fuse_open-Frame : (path : List ℕ) → Frame R (fuse_open c path)
  unfolding fuse_open
  fuse_open-Frame path = search (frame_rules, order, with_name-Frame, vol_lookup-Frame) depth 20

  fuse_read-Frame : (path : List ℕ) (size : ℕ) (z : ℤ) → Frame R (fuse_read c path size z)
  unfolding fuse_read
  fuse_read-Frame path size z =
      search
        (frame_rules, order, with_name-Frame, with_offset-Frame, vol_lookup-Frame, vol_read-Frame)
        depth 20

  fuse_write-Frame : (now : ℕ) (path buf : List ℕ) (z : ℤ) → Frame R (fuse_write c now path buf z)
  unfolding fuse_write
  fuse_write-Frame now path buf z =
      search
        (frame_rules, order, with_name-Frame, with_offset-Frame, vol_lookup-Frame, vol_write-Frame)
        depth 20

  fuse_truncate-Frame : (now : ℕ) (path : List ℕ) (z : ℤ) → Frame R (fuse_truncate c now path z)
  unfolding fuse_truncate
  fuse_truncate-Frame now path z =
      search
        (
          frame_rules, order, with_name-Frame, with_offset-Frame, vol_lookup-Frame,
          vol_truncate-Frame,
        )
        depth 20

  fuse_create-Frame : (now : ℕ) (path : List ℕ) → Frame R (fuse_create c now path)
  unfolding fuse_create
  fuse_create-Frame now path = with_name-Frame _ _ _ (vol_create-Frame now)

  fuse_unlink-Frame : (path : List ℕ) → Frame R (fuse_unlink c path)
  unfolding fuse_unlink
  fuse_unlink-Frame path = with_name-Frame _ _ _ vol_unlink-Frame

  fuse_destroy-Frame : Frame R (fuse_destroy c)
  unfolding fuse_destroy
  fuse_destroy-Frame = search (frame_rules, order, vol_flush-Frame) depth 12

  pub handle-Frame : (now : ℕ) (r : Request) (v : Vol) → R v (handle c now r v)
  unfolding handle
  handle-Frame now (getattr path) v = Frame.at (fuse_getattr-Frame path) v
  handle-Frame now (readdir path f) v = Frame.at (fuse_readdir-Frame path f []) v
  handle-Frame now (open_file path) v = Frame.at (fuse_open-Frame path) v
  handle-Frame now (read path size z) v = Frame.at (fuse_read-Frame path size z) v
  handle-Frame now (write path buf z) v = Frame.at (fuse_write-Frame now path buf z) v
  handle-Frame now (create path) v = Frame.at (fuse_create-Frame now path) v
  handle-Frame now (unlink path) v = Frame.at (fuse_unlink-Frame path) v
  handle-Frame now (truncate path z) v = Frame.at (fuse_truncate-Frame now path z) v
  handle-Frame now destroy v = Frame.at fuse_destroy-Frame v

  pub serve-Frame : (rs : List (ℕ × Request)) (v : Vol) → R v (serve c rs v)
  unfolding serve
  serve-Frame [] v = order.same v
  serve-Frame ((now, r) ∷ rs) v =
      order.trans v (handle c now r v) (serve c rs (handle c now r v)) (handle-Frame now r v)
        (serve-Frame rs (handle c now r v))
