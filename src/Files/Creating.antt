-- ===== src/Files/Creating.antt =====
-- src/fs.c: what denyfs_vol_create calls keeps the types of the inodes.
use denyfs.Prelude.{ℕ, zero, suc, ◌+◌, ◌≡◌, ◌≢◌, refl, ap, ◌∙◌, List, [], ◌∷◌, arith}
use denyfs.Crypto.{Crypto}
use denyfs.Layout.{Inode, Dirent}
use denyfs.Volume.{Device, Vol, Exec, Op, on_device, put_inode, put_hmac, clear_dirty}
use denyfs.Volume.Frame.{Frame, frame, IsPreorder, frame_rules}
use denyfs.Block.{read_block, write_block}
use denyfs.Bitmap.{put_bit, alloc_block}
use denyfs.Bitmap.Cases.{alloc_block-cases}
use denyfs.Directory.{
  Found, corrupt, at, absent, read_entries, lookup_found, lookup_blocks, vol_lookup, add_new_block,
  add_found, add_to_blocks, add_dirent,
}
use denyfs.FileIo.{flush_bitmap, flush_inodes, vol_flush}

-- The types of all inodes but the root's stay, and so does their count.
pub record SameTypes (v w : Vol) : Type 0 where
  pub types : (k : ℕ) → k ≢ 0 → (w.inodes k).type ≡ (v.inodes k).type
  pub count : w.sb.free_inodes ≡ v.sb.free_inodes

pub SameTypes-order : IsPreorder SameTypes
SameTypes-order = record {
  same = λ v. record { types = λ k h. refl; count = refl };
  trans =
      λ u v w p q. record { types = λ k h. q.types k h ∙ p.types k h; count = q.count ∙ p.count };
}

in_place : {v w : Vol} → w.inodes ≡ v.inodes → w.sb.free_inodes ≡ v.sb.free_inodes → SameTypes v w
in_place e h = record { types = λ k _. ap (λ f. (f k).type) e; count = h }

on_device-SameTypes : {A : Type 0} (m : Exec Device A) → Frame SameTypes (on_device m)
unfolding on_device
on_device-SameTypes m = frame λ v. in_place refl refl

root-SameTypes : (x : Inode) → Frame SameTypes (put_inode 0 x)
unfolding put_inode
root-SameTypes x = frame λ v. record { types = λ k h. ground arith; count = refl }

alloc_block-SameTypes : Frame SameTypes alloc_block
unfolding put_bit
alloc_block-SameTypes =
    frame
      λ v. alloc_block-cases (SameTypes v) (SameTypes-order.same v) λ i found. in_place refl refl

put_hmac-SameTypes : (d : List ℕ) → Frame SameTypes (put_hmac d)
unfolding put_hmac
put_hmac-SameTypes d = frame λ v. in_place refl refl

clear_dirty-SameTypes : Frame SameTypes clear_dirty
unfolding clear_dirty
clear_dirty-SameTypes = frame λ v. in_place refl refl

module _ (c : Crypto) where
  read_block-SameTypes : (n : ℕ) → Frame SameTypes (read_block c n)
  unfolding read_block
  read_block-SameTypes n = search (frame_rules, SameTypes-order, on_device-SameTypes) depth 20

  write_block-SameTypes : (n : ℕ) (b : List ℕ) → Frame SameTypes (write_block c n b)
  unfolding write_block
  write_block-SameTypes n b = search (frame_rules, SameTypes-order, on_device-SameTypes) depth 20

  read_entries-SameTypes : (n : ℕ) → Frame SameTypes (read_entries c n)
  unfolding read_entries
  read_entries-SameTypes n = search (frame_rules, SameTypes-order, read_block-SameTypes) depth 12

  lookup_found-SameTypes :
      (f : Found) (next : Op ℕ) → Frame SameTypes next → Frame SameTypes (lookup_found c f next)
  unfolding lookup_found
  lookup_found-SameTypes corrupt next h = search (frame_rules, SameTypes-order)
  lookup_found-SameTypes (at i e) next h = search (frame_rules, SameTypes-order)
  lookup_found-SameTypes absent next h = h

  lookup_blocks-SameTypes : (name bs : List ℕ) → Frame SameTypes (lookup_blocks c name bs)
  unfolding lookup_blocks
  lookup_blocks-SameTypes name [] = search (frame_rules, SameTypes-order)
  lookup_blocks-SameTypes name (b ∷ bs) =
      let ih = lookup_blocks-SameTypes name bs in
      search (frame_rules, SameTypes-order, read_entries-SameTypes, lookup_found-SameTypes, ih)
        depth 12

  pub vol_lookup-SameTypes : (name : List ℕ) → Frame SameTypes (vol_lookup c name)
  unfolding vol_lookup
  vol_lookup-SameTypes name =
      search (frame_rules, SameTypes-order, lookup_blocks-SameTypes) depth 12

  add_new_block-SameTypes : (name : List ℕ) (ino : ℕ) → Frame SameTypes (add_new_block c name ino)
  unfolding add_new_block
  add_new_block-SameTypes name ino =
      search
        (frame_rules, SameTypes-order, alloc_block-SameTypes, root-SameTypes, write_block-SameTypes)
        depth 20

  add_found-SameTypes :
      (f : Found) (b : ℕ) (es : List Dirent) (e : Dirent) (next : Op (Unit {0}))
      → Frame SameTypes next
      → Frame SameTypes (add_found c f b es e next)
  unfolding add_found
  add_found-SameTypes corrupt b es e next h = search (frame_rules, SameTypes-order)
  add_found-SameTypes (at i old) b es e next h = write_block-SameTypes _ _
  add_found-SameTypes absent b es e next h = h

  add_to_blocks-SameTypes :
      (name : List ℕ) (ino : ℕ) (bs : List ℕ) → Frame SameTypes (add_to_blocks c name ino bs)
  unfolding add_to_blocks
  add_to_blocks-SameTypes name ino [] = add_new_block-SameTypes name ino
  add_to_blocks-SameTypes name ino (b ∷ bs) =
      let ih = add_to_blocks-SameTypes name ino bs in
      search
        (
          frame_rules, SameTypes-order, read_entries-SameTypes, add_found-SameTypes,
          add_new_block-SameTypes, ih,
        )
        depth 12

  pub add_dirent-SameTypes : (name : List ℕ) (ino : ℕ) → Frame SameTypes (add_dirent c name ino)
  unfolding add_dirent
  add_dirent-SameTypes name ino =
      search (frame_rules, SameTypes-order, add_to_blocks-SameTypes) depth 12

  flush_bitmap-SameTypes : (i n : ℕ) → Frame SameTypes (flush_bitmap c i n)
  unfolding flush_bitmap
  flush_bitmap-SameTypes i zero = search (frame_rules, SameTypes-order)
  flush_bitmap-SameTypes i (suc n) =
      let ih = flush_bitmap-SameTypes (i + 1) n in
      search (frame_rules, SameTypes-order, write_block-SameTypes, ih) depth 20

  flush_inodes-SameTypes : (i n : ℕ) → Frame SameTypes (flush_inodes c i n)
  unfolding flush_inodes
  flush_inodes-SameTypes i zero = search (frame_rules, SameTypes-order)
  flush_inodes-SameTypes i (suc n) =
      let ih = flush_inodes-SameTypes (i + 1) n in
      search (frame_rules, SameTypes-order, write_block-SameTypes, ih) depth 20

  pub vol_flush-SameTypes : Frame SameTypes (vol_flush c)
  unfolding vol_flush
  vol_flush-SameTypes =
      search
        (
          frame_rules, SameTypes-order, write_block-SameTypes, flush_bitmap-SameTypes,
          flush_inodes-SameTypes, on_device-SameTypes, put_hmac-SameTypes, clear_dirty-SameTypes,
        )
        depth 40
