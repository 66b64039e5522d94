-- ===== src/Directory/Adding.antt =====
-- src/fs.c: how an add_dirent that succeeds has left the root directory, on a host that does not
-- fail.
use denyfs.Prelude.{
  ℕ, ◌<◌, ◌^◌, ◌≡◌, ◌⊎◌, inl, inr, refl, ap, true, false, ltb→lt, ◌==◌, List, [], ◌∷◌, set, arith,
}
use denyfs.Crypto.{Crypto, XtsLaws}
use denyfs.Layout.{Dirent, direct_blocks, invalid_block, dirents_bytes}
use denyfs.Volume.{Vol, ok, update, inc32, put_inode}
use denyfs.Volume.Run.{bind-ok, require-ok, gets-ok, fail-ok, if-ok, or_fail-ok, bind-known}
use denyfs.Block.Array.{block_array, Wrote, write_block-Wrote}
use denyfs.Block.Reliable.{Reliable}
use denyfs.Bitmap.{put_bit}
use denyfs.Bitmap.Laws.{IsFirstFree, alloc_block-ok, alloc_block-put}
use denyfs.Directory.{
  Found, corrupt, at, absent, find_entry, is_free, entry_for, fresh_entries, read_entries,
  add_found, add_new_block, add_to_blocks,
}
use denyfs.Directory.Walk.{DirBlock, DirBlocks, entries_of, read_entries-reads}
use denyfs.Directory.Inserting.{Names}

Found-cases : (x : Found) → (x ≡ corrupt) ⊎ (x ≡ absent) ⊎ ((i : ℕ) × (e : Dirent) × (x ≡ at i e))
Found-cases corrupt = inl refl
Found-cases absent = inr (inl refl)
Found-cases (at i e) = inr (inr (i, e, refl))

module _ (c : Crypto) (name : List ℕ) (ino : ℕ) (v : Vol) where
  -- The entry went to a free place of block `t`.
  pub record InBlock (bs : List ℕ) (w : Vol) : Type 0 where
    pub t : ℕ
    pub i : ℕ
    pub old : Dirent
    pub meets : Names t bs
    pub block : DirBlock c v t
    pub free : find_entry is_free 0 (entries_of c v t) ≡ at i old
    pub wrote : Wrote c t (dirents_bytes (set (entries_of c v t) i (entry_for name ino))) v w

  -- The entry went to a new block `t`, which the root inode of the middle state names.
  pub record InNewBlock (w : Vol) : Type 0 where
    pub t : ℕ
    pub middle : Vol
    pub room : (v.inodes 0).block_count < direct_blocks
    pub first : IsFirstFree v t
    pub small : t < 2 ^ 31
    pub bitmap : middle.bitmap ≡ update v.bitmap t true
    pub root : middle.inodes 0 ≡ (
        let root = v.inodes 0 in
        record root {
          direct = set root.direct root.block_count t;
          block_count = inc32 root.block_count;
        })
    pub data_start : middle.sb.data_start ≡ v.sb.data_start
    pub volume_size : middle.volume_size ≡ v.volume_size
    pub array : (n : ℕ) → block_array c middle n ≡ block_array c v n
    pub wrote : Wrote c t (dirents_bytes (fresh_entries name ino)) middle w

  module _ (laws : XtsLaws c) (h : Reliable v) {u : Unit {0}} {w : Vol} where
    pub add_to_blocks-ok :
        (bs : List ℕ)
        → DirBlocks c v bs
        → add_to_blocks c name ino bs v ≡ (ok u, w)
        → InBlock bs w ⊎ (add_new_block c name ino v ≡ (ok u, w))
    unfolding add_to_blocks add_found
    add_to_blocks-ok [] d e = inr e
    add_to_blocks-ok (b ∷ bs) (here, there) e = elim (if-ok (b == invalid_block) _ _ {s = v} e) [
      | inl (_, e1) ↦ inr e1
      | inr (named, e1) ↦
          let block = here named in
          let e2 = bind-known (read_entries c b) _ (read_entries-reads c v h b block) e1 in
          by_found named block (Found-cases (find_entry is_free 0 (entries_of c v b)))
            (add_to_blocks-ok bs there) e2
    ]
      where
        at_found :
            {f g : Found}
            → f ≡ g
            → add_found c f b
                (entries_of c v b)
                (entry_for name ino)
                (add_to_blocks c name ino bs)
                v
              ≡ (ok u, w)
            → add_found c g b
                (entries_of c v b)
                (entry_for name ino)
                (add_to_blocks c name ino bs)
                v
              ≡ (ok u, w)
        at_found is e = rw (← is) e

        by_found :
            (b == invalid_block) ≡ false
            → (block : DirBlock c v b)
            → (find_entry is_free 0 (entries_of c v b) ≡ corrupt)
              ⊎ (find_entry is_free 0 (entries_of c v b) ≡ absent)
              ⊎ ((i : ℕ) × (x : Dirent) × (find_entry is_free 0 (entries_of c v b) ≡ at i x))
            → (add_to_blocks c name ino bs v ≡ (ok u, w)
                → InBlock bs w ⊎ (add_new_block c name ino v ≡ (ok u, w)))
            → add_found c
                (find_entry is_free 0 (entries_of c v b))
                b
                (entries_of c v b)
                (entry_for name ino)
                (add_to_blocks c name ino bs)
                v
              ≡ (ok u, w)
            → InBlock (b ∷ bs) w ⊎ (add_new_block c name ino v ≡ (ok u, w))
        by_found named block (inl bad) ih e = fail-ok _ _ (at_found bad e)
        by_found named block (inr (inl none_free)) ih e = elim (ih (at_found none_free e)) [
          | inl x ↦ inl (record {
            t = x.t;
            i = x.i;
            old = x.old;
            meets = inr x.meets;
            block = x.block;
            free = x.free;
            wrote = x.wrote;
          })
          | inr x ↦ inr x
        ]
        by_found named block (inr (inr (i, x, is))) ih e = inl (record {
          t = b;
          i = i;
          old = x;
          meets = inl (named, refl);
          block = block;
          free = is;
          wrote = write_block-Wrote c b _ v laws h.in_range (at_found is e);
        })

    pub add_new_block-ok : add_new_block c name ino v ≡ (ok u, w) → InNewBlock w
    unfolding add_new_block put_inode put_bit block_array
    add_new_block-ok e =
        let (room, e1) = require-ok _ _ _ (gets-ok _ _ e) in
        let (t, v1, r, e2) = bind-ok _ _ e1 in
        let r' = or_fail-ok _ _ _ r in
        let (first, bitmap) = alloc_block-ok v r' in
        let (put, small) = alloc_block-put v r' in
        let e3 = bind-known (put_inode 0 _) _ refl (gets-ok _ _ e2) in
        let middle : Vol = record v1 {
          inodes = update v1.inodes 0 (record (v1.inodes 0) {
            direct = set (v1.inodes 0).direct (v1.inodes 0).block_count t;
            block_count = inc32 (v1.inodes 0).block_count;
          });
        } in
        let start = ap (λ (x : Vol). x.vol_start_offset) put in
        let size = ap (λ (x : Vol). x.volume_size) put in
        record {
          t = t;
          middle = middle;
          room = ltb→lt _ _ room;
          first = first;
          small = small;
          bitmap = bitmap;
          root = rw put refl;
          data_start = ap (λ (x : Vol). x.sb.data_start) put;
          volume_size = size;
          array = λ n. rw put refl;
          wrote = write_block-Wrote c t _ middle laws (omega (arith, h.in_range, start, size)) e3;
        }
