-- ===== src/Tests/Names.antt =====
-- The name "a" and the small volume's allocator.
use denyfs.Prelude.{
  set, drop, bytes_eq, if◌then◌else◌, ℕ, ◌≡◌, ◌↔◌, refl, some, List, [], ◌∷◌, true, any, arith,
}
use denyfs.Bitmap.{alloc_block, free_block}
use denyfs.Bitmap.Laws.{free_block-alloc_block}
use denyfs.Directory.{valid_dirent, has_name, entry_for, free_entry, is_free, find_entry, at}
use denyfs.Directory.Search.{Ends, find_entry-Ends}
use denyfs.Directory.Map.{named, insert-named, remove-named}
use denyfs.Layout.{Dirent, to_dirents, dirents_bytes}
use denyfs.Layout.RoundTrip.{to_dirents-dirents_bytes}
use denyfs.Directory.Names.{NameIn, entry_for-valid, path_to_name-some}
use denyfs.Files.{good_name, vol_create}
use denyfs.Files.Counted.{InodesCounted, vol_create-InodesCounted}
use denyfs.InodeTable.Count.{count_free_inodes}
use denyfs.Fuse.{path_to_name}
use denyfs.Format.{format_superblock, format_bitmap, format_inodes}
use denyfs.Volume.{pure}
use denyfs.Tests.{plain, small, path_a}

abbrev name_a : List ℕ
name_a = b'a' ∷ []

free_block-alloc_block_example :
    ((b : ℕ) → (free_block 5 (alloc_block small).1).1.bitmap b ≡ small.bitmap b)
    × ((free_block 5 (alloc_block small).1).1.sb.free_blocks ≡ small.sb.free_blocks)
unfolding alloc_block format_superblock format_bitmap pure
free_block-alloc_block_example = free_block-alloc_block small {i = 5} (omega arith) refl

entry_for-valid_example :
    (valid_dirent (entry_for name_a 1) ≡ true) × (has_name name_a (entry_for name_a 1) ≡ true)
unfolding good_name any
entry_for-valid_example = entry_for-valid name_a 1 refl refl (omega arith) (omega arith)

path_to_name-some_example : (path_to_name path_a ≡ some name_a) ↔ NameIn path_a name_a
path_to_name-some_example = path_to_name-some path_a name_a

-- The file "ab" in inode 1, and a free entry.
abbrev name_ab : List ℕ
name_ab = b'a' ∷ b'b' ∷ []

abbrev entries : List Dirent
unfolding entry_for free_entry
entries = entry_for name_ab 1 ∷ free_entry ∷ []

find_entry-Ends_example : Ends name_ab 0 entries (at 0 (entry_for name_ab 1))
unfolding find_entry entries entry_for free_entry has_name
find_entry-Ends_example = find_entry-Ends name_ab entries

insert-named_example :
    named name_ab (set entries 1 (entry_for name_a 2))
    ≡ (if bytes_eq name_a name_ab then some 2 else named name_ab entries)
unfolding find_entry entries entry_for free_entry has_name is_free
insert-named_example =
    insert-named name_a name_ab 2 entries 1 free_entry (omega arith) (ground arith) refl refl

remove-named_example :
    named name_a (set entries 0 free_entry)
    ≡ (if bytes_eq name_ab name_a then named name_ab (drop 1 entries) else named name_a entries)
unfolding find_entry entries entry_for free_entry has_name
remove-named_example = remove-named name_ab name_a entries 0 (entry_for name_ab 1) refl

to_dirents-dirents_bytes_example : to_dirents 2 (dirents_bytes entries) ≡ entries
unfolding entries entry_for free_entry
to_dirents-dirents_bytes_example =
    to_dirents-dirents_bytes entries (omega arith, refl, (omega arith, refl, tt))

small-InodesCounted : InodesCounted small
unfolding count_free_inodes format_superblock format_inodes
small-InodesCounted = refl

vol_create-InodesCounted_example : InodesCounted (vol_create plain 9 name_a small).1
vol_create-InodesCounted_example = vol_create-InodesCounted plain 9 name_a small small-InodesCounted
