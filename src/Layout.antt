-- ===== src/Layout.antt =====
-- src/fs.h and src/crypto.h: the constants, the superblock, inode and directory entry, and their
-- packed on-disk forms. A C array is the list of its elements.
pub mod RoundTrip
use denyfs.Prelude.{
  ℕ, zero, suc, ◌+◌, ◌*◌, ◌-◌, ◌^◌, Bool, ◌==◌, List, [], ◌∷◌, ◌++◌, length, get_or, take, drop,
  replicate,
}
use denyfs.Prelude.Words.{le_bytes, le_value, word_bytes, words}

-- SECTOR_SIZE and HEADER_SIZE are both 4096.
abbrev pub sector_size : ℕ
sector_size = 4096

abbrev pub header_size : ℕ
header_size = 4096

abbrev pub max_inodes : ℕ
max_inodes = 64

abbrev pub max_name_len : ℕ
max_name_len = 251

abbrev pub inode_size : ℕ
inode_size = 128

abbrev pub direct_blocks : ℕ
direct_blocks = 20

abbrev pub pointers_per_block : ℕ
pointers_per_block = 1024

abbrev pub max_file_blocks : ℕ
max_file_blocks = 20 + 1024 + 1024 * 1024

abbrev pub max_file_size : ℕ
max_file_size = 4 * 1024 * 1024 * 1024

abbrev pub dirents_per_block : ℕ
dirents_per_block = 16

abbrev pub sb_magic : ℕ
sb_magic = 0x44656e7946533033

abbrev pub invalid_ino : ℕ
invalid_ino = 0xffff_ffff

abbrev pub invalid_block : ℕ
invalid_block = 0xffff_ffff

abbrev pub hidden_header_offset_from_eof : ℕ
hidden_header_offset_from_eof = 32768

abbrev pub long_max : ℕ
long_max = 0x7fff_ffff_ffff_ffff

abbrev pub int_max : ℕ
int_max = 0x7fff_ffff

abbrev pub uint32_max : ℕ
uint32_max = 0xffff_ffff

-- DENYFS_ITYPE_FREE, _FILE, _DIR. A `uint32_t` read from disk may be any number.
abbrev pub itype_free : ℕ
itype_free = 0

abbrev pub itype_file : ℕ
itype_file = 1

abbrev pub itype_dir : ℕ
itype_dir = 2

pub record Superblock : Type 0 where
  pub magic : ℕ
  pub block_size : ℕ
  pub total_blocks : ℕ
  pub inode_count : ℕ
  pub bitmap_start : ℕ
  pub bitmap_blocks : ℕ
  pub inode_start : ℕ
  pub inode_blocks : ℕ
  pub data_start : ℕ
  pub free_blocks : ℕ
  pub free_inodes : ℕ
  pub bitmap_hmac : List ℕ
  pub reserved : List ℕ

pub record Inode : Type 0 where
  pub type : ℕ
  pub size : ℕ
  pub block_count : ℕ
  pub direct : List ℕ
  pub indirect_block : ℕ
  pub double_indirect_block : ℕ
  pub mtime : ℕ
  pub reserved : List ℕ

pub record Dirent : Type 0 where
  pub inode : ℕ
  pub name_len : ℕ
  pub name : List ℕ

-- The packed structures as the bytes that `write_block` is handed.
unfoldable pub superblock_bytes : Superblock → List ℕ
superblock_bytes s =
    le_bytes 8 s.magic
    ++ (le_bytes 4 s.block_size
        ++ (le_bytes 4 s.total_blocks
            ++ (le_bytes 4 s.inode_count
                ++ (le_bytes 4 s.bitmap_start
                    ++ (le_bytes 4 s.bitmap_blocks
                        ++ (le_bytes 4 s.inode_start
                            ++ (le_bytes 4 s.inode_blocks
                                ++ (le_bytes 4 s.data_start
                                    ++ (le_bytes 4 s.free_blocks
                                        ++ (le_bytes 4 s.free_inodes
                                            ++ (s.bitmap_hmac ++ s.reserved)))))))))))

-- `(const denyfs_superblock_t *)buf`: each field at its offset.
unfoldable pub to_superblock : List ℕ → Superblock
to_superblock b = record {
  magic = le_value (take 8 b);
  block_size = le_value (take 4 (drop 8 b));
  total_blocks = le_value (take 4 (drop 4 (drop 8 b)));
  inode_count = le_value (take 4 (drop 4 (drop 4 (drop 8 b))));
  bitmap_start = le_value (take 4 (drop 4 (drop 4 (drop 4 (drop 8 b)))));
  bitmap_blocks = le_value (take 4 (drop 4 (drop 4 (drop 4 (drop 4 (drop 8 b))))));
  inode_start = le_value (take 4 (drop 4 (drop 4 (drop 4 (drop 4 (drop 4 (drop 8 b)))))));
  inode_blocks = le_value (take 4 (drop 4 (drop 4 (drop 4 (drop 4 (drop 4 (drop 4 (drop 8 b))))))));
  data_start =
      le_value (take 4 (drop 4 (drop 4 (drop 4 (drop 4 (drop 4 (drop 4 (drop 4 (drop 8 b)))))))));
  free_blocks =
      le_value
        (take 4 (drop 4 (drop 4 (drop 4 (drop 4 (drop 4 (drop 4 (drop 4 (drop 4 (drop 8 b))))))))));
  free_inodes = le_value (take 4 (drop 4 (tail8 b)));
  bitmap_hmac = take 32 (drop 4 (drop 4 (tail8 b)));
  reserved = drop 32 (drop 4 (drop 4 (tail8 b)));
}
  where
    tail8 : List ℕ → List ℕ
    tail8 b = drop 4 (drop 4 (drop 4 (drop 4 (drop 4 (drop 4 (drop 4 (drop 4 (drop 8 b))))))))

unfoldable pub inode_bytes : Inode → List ℕ
inode_bytes n =
    le_bytes 4 n.type
    ++ (le_bytes 8 n.size
        ++ (le_bytes 4 n.block_count
            ++ (word_bytes n.direct
                ++ (le_bytes 4 n.indirect_block
                    ++ (le_bytes 4 n.double_indirect_block
                        ++ (le_bytes 8 n.mtime ++ n.reserved))))))

unfoldable pub to_inode : List ℕ → Inode
to_inode b = record {
  type = le_value (take 4 b);
  size = le_value (take 8 (drop 4 b));
  block_count = le_value (take 4 (drop 8 (drop 4 b)));
  direct = words (take 80 (drop 4 (drop 8 (drop 4 b))));
  indirect_block = le_value (take 4 (drop 80 (drop 4 (drop 8 (drop 4 b)))));
  double_indirect_block = le_value (take 4 (drop 4 (drop 80 (drop 4 (drop 8 (drop 4 b))))));
  mtime = le_value (take 8 (drop 4 (drop 4 (drop 80 (drop 4 (drop 8 (drop 4 b)))))));
  reserved = drop 8 (drop 4 (drop 4 (drop 80 (drop 4 (drop 8 (drop 4 b))))));
}

unfoldable pub dirent_bytes : Dirent → List ℕ
dirent_bytes e = le_bytes 4 e.inode ++ (e.name_len ∷ e.name)

unfoldable pub to_dirent : List ℕ → Dirent
to_dirent b = record {
  inode = le_value (take 4 b);
  name_len = get_or (drop 4 b) 0 0;
  name = drop 1 (drop 4 b);
}

-- The entries of a directory block: `n` structures of 256 bytes.
unfoldable pub to_dirents : ℕ → List ℕ → List Dirent
to_dirents zero b = []
to_dirents (suc n) b = to_dirent (take 256 b) ∷ to_dirents n (drop 256 b)

unfoldable pub dirents_bytes : List Dirent → List ℕ
dirents_bytes [] = []
dirents_bytes (e ∷ es) = dirent_bytes e ++ dirents_bytes es

-- The inode table: `n` structures of 128 bytes, from inode `i` on. In memory the table is indexed
-- by a bounded inode number, so it is a function.
unfoldable pub inode_table_bytes : ℕ → ℕ → (ℕ → Inode) → List ℕ
inode_table_bytes i zero t = []
inode_table_bytes i (suc n) t = inode_bytes (t i) ++ inode_table_bytes (i + 1) n t

unfoldable pub to_inode_table : List ℕ → ℕ → Inode
to_inode_table b zero = to_inode (take 128 b)
to_inode_table b (suc i) = to_inode_table (drop 128 b) i

-- `memset(direct, 0xFF, …)`: the byte 0xFF four times is the word 0xFFFFFFFF.
abbrev pub no_blocks : ℕ → List ℕ
no_blocks n = replicate n invalid_block
