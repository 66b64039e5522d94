-- ===== src/Lib.antt =====
-- DenyFS, an encrypted container with an outer volume and an optional hidden one: a model of the C
-- program (src/*.c, src/*.h) and theorems about it.
--
-- The program's parts, and the files that model them:
--   src/fs.h, src/crypto.h   packed on-disk structures: Layout (superblock, inode, directory entry)
--                            and Header (volume header payload), their byte forms; Prelude.Words has
--                            the little-endian words.
--   src/crypto.c             Crypto: the wrappers around AES-XTS, AES-GCM, HMAC-SHA256 and Argon2id.
--                            OpenSSL and libsodium are the record `Crypto`, an argument of all that
--                            uses them.
--   src/fs.c                 Volume: the container file, `denyfs_volume_t`, the actions on them.
--                            Block: read_block, write_block, write_block_raw. Bitmap: alloc_block,
--                            free_block. FileMap: the blocks of a file, get_file_data_block and
--                            allocate_file_data_block. Directory: vol_lookup, add_dirent,
--                            remove_dirent. InodeTable: alloc_inode, free_inode. FileIo: vol_flush,
--                            vol_read, vol_write. Truncate: vol_truncate. Files: vol_create,
--                            vol_unlink, vol_readdir. Validate: the tests of metadata at mount time.
--                            Format: format_volume. Open: denyfs_vol_open. Container:
--                            denyfs_container_create and denyfs_container_create_hidden.
--   src/fuse_ops.c           Fuse: the callbacks, and a session, which is a list of requests with
--                            their times, served one after the other (the program runs libfuse with
--                            a single thread).
--   src/main.c               Command: what a run sees of the host (streams, calls that may fail,
--                            files by path, containers among them), passwords, options.
--                            Command.Handlers: the command handlers. Command.Main: main, from the
--                            arguments to the exit code. The C library's strtoull and atoi, the
--                            random draws, what libfuse asks and what it returns, and where a
--                            stream stands after an fseek that failed are the record `Env`.
-- Functions keep the C names without the prefix `denyfs_`. A long C function is cut into the named
-- steps that its comments mark, composed in the order of the source.
--
-- How C becomes functions. An action takes the state and returns a result beside the new state, also
-- when it fails, for a failing C function has changed the state too. `err` carries the negative
-- result; a plain -1 is `eperm`, which has that number. Host calls (fseek, fread, fwrite, fflush,
-- calloc) draw from a schedule of outcomes in the device: success, failure, or a failed write that
-- leaves other bytes in the sector. All offsets are multiples
-- of the sector size, so the container is a function from sector numbers to 4096 bytes. The bitmap
-- is a function from block numbers to bits and the inode table one from inode numbers to inodes;
-- their byte forms are made where the program writes them. Names and paths are byte lists without
-- the final NUL. Integers are numbers with the wrap-around of their width written out where the
-- code can reach it. The clock, the random draws and the filler of a directory listing are
-- arguments.
--
-- Loops are structural, over the entries of a table or a number of blocks. The loops of vol_read
-- and vol_write take fuel, the number of bytes asked for; each round moves at least one byte, since
-- the offset in a block is below the sector size.
--
-- Proofs about all operations go through Volume.Frame (what an action leaves related to where it
-- starts, one rule for each way to build an action, on any state) and Keep: a relation that the
-- primitive actions keep is kept by every operation and session. Confine, Account and Mount.Flush
-- have such relations; Files.Creating has one for what vol_create calls. Volume.Run takes a run that
-- succeeded apart; Mount uses it on denyfs_vol_open. Open.Untouched, Container.Apart and
-- Command.Keeps are relations on a container file and on the host. Volume.Yields has the rules for
-- what an action yields when it succeeds: Validate.Claiming, Validate.Direct, Validate.Unshared,
-- Validate.Owners, Validate.Exact and Validate.Inodes follow the claims of validate_loaded_metadata with them.
-- Volume.Total has the rules for runs that succeed, which FileIo.Flushing uses. These modules hold
-- abstract views: Block.Array the blocks of a volume as an array, Directory.Map the entries of a
-- directory block as a map from names to inode numbers, Directory.Walk a lookup as a walk over what
-- the blocks of the root directory decrypt to. Files.Lookup follows a creation in that view:
-- Block.Reliable is a host that does not fail, Directory.Adding, Directory.Added and Directory.Grown
-- are about add_dirent, FileIo.Flushed about the block writes of a flush, Directory.Alike about what
-- leaves the directory alone.
-- FileIo.Contents and Open.Joined, Open.Bits and Open.Reloading put what a flush writes and what
-- denyfs_vol_open reads next to each other. FileIo.Bytes and FileIo.InPlace see a
-- file whose blocks are there as an array of bytes; FileIo.Rewriting, FileIo.Rereading,
-- FileIo.SameFile and FileIo.ReadBack follow a write, a flush and a read in that view.
-- FileIo.Settled has the rules by which a reading action that succeeds comes to what it comes to on
-- a host that does not fail; FileIo.Reading uses them. Directory.Search describes the entries of a
-- directory block by their bytes.
--
-- Not modelled: the messages of the command line, its clock and the Windows variants of its
-- password input; the dashboard, a separate program; links, by which a file has several paths;
-- NULL arguments; the clearing and locking of memory that holds keys, which changes no result;
-- denyfs_vol_close, which frees memory; permission bits and O_NOATIME of the container file;
-- setrlimit, whose failure only prints a warning.
pub mod Prelude
pub mod Layout
pub mod Crypto
pub mod Volume
pub mod Block
pub mod Bitmap
pub mod FileMap
pub mod Directory
pub mod InodeTable
pub mod FileIo
pub mod Truncate
pub mod Files
pub mod Fuse
pub mod Validate
pub mod Format
pub mod Header
pub mod Open
pub mod Container
pub mod Tests
pub mod Keep
pub mod Confine
pub mod Account
pub mod Mount
pub mod Command
