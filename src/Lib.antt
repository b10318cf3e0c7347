-- ===== src/Lib.antt =====
-- Verification of par2cmdline-turbo.
--
-- The program creates, verifies and repairs PAR2 recovery sets. The creator cuts the source files
-- into blocks and computes recovery blocks, which it spreads over recovery files together with
-- critical packets; the repairer loads the packets, scans files for blocks that it knows by
-- checksum and hash, and rebuilds the missing blocks.
--
-- The parts and their files:
--   Letype: the little-endian fields of include/par2/letype.h, which every packet is made of.
--   Md5Hash: the comparisons of include/par2/md5.h.
--   Crc: include/par2/crc.h and src/crc.cpp: the table and the update by a buffer, and in Powers the
--     multiplication, the update by zeros, and the table by which the CRC of a window is moved on.
--   FileCheckSummer: src/filechecksummer.cpp and include/par2/filechecksummer.h, with pointers as
--     offsets into the buffer. Kept and Filling are about `Fill`, Computing about
--     `ComputeCurrentChecksum`, Sliding and Stepping about `Step`, Starting about `Start`,
--     Keeping and Jumping about `Jump`; Scan has the invariant, Moves the sequences of calls, and
--     Matching is about `FindMatch` when it is asked with this class.
--   CriticalPacket: `CriticalPacket::CompareLess` of src/criticalpacket.cpp, by which the creator
--     sorts packets.
--   Utf8: `Latin1ToUtf8` of src/utf8.cpp.
--   Filename: the translations of filenames of src/descriptionpacket.cpp, by which a name goes
--     into a packet and comes out of one.
--   HashTable: include/par2/verificationhashtable.h and src/verificationhashtable.cpp. Tree has the
--     search trees with the chains of equal entries, Table the buckets, `SetLimit` and `Load`,
--     Match `FindMatch`. Entries have addresses (`ident`), which stand for pointers.
--   DataBlock: src/datablock.cpp and include/par2/datablock.h, through which the data of a block is
--     read and written.
--   Creator: Sizes has `ComputeBlockCount`, Chunks `CalculateProcessBlockSize` and the loop of
--     `Process` of src/par2creator.cpp, FileCount `ComputeRecoveryFileCount` of src/libpar2.cpp,
--     RecoveryCount `ComputeRecoveryBlockCount` and BlockSize `ComputeBlockSize` of
--     src/commandline.cpp, and Allocation the `switch` of `InitialiseOutputFiles` of
--     src/par2creator.cpp.
--   Packets: the header of include/par2/par2fileformat.h; Main has src/mainpacket.cpp, Loads the
--     `Load` functions of the other packets, Description `Create` and the setters of
--     src/descriptionpacket.cpp. The disk is a function from an offset and a length to bytes.
--   Galois: `Galois8` of include/par2/galois.h, as a u8, with the tables of logarithms.
--   ReedSolomon: the matrix of include/par2/reedsolomon.h and src/reedsolomon.cpp. Field is the
--     interface that the template parameter `g` has to fill, and Bytes fills it with `Galois8`.
--     Built says what the object holds after `SetInput` and `SetOutput`, Recovery what
--     `Compute` leaves in the left matrix, and Process has `InternalProcess`.
--   Par1: `ComputeRSmatrix` and `ProcessData` of src/par1repairer.cpp, by which a PAR 1.0 set is
--     repaired.
--   Tests: the theorems at concrete inputs.
-- Prelude and Bits hold what these share.
--
-- Bytes are natural numbers, strings and buffers are lists of them, and arithmetic on u32 and u64
-- is written with its wrap-around. The loops that are not structural take fuel: `table_size` 9
-- rounds, since it doubles from 256 up to 65536; `count_bits` and `low_block_count` 32, since 32
-- bits are shifted away; `replace_parents` one more than the length of the name, since each round
-- takes two dots away; `search_size` one more than the upper bound of the size, since each round
-- brings the bounds closer; `chunks_from` the size of a block, since each round takes a byte at least;
-- `exp8_rounds` 32, since the number has 32 bits; `scan_loop` the size of the file, since each jump
-- moves on by a byte at least.
--
-- MD5 and the other functions of the hasher library, `DiskFile::Read` and `DiskFile::Write`, and
-- `std::sort` are parameters. What `FindMatch` asks about a window of a file is a record, which
-- Matching fills with a `FileCheckSummer`. Not modelled are the repairer of PAR2 sets,
-- the rest of the command line and of the PAR 1.0 repairer; input and output, messages, threads
-- and deallocation; the vendored ParPar engine; and the branches for Windows.
pub mod Bits
pub mod Crc
pub mod Creator
pub mod CriticalPacket
pub mod DataBlock
pub mod FileCheckSummer
pub mod Filename
pub mod Galois
pub mod HashTable
pub mod Letype
pub mod Md5Hash
pub mod Packets
pub mod Par1
pub mod Prelude
pub mod ReedSolomon
pub mod Tests
pub mod Utf8
