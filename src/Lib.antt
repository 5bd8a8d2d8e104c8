-- ===== src/Lib.antt =====
-- libllfat: access to the low-level structures of a FAT filesystem, 12, 16 or 32 bits.
--
-- The program keeps every sector and cluster it touches as a `unit` in one of two caches (lib/unit.c),
-- search trees ordered by the number of the unit. A structure `fat` (lib/fs.h) holds the caches, the
-- boot sector and what the program remembers: the bits of the FAT, the table to work on, the last
-- found free cluster, the number of free clusters. lib/boot.c reads and changes the fields of the
-- boot sector and of the information sector; lib/table.c finds the entry of a cluster in a sector of
-- a table, reads and changes it, and searches the table for free, bad or allocated clusters;
-- lib/entry.c works on the 32 bytes of a directory entry in a cluster, lib/directory.c on the chain of
-- clusters that a directory is, and lib/long.c on long names, which lie in several entries before the
-- short one. lib/fs.c opens a device as such a structure and writes the caches back when it closes.
--
--   Prelude    shared names; C integers (ℤ, `u16`, `u32`, `i32`: reduction modulo the width), lists
--              measured by native numbers, division.
--   Bytes      little-endian integers in an array of bytes.
--   Units      lib/unit.c: Block is the unit; Host the parameters, which are the search tree of
--              tsearch(3), lseek, read, write and malloc with their documented behaviour; Io the
--              transfer of a unit, with simulated errors; Cache the operations on a cache, and
--              Hits what `fatunitget` leaves in it. Device says when a device works, which is a
--              hypothesis on lseek, read and write, and Flush and Flushed are about writing a cache
--              to it.
--   Boot       lib/boot.c: Fields, Size, Root, Label, Info and Check hold the functions, under the
--              names of the code without the prefix `fatboot`. A pointer that may be NULL is an
--              `Option`; `int *bits`, the number of bits kept by the caller, is a state that is
--              passed on, absent for NULL. BestSize is the search of `fatbootbestfatsize`, Counters
--              what the setters of the information sector leave as it is.
--   Fs         lib/fs.c: State is the structure, and a call on it as a function that returns nothing
--              when the program ends by exit(3) or a fault; Geometry and Setters the functions that
--              pass the boot sector and the information sector to those of Boot; Session opening,
--              flushing and closing. Same, Saved, Stored, Reopened and Sane are about Session. What open(2)
--              and close(2) return is a parameter.
--   Table      lib/table.c: Raw is `fatgetfat` and `fatsetfat`; Next `fatgetnextcluster` and
--              `fatsetnextcluster`; Scan the searches; Position the places of clusters; DirtyBits
--              the bits in entry 1, which DirtyTrip is about; Whole reads a table and makes an
--              empty one.
--              Sectors, Flat and Place relate the cached sectors to one array of bytes per
--              table; View is what the searches rely on, and Succ the successors as a function.
--              Areas is `fatclustermostfree` and `fatclusterlongestlinear`; Find, Free, Window,
--              BestWindow and Linear are about the searches.
--   Entry      lib/entry.c: Fields, Time and Names.
--   Reference  lib/reference.c: Target is a reference, which is a directory entry, a cluster, the
--              boot sector or nothing, and its target; Move is `fatclustermove` and
--              `fatclusterswap`. A pointer to a unit stands in a reference as the number of the
--              unit, and follows the unit when that changes.
--   Directory  lib/directory.c: Names is the test of names and their stored form, with isalnum(3) and
--              toupper(3) as parameters; Tidy and Valid are about them. Walk is the walk over the
--              entries and the lookup of a name, with sscanf(3) and strcasecmp(3) as parameters, and
--              Found is about it. Free is the search for a free entry, with the extension of the
--              directory; Create the lookup of paths and the creation of a file. FreeFound, NewEntry,
--              Firsts, Grown, Created, Parts and Paths are about these.
--   Long       lib/long.c: Scan is the checksum and `struct fatlongscan`, which collects the parts of a
--              long name; Walk the walk by these names; Names the valid names and their stored form.
--              Cut is about Scan, and Legal about Names. tolower(3) is a parameter.
--   Inverse    lib/inverse.c: Slots is the table of references and its making, Moves the moving and
--              swapping of clusters with it; Filled, Moved and Swapped are about them. As the slots point to
--              units, they follow a unit whose number changes.
--   Ucs2       lib/ucs2conv.c: Encode is the conversion to UTF-8, and Decoded is about it.
--   Tests      a concrete host, boot sector, table and directory, and the theorems at them.
--
-- The boot sector of `fat` is a value of its own, not a pointer into the cache of sectors: no table
-- begins before the reserved sectors end, so no store into a table reaches it. A store through a
-- pointer to a cached unit puts the unit back into the tree.
--
-- The loops over an interval of clusters run on fuel, one more than the last cluster for a count;
-- that this is enough is part of the theorem on the count. The loops over the tables run on the
-- number of tables. `fatclusterfreechain`, `fatreferencelast` and `fatclusterlongestlinear` run on
-- fuel; the theorems on them ask for as much as there are clusters in the chain, and one says that
-- the last of them has chains for which no fuel is enough. The lookup of a name and the search for
-- a free entry ask for one more than there are entries. The lookup of a path runs on one more than
-- the bytes of the path, as every round takes at least one of them off. The search of
-- `fatbootbestfatsize` runs on fuel that its caller gives, and so do the walks by long names; no
-- theorem is about their ends.
--
-- Where a table has its sectors cached, the bits of the FAT are known, a sector has a positive multiple
-- of four bytes, and a table at most 2^30 bytes, those of 2^28 entries of 32 bits: the place of an
-- entry beyond is no `int` in `_fatclusterpos`. malloc(3) gives the block it is asked for, but for the
-- array of an inverse table; what read(2) stores of a block before it stops is a parameter.
--
-- Not modelled: printing, copying and comparing units and the reading of a file of simulated errors
-- (lib/unit.c), `fatsummary` and the unused `_sizeofdevice` (lib/fs.c), what runs over a directory
-- tree (lib/reference.c, and `fatinversecreate` in lib/inverse.c), unreachable clusters, the
-- conversion from UTF-8 (lib/ucs2conv.c), the lookup, creation and deletion by long names
-- (lib/long.c), and lib/complex.c, which stands on top of these parts.
-- lib/linux_tsearch.c and lib/portable_endian.h are copies of other libraries; tools/ are programs
-- over the library.
pub mod Prelude
pub mod Bytes
pub mod Units
pub mod Boot
pub mod Fs
pub mod Table
pub mod Entry
pub mod Directory
pub mod Reference
pub mod Inverse
pub mod Long
pub mod Ucs2
pub mod Tests
