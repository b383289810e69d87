-- ===== src/Lib.antt =====
-- nkfs, a file system of objects over block devices: a model of its core in C and what holds of it.
--
-- The program is a kernel module (core/, over the runtime of crt/) with a client (client/) and a
-- control tool (ctl/). A device carries a superblock (core/super.c), a bitmap of its blocks
-- (core/balloc.c) and a B-tree from object ids to the blocks of inodes (core/btree.c); an inode
-- (core/inode.c) has two more B-trees, from block numbers to data blocks and to their checksums. All
-- read and write blocks through the cache of clusters in core/dio.c. Requests come over sockets
-- (core/net.c, core/ksocket.c), and hosts find each other by core/route.c.
--
-- Files and code:
--   Base          tests on numbers, arrays as functions, lists of their first values, 64-bit words,
--                 and the monad in which `none` is a BUG_ON or an access outside an array.
--   Btree/Node    struct nkfs_btree_node with its pages of keys, values and children, and the
--                 accessors of a slot (core/btree.c, core/btree.h).
--   Btree/Ops     the operations on one to three nodes: copies, moves, split, merge, deletion of a
--                 slot.
--   Btree/Search  the search for a key or for the place of a key in a node.
--   Btree/Disk    a node's image on disk and its checksum (nkfs_btree_node_to_ondisk, _by_ondisk,
--                 _write, _read; include/nkfs_image.h).
--   Btree/Tree    the tree by its blocks: nkfs_btree_find_key, in Insert nkfs_btree_insert_key, in
--                 Delete nkfs_btree_delete_key, in Visit nkfs_btree_enum_tree (its calls in Calls) and
--                 nkfs_btree_stats; Leaf is a tree of one leaf as a map.
--   Core/Balloc   core/balloc.c: marking, freeing and allocating a block in the bitmap.
--   Core/Super    core/super.c: an image's header, its geometry, formatting a device (Format, Fresh),
--                 loading a header (Load), and both in a row (Reload).
--   Core/Registry core/super.c: the list of superblocks with their reference counts, and the
--                 operations that look for the superblock of an object.
--   Core/Inode    core/inode.c: the image of an inode (Image), its blocks with their checksums
--                 (Block), reading and writing bytes (Buf). Contract says what the trees promise an
--                 inode and when each block stands for one thing, Leaves that B-trees of one leaf
--                 keep it; Mapped, Grown, Undo, Allocated and
--                 Allocates follow an allocation; Sums and Summed are about checksums; Created,
--                 Creates, Grow, Written and Writes about a write within a block; Position, Stream
--                 and Streams about a write over blocks, Paged about one of pages; Reads, ReadBack and RoundTrip about reads;
--                 Waits about the lock that a read keeps.
--   Core/Pages    core/upages.c: buffers of pages.
--   Core/Net      core/net.c: a connection of the server, in Requests its requests and their dispatch;
--                 Sends, Data, Memory, Requested, GetObj, PutObj and Replies follow them.
--   Crt/Hex       crt/char2hex.c.
--   Crt/NetPkt    crt/net_pkt.c: packets (include/nkfs_net.h).
--   Crt/ObjId     crt/obj_id.c, ids of 128 bits.
--   Crt/Random    crt/random.c.
-- Each Tests file has the theorems at concrete values.
--
-- State and operations. A C function that changes a structure is a function to the new structure; one
-- that changes several returns them all. A node that is in memory is shared by its readers, so a tree
-- is one map from blocks to nodes, and nkfs_btree_node_write sets the map at the node's block. Keys of
-- 16 bytes, which the code compares with memcmp, are numbers in the same order. Errors are values:
-- `Status` of the tree, `Errno` of the allocator, `Code` of the page buffers. What the code calls
-- outside the parts modelled is a parameter: the digest of a node, a header, an inode or a cluster, the results of core/dio.c, the
-- grants of memory, the draws of random numbers, the list of blocks that the tree's allocator gives.
-- An inode has its trees by the record Trees, with the laws of Contract: they are what core/inode.c
-- relies on, and Core/Inode/Leaves has them of the program's trees of one leaf, for keys below 2 T - 1, which
-- Btree/Tree/Leaf shows; for deeper trees they are not shown, and deletion does not meet them. The
-- clusters of an inode are one map from blocks to bytes, in which a checksum is its eight bytes; the
-- images of inodes are a map of their own, as no other cluster is read as one. A wait for a lock that
-- is never given back is `none`, like a BUG_ON. A connection keeps what was written to its socket; its
-- errors are numbers, which the code keeps negated, and what its socket, its memory, the operations
-- on objects of the superblocks and the handlers of neighbours give are the records Kernel and
-- Handlers; each of the latter may stop, and may allocate and free.
--
-- Bounds and fuel. A loop over slots recurs on the rounds left. The binary search of a node has
-- one round more than the node has keys. The descent of a tree has the depth as its fuel, and the
-- theorem says that the height is enough. log2_u32 has 33 rounds for 32 bits. The digest of pages
-- has one round more than there are bytes. The loop that rejects random draws ends at the first
-- good draw, so its theorem asks for one within the fuel. Insertion and deletion have a number of
-- rounds as fuel; for a tree of one leaf one round is enough. A transfer of an inode has one round more than it has bytes, as each
-- round takes one byte at least. Sums of block numbers are cut to 64
-- bits where the allocator builds them; within a cluster they stay below the size of the bitmap,
-- which the theorems take to be below 2^64.
--
-- Not modelled: the reference counts and the cache of nodes, check and erasure of a tree; locks,
-- but for those of the allocator and the readers of an inode; the cache of inodes, their creation and
-- deletion, and the operations on an object of one superblock; user pages; the disk cache,
-- devices, routing, the lists of servers and connections, sockets, the runtimes, the memory checkers, the client and the
-- control tool, which are input and output, threads and timers, or wait for their models. xxHash and
-- SHA-256 are other projects' libraries.
pub mod Base
pub mod Crt
pub mod Core
pub mod Btree
