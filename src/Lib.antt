-- ===== src/Lib.antt =====
-- A model of git-nfs, which mounts a Git repository as a writable network file system: reads come from
-- the remote repository, writes are staged on the local disk and logged, and a commit is built of them.
--
-- Parts of the program, and where they are modelled. Bytes and characters are natural numbers, a string
-- is the list of its UTF-8 bytes, machine integers are natural numbers with their wrap-around written
-- out, and a hash map is a function or an association list.
--
--   src/wal/proto.rs (Wal/Proto): the records of the write-ahead log and their framing, `encode_framed`
--     and `decode_all_framed`. The encoding of one record, which `prost` derives, is the parameter
--     `Prost`; `Encodes` says what the framing relies on.
--   src/wal/mod.rs (Wal/Manager): the manager of the active log: numbers, header, `log_mutation`. The
--     backend's writer is a parameter whose calls may fail.
--   src/wal/recovery.rs and src/wal/mod.rs (Wal/Recovery): the replay of logs on fresh inode tables and a
--     fresh staging store. Building a pack of the result is not modelled.
--   src/staging/mod.rs (Staging): the files that a session changed. The staging directory is a map from
--     node ids to contents; the operating system's calls on it succeed.
--   src/vfs/inode.rs (Vfs/State, Vfs/Inode): nodes, names and directories, which are read lazily from
--     trees of the Git engine, the parameter `Engine`. A node shared by reference stands once, in the
--     table of nodes. `get_path` walks to the root on fuel, one step per node; the fuel runs out where
--     the source would not end, which the error `stuck` shows.
--   src/vfs/filter.rs (Vfs/Filter): names of the desktop's own files.
--   src/git/tree.rs (Git/Tree): tree objects and their parser. Its loop runs on fuel, a step for each
--     byte of the tree, and an entry takes more than one byte.
--   src/git/builder.rs (Git/Builder): the new objects of a commit. The hash and `hex` are
--     parameters, the clock is an argument; the recursion over directories and the walk to the root run on
--     fuel.
--   src/git/commit_message.rs (Git/CommitMessage): the message of a commit, made of the changed paths. The
--     iteration over a hash map is the parameter `iter`.
--   src/git/pack.rs (Git/Objects, Git/Delta, Git/Pack): types and names of objects; deltas, whose loop
--     runs on fuel, a step for each byte; and unpacking, with `flate2` as the parameter `Zlib`. A
--     capacity of 2 ^ 63 bytes panics, which is an outcome; memory is not exhausted below that. Its rounds
--     over pending deltas run on fuel, a round for each delta, and every round but the last resolves one.
--   src/git/pack_writer.rs (Git/PackWriter): the pack and its index for a list of objects, in memory. The
--     loop over a size runs on fuel, nine digits of seven bits for the upper 60 bits.
--   src/git/idx.rs (Git/Idx): parsing an index, and finding an object in it. The binary search of the
--     standard library runs on fuel, the length of the list, which each round halves.
--   src/git/gcs_storage.rs (Git/Storage, Git/Refs, Git/Publish): objects that are read through the
--     indexes and the block cache, with the recursion over the bases of deltas on fuel; references and the
--     text files for clients over HTTP; and the upload of a commit. The bucket, its listing and the outcome
--     of each write are parameters. A write that fails leaves anything under the name of its object.
--   src/git/protocol.rs (Git/Protocol): packet lines and the side band. A loop runs on fuel, a round for
--     each byte, and a round takes four bytes at least.
--   src/cache/block.rs (Cache/Block): ranges of packfiles that are read through blocks. The `lru` crate is
--     the parameter `Lru`, with the laws `LruLaws`; one request runs alone.
--   src/nfs/fs.rs (Nfs): the handlers, which call the inode manager, the staging store and the log in
--     the source's order. Blobs, the caches' sizes, the owner and the lossy conversion of names are the
--     parameter `Remote`, and the clock is an argument. A handler runs alone: locks are not modelled.
--
-- Not modelled: the command line, mounting and benchmark, the cloud and HTTP clients, the caches of
-- blobs, the log's backends, writing a pack to local files, prefetching blocks of a pack, and the copy of a
-- whole pack on the local disk: these are calls of other systems with little logic of their own.
--
-- The modules Prelude, Bytes and Text hold what the parts share: lists over the native numbers, results,
-- the monad `Exec` of methods that keep their changes when they fail, bit operations, and the text
-- functions of the standard library that the source calls.
pub mod Prelude
pub mod Bytes
pub mod Text
pub mod Git
pub mod Staging
pub mod Vfs
pub mod Wal
pub mod Nfs
pub mod Cache
