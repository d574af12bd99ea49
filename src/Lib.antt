-- ===== src/Lib.antt =====
-- Verification of the storage core and of the key ratchet of core-3nweb-client-lib.
--
-- The program keeps a user's encrypted objects in local folders and synchronises them with a server.
-- An object has versions. The bytes of a version lie in a file whose layout is a list of chunks, kept
-- at the end of the file in a binary form; which versions exist, which of them are archived and which
-- is stored as a difference on which, is kept in a JSON file beside them. This library models the
-- parts that decide what is stored, what is spared, what is uploaded and what is read back, and the
-- keys that messages to a correspondent are encrypted with.
--
-- * BigEndian (ts-code/lib-common/big-endian.ts): integers in byte arrays. A function that writes
--   into an array returns the new array. Its errors are values of Outcome, as in every other part.
-- * SegsChunk and V1Format (ts-code/lib-common/objs-on-disk/file-layout.ts, v1-obj-file-format.ts):
--   chunks of a file's layout and their bytes. `Buffer.allocUnsafe` is the parameter `alloc`, of
--   which only the length is known; the theorems show what does not depend on the memory it gives.
-- * LayoutChunks and ObjLayout (ts-code/lib-common/objs-on-disk/file-layout.ts, and diffToLayout of
--   utils.ts beside it): the chunks of a layout and the class that holds them. The abstract view of
--   chunks is LayoutChunks/Places: where each byte of a version is. ObjLayout/Bytes reads bytes from
--   the version's file and its base, ObjLayout/Params models the absorption of a base and diffs, and
--   ObjLayout/Absorption shows that absorbing a base keeps them. An array that is cut at an index is
--   a pair of lists, and a loop from the last chunk down goes through a list that begins with the
--   last chunk.
-- * BytesFifo (ts-code/lib-common/byte-streaming/bytes-fifo-buffer.ts): the queue of byte arrays
--   between a stream's two ends, against a plain list of bytes.
-- * Versions (ts-code/core/storage/common/obj-info-file.ts): the versions info that is common to
--   local and synced storages, with the removal of links and the set of versions that the garbage
--   collection spares.
-- * StatusInfo and ObjStatus (ts-code/core/storage/synced/obj-status.ts): the status of an object in
--   a synced storage, that is its local versions, the versions on the server, the marker of the last
--   synced one, and a started upload or removal. A method gives the changed status with what it
--   returns or throws, and `saves` counts the requests to save it; a change that is left behind by
--   a method that fails is kept. What garbage collection is to keep is in StatusInfo/Kept.
--   ObjStatus/Recorded is about all methods together, and says which of them may leave the indicator of
--   the state behind.
-- * UpSyncer (ts-code/core/storage/synced/upsyncer.ts): uploads of versions to the server. A task
--   makes one request at a time, and a run of it is a list of the server's replies, each with whether
--   files can be moved on the disk. The server itself is not in the repository: UpSyncer/Server says
--   what it holds of the requests that it saved, and UpSyncer/Whole, Progress, Ending, Delivery and
--   Upload compare the source's requests with that. The task shares its info with the ObjStatus of the
--   object, which it records its progress in. UpSyncer/Pieces is about diff uploads, and
--   UpSyncer/Syncer about the maps of tasks. A request that is not answered is taken not to have reached
--   the server: what a server does with one whose answer gets lost is not documented in the repository.
-- * ObjGc (ts-code/core/storage/synced/obj-files-gc.ts, with ObjGc/LocalObjects for
--   ts-code/core/storage/local/obj-files-gc.ts): which files of an object's folder are removed, given
--   what ObjStatus says of its versions, and the order in which objects are taken. ObjGc/Spared joins
--   this with Versions: what a version is built on stays on the disk. ObjGc/Garbage says which versions
--   are garbage, and ObjGc/Requests what becomes of requests for collection.
-- * LocalStatus (ts-code/core/storage/local/obj-status.ts): the same for an object in a local storage.
-- * JsonSaving (ts-code/core/storage/common/json-saving.ts): the process that writes a status to its
--   file while the status goes on changing, as a relation between states. Steps are a change of the
--   value, a trigger, and the end of a write.
-- * ExecPools (ts-code/lib-common/processes/labelled-exec-pools.ts): the pools that call `process` of
--   upload tasks, as a relation between states of a pool. A step is an addition of a task, the end of
--   a task's processing, a pause, a start or a stop.
-- * Keyring (ts-code/core/keyring/correspondent-keys.ts, and id-to-email-map.ts beside it): the pairs
--   of keys for one correspondent, the index that the keyring keeps of their ids, and the ratchet from
--   suggested pairs to pairs in use. Ids, emails and keys are numbers, which the code only compares;
--   key generation, the shared key of two keys, random numbers and the clock are the record `Given`.
--
-- Numbers are the natural numbers: every number in these parts is a size, an offset, a version or a time.
-- An object that the source changes in place is a record, and a method returns the changed record.
-- JavaScript's `undefined` is `none`; a number as a condition is true if it is there and not 0.
-- Messages of exceptions are left out, an exception is its kind.
--
-- Loops that are not over a list take a number of rounds. The removal of links is given one round
-- more than there are links, since each round deletes one. The walk from a version down to its bases
-- is given the version's number and two, since links lead to smaller numbers; for links that a
-- broken file might hold in a circle the source stops at the first repetition, and the model may stop
-- earlier. The reader of a layout is given as many rounds as there are bytes. The list of bases of a local
-- version is collected in one round more than the first base's number, for the same reason, and the
-- removal of archived versions that the server does not have goes once over the list. The decimal of
-- a version is given one digit more than the version's number, and the collection of all waiting
-- objects as many rounds as there are of them and two.
--
-- Not modelled: encryption, network, files and processes, which are calls of libraries and of the
-- platform; reading and parsing of the JSON files; the order in which asynchronous calls run, other
-- than the writes of JsonSaving, the steps of upload tasks and of their pools, and the requests and
-- turns of garbage collection; and the parts of the program outside of the files named above.
pub mod Base
pub mod BigEndian
pub mod BytesFifo
pub mod ExecPools
pub mod JsonSaving
pub mod Keyring
pub mod LayoutChunks
pub mod LocalStatus
pub mod ObjGc
pub mod ObjLayout
pub mod ObjStatus
pub mod SegsChunk
pub mod StatusInfo
pub mod UpSyncer
pub mod V1Format
pub mod Versions
