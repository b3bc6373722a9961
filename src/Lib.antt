-- ===== src/Lib.antt =====
-- A model of six parts of kext_tools and the theorems that make them correct.
--
-- The query engine (QEQuery.c, QEQuery.h) builds a tree of groups and tests from a command line
-- and evaluates it on an object; kextfind (kextfind_main.c) is its client. Query/Data is the query
-- object and its setters, Query/Stack the operations that build a query (QEQueryAppendElement,
-- QEQueryAppendAndOperator, QEQueryAppendOrOperator, QEQueryStartGroup, QEQueryEndGroup and their
-- helpers), Query/Args QEQueryAppendElementFromArgs and the loop of kextfind_main.c,
-- Query/Evaluate QEQueryEvaluate. queryStack is a zipper: a group that is open is the last
-- argument of its parent in the source, and here it stands above its parent on the stack and joins
-- it when it is popped. nestingLevel wraps at 2 ^ 32. A client's callback is a function from the
-- element, the words and the error to its result and the words that it used; a callback that fails
-- keeps the query. The mutual recursion of append_element, append_and_operator and start_group is
-- on a depth, for which two is enough; the parsing loop is on fuel, for which more than the number
-- of words is enough. The other files of Query/ are proofs: Denote is the meaning of a query,
-- Grammar the expressions that a command line writes, Append, Runs, Close, After and Reads what
-- the calls do to a query while an expression is read, Invariant the group stack, Meaning and
-- RoundTrip the theorem on whole command lines, Accepts command lines that are accepted though an
-- operand is missing.
--
-- Compression (compression.c) has the Adler-32 checksum and the LZSS decoder of kernel caches and
-- mkext archives. Compression/Checksum is local_adler32, with its deferred remainders and 32-bit
-- arithmetic, Compression/Decode decompress_lzss; what the ring buffer holds before it is written
-- is a parameter. The decoder's loop is on fuel, for which the length of the source is enough.
-- Compression/Format is the stream that compress_lzss stores for a list of units, and what the
-- units stand for; Bounds, Units, Register, Stream and RoundTrip are the decoder's theorems.
--
-- The locks of kextd (kextd_watchvol.c) let kextcache lock a volume, and shutdown and reboot lock
-- them all. Volumes/Data is struct watchedVol and the module's data, and a record of what the
-- system answers in one call; Volumes/Rebuild is check_rebuild, check_boots_set_nvram, the changes
-- of media in vol_changed, and the scans for busy and for new volumes. check_rebuild and
-- check_boots_set_nvram call each other; a volume that has gained a helper partition counts as a
-- boot root then, so that the inner call makes no other one, and they are a chain of two calls
-- here. Volumes/Locks the handlers _kextmanager_lock_reboot, _kextmanager_lock_volume,
-- _kextmanager_unlock_volume and port_died with handleWatchedHandoff and handleRebootHandoff. The
-- two locks interact: a volume's unlocking may grant the reboot lock to a process that waits. All
-- loops are structural recursion on lists. Exclusion, Safety, Handlers, Handover, Requests and
-- Deaths are the proofs about the invariant of each handler, Reach has the step relation, Order
-- the order of the waiters, Limits what the error limits are for.
--
-- The kextutil lock (kextd_serialize_kextload.c) serializes the clients that load kexts, and makes
-- the kernel's requests (svc_kextd_ping of kextd_request.c) wait. Serialize/Lock is its handlers;
-- the lock's dispatch source is there until its cancel handler has run. Serialize/Holder has the
-- step relation and what a step can do to the lock.
--
-- The helper partitions (update_boot.c) are the Apple_Boot partitions that start a volume whose
-- own file system the firmware cannot read. updateBootHelpers copies the files of the booter, the
-- booters and the label to each. Helper/Data is struct updatingVol and one partition, Helper/Rps
-- FindRPSDir, eraseRPS, ucopyRPS and activateRPS, Helper/Labels moveLabels, nukeBRLabels,
-- ucopyMisc and activateMisc, Helper/Booters ucopyBooters, activateBooters and revertState,
-- Helper/Update checkBootContents, nukeFallbacks and updateBootHelpers, Helper/Erase
-- BREraseBootFiles. Every write goes to the history of the partition, so a power failure is a disk
-- of that history; how each call ends is a parameter, and a directory of files is missing, partial
-- or whole. RECERR, which drops ENOENT, is recerr; the errno that sdeepunlink leaves is that of
-- the parameter. The targets of updates that are not in the default directories are modelled, too.
-- All loops are structural. Safe, Exchange and Steps are about the directories, Kept, Reverted,
-- Stages, Phases, Outcome and Crash about the update as a whole, Restore and Rollback about the
-- booters, Loop about the loop over the partitions, Erases and Erased about what is erased,
-- Stranded about errors that are overlooked.
--
-- Kernel caches and mkext archives are stored compressed, with checksums. Archive/Memory is a
-- buffer and the memory behind it, and big-endian words; Archive/Slice is uncompressPrelinkedSlice
-- and compressPrelinkedSlice (kernelcache.c, kernelcache.h), Archive/Writer and Archive/Newest
-- createMkext1ForArch, addToMkext1 and addDataToMkext (mkext1_file.c), Archive/Entry
-- uncompressMkext1Entry (mkextunpack_main.c). They call decompress_lzss and local_adler32 of
-- Compression, with their int results and lengths, which are negative from 2 ^ 31 bytes on; what
-- compress_lzss and the lzvn library return is an argument. An archive is its descriptors and the
-- bytes behind them; the sizes of the header and of a descriptor, which are structures of the
-- system, are arguments. All loops are structural. Bounds, Stored, Added, Kexts, RoundTrip and
-- SliceTrip are the proofs.
--
-- Common has the names and lemmas that the parts share: Common/Tests the Boolean tests,
-- Common/Lists lists over the native numbers, Common/Bits `|` and `&` as arithmetic.
--
-- Not modelled: failure to allocate and to convert strings, reference counts and port rights, the
-- log; the user data of the query's callbacks; compress_lzss itself; the counters of kextd stay
-- below the size of an int; the effect of updateMount on a mount, notify(3), the re-pointing of
-- the NVRAM by kextd, and volumes that disappear or are mounted anew; sanitizeBoot, the mounting
-- of helper partitions, the drawing of labels, markNotBRDefault and paths that are too long; the
-- header of mkext archives, fat files, and the names and property lists of the kexts in an
-- archive; the tools around the kext libraries.
pub mod Common
pub mod Query
pub mod Compression
pub mod Volumes
pub mod Serialize
pub mod Helper
pub mod Archive
