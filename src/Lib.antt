-- ===== src/Lib.antt =====
-- The engine that copies files to, from and between storage services, and the sync command.
--
-- Enumerating: the command line lists a source. Each object found (`StoredObject` in Object.antt,
-- of cmd/zc_enumerator.go) passes through filters (Filter.antt, of cmd/zc_filter.go;
-- Filter/Chain.antt is the order a sync gives them in). In a sync it is compared with an index of
-- the other side (Sync.antt, of cmd/syncIndexer.go and cmd/syncComparator.go); Sync/Delete.antt
-- deletes what the source does not have, and Sync/Finalize.antt is the end of a sync of either
-- direction (cmd/syncProcessor.go and cmd/syncEnumerator.go). What is to be copied is gathered into
-- parts of a job by `copyTransferProcessor` (Scheduler.antt, of cmd/zc_processor.go), which are
-- sent to the engine.
--
-- Transferring: the engine keeps each part's transfers in a memory-mapped plan. Plan.antt has the
-- fields that change during a job (ste/JobPartPlan.go and common/atomicmorph.go), Plan/File.antt
-- the file that `Create` writes for an order (ste/JobPartPlanFileName.go), and Plan/Reading.antt
-- what later runs read from it (ste/JobPartPlan.go). Job/Part.antt is the part's counting of
-- finished transfers (ste/mgr-JobPartMgr.go), Job/Manager.antt the job's handler that waits for all
-- parts and sets the final status (ste/mgr-JobMgr.go), with what a resume does to it
-- (jobsAdmin/init.go), and Job/Summary.antt the goroutine that keeps the summary for the front end
-- (ste/jobStatusManager.go). Status.antt has the statuses themselves (common/fe-ste-models.go).
--
-- Downloading a file (ste/xfer-remoteToLocal-file.go): Download/Start.antt is `remoteToLocal_file`
-- with its reasons not to begin, Download/Chunks.antt its loop over the chunks, and
-- Download/Epilogue.antt `epilogueWithCleanupDownload`, which flushes, checks, renames or deletes
-- the file, calls the downloader's epilogue (ste/downloader-azureFiles.go) and reports;
-- Download/Md5.antt is the check of the hash (ste/md5Comparer.go). They work on the transfer
-- manager of Download.antt (ste/mgr-JobPartTransferMgr.go), whose `ReportChunkDone` runs the
-- epilogue at the last chunk; Download/Run.antt puts the events of a download in sequence. A
-- download takes memory from a limiter (Limiter.antt, of common/cacheLimiter.go) for each chunk and
-- gives the chunks to a writer that brings them in order (Writer.antt, of
-- common/chunkedFileWriter.go). The slices for chunks come from pools by size class
-- (SlicePool.antt, of common/multiSizeSlicePool.go), and how many chunks wait for what is counted
-- in ChunkStatus.antt (common/chunkStatusLogger.go). Folders are tracked by Folders/Deletion.antt
-- (common/folderDeletionManager.go) and Folders/Creation.antt (ste/folderCreationTracker.go), and
-- Destination.antt is the lock that a transfer takes on its destination
-- (common/exclusiveStringMap.go and ste/mgr-JobPartTransferMgr.go).
--
-- Sending (ste/xfer-anyToRemote-file.go): Upload/Start.antt is `anyToRemote_file` with its reasons
-- not to begin, Upload.antt its `scheduleSendChunks`, the loop that schedules the chunks of an
-- upload or a copy, and that reads the chunks of a local file ahead and hashes them, and
-- Upload/Epilogue.antt `epilogueWithCleanupSendToRemote`, which checks the source and the length at
-- the destination and reports. Upload/Transfer.antt puts them together with the events of
-- Download/Run.antt, since uploads and downloads share the transfer manager. The chunks of a local
-- file are read by ChunkReader.antt (common/singleChunkReader.go), and BlockBlob.antt is the sender
-- that stages them as blocks and commits the list (ste/sender-blockBlob.go,
-- ste/sender-blockBlobFromLocal.go, ste/putListNeed.go). The bodies of requests ask the token
-- bucket of Pacer.antt (ste/pacer-tokenBucketPacer.go), which keeps them to a rate.
--
-- How it is modelled: a struct is a record and a method a function on it, named after the method. A
-- method that panics or fails returns an option or a sum. Integers are natural numbers with the
-- wrap-around of their width written out. A goroutine is a function on the messages it receives;
-- where goroutines share memory without a lock, as in the limiter and the pacer, each atomic
-- operation is a step of a relation. Maps are association lists. Recursion is on lists, paths and
-- the messages received, and the writer's loop over the waiting chunks takes at most one round more
-- than there are such chunks, a number that the definition computes. Fuel: the loops that schedule
-- the chunks of a download and of an upload take `rounds`, two more than the quotient of the sizes,
-- a round for each chunk, of which there is at most one more than the quotient, and one for the
-- test that ends the loop; the logarithm and the count of bits of a slice's length take 64 rounds,
-- one for each bit.
--
-- Parameters: floating-point arithmetic (the stricter limit of the limiter), the operating system's
-- writes, `strings.ToLower`, `strings.EqualFold`, `strings.Contains`, `strings.HasPrefix`,
-- `strings.ReplaceAll`, `path.Match` and `regexp.MatchString` of Go's library, the engine's answer
-- to a part (`Engine` says that it takes every part, as jobsAdmin/init.go does), what the user
-- answers and what the deletion of an object gives in a sync, the encoding of paths, how Go lays a
-- struct out in memory (`Image`, with the law that a struct is read back as it was written), what
-- the calls of the operating system and of other components answer during a download (`Beginning`
-- and `Ending`) and an upload (`Answers` and `Sender`), what the disk gives to a reader of a chunk
-- (`Fetch`), the blob service (`BlobService`, with the documented effects of its calls as laws),
-- what the clock lets the pacer release, and the functions that callers hand over.
--
-- Not modelled: the filters by date and by Windows file attributes, security descriptors, the other
-- senders and the downloaders, which are mostly calls of storage services, authentication, the
-- console, the retries of a chunk's body, the settings in the header of a plan file, the tuning of
-- rate and concurrency, which computes with floating-point numbers, and the parsing of the command
-- line.
pub mod Prelude
pub mod Status
pub mod Plan
pub mod Job
pub mod Limiter
pub mod Writer
pub mod Object
pub mod Scheduler
pub mod Sync
pub mod Filter
pub mod Folders
pub mod Destination
pub mod Download
pub mod SlicePool
pub mod ChunkStatus
pub mod Upload
pub mod ChunkReader
pub mod Pacer
pub mod BlockBlob
pub mod Tests
