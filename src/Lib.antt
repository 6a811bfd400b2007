-- ===== src/Lib.antt =====
-- A model of fractal-block-sync, which mirrors raw blocks of a Bitcoin-like node to an object store
-- (`upload`) and feeds a node that lags behind with blocks from there (`submit`).
--
-- The program and its parts:
--   rangeindex/rangeindex.go   the index objects: 32 bytes for each height of a range. RangeIndex.antt
--                              has every function; Bounds, Keys, RoundTrip and Reads below it are the
--                              proofs. Text.antt, Text/Decimal.antt and Hex.antt stand for what the
--                              package uses of strings, fmt and encoding/hex.
--   blockhash/blockhash.go     the hash of a raw block: BlockHash.antt, over crypto/sha256, which
--                              Sha256.antt writes out.
--   btcrpc/client.go           BtcRpc.antt has the reply records. BtcRpc/Client has the options, New,
--                              Call and the methods; Cookie and Replies below it are the proofs.
--   sync.go, SubmitNext        Submit.antt. Submit/Services has the interfaces BlockSubmitter and
--                              ObjectDownloader and the configuration, Tips has bestChainTip, Walk has
--                              resolveRecentHash, Resolve has resolveTargetHash and
--                              resolveTargetHashFromRangeIndex, Cache has submitRangeIndexCache, Next
--                              has SubmitNext.
--   sync.go, UploadOnce        Upload.antt. Upload/Services has the interfaces BlockProvider and
--                              ObjectWriter, Windows the height arithmetic, Blocks has uploadBlock and
--                              uploadBlocksFrom, Probes has checkUploadProbes, findUploadStart and
--                              uploadBlocks, Indexes has uploadRangeIndex, Once has UploadOnce.
--   sync.go, UploadFollower    Upload/Follower.antt has the record and what is done to the cache of recent
--                              hashes, Recent has refreshRecentHashes and findCommonAncestor, Publish
--                              has publishStableIndexes and initialize, Advance has uploadIncrement and
--                              uploadReorg, Attempt has the follower's UploadOnce. A method runs on the
--                              follower beside the state of the world, and what it did to the follower
--                              before it failed stays done. Keeps says what all methods keep when
--                              their calls do, and Aligned and Guarded are two cases of it.
--   sync.go, SubmitPipeline    Submit/Pipeline.antt has the state of `run` with its channels and workers.
--                              Workers has runSubmitDownloadWorker, Window has resolveHash and
--                              fillWindow, Run has run, submittedHeightAccepted and SubmitPipeline.
--                              The other files below it are proofs: Sound and Verified follow the
--                              hash of a block, Ordered the blocks that were submitted, Filled and
--                              Counted the two maps and the channels, Kept, Progress and Measure
--                              whether a goroutine can go on and how often, Resolved the cache.
--   r2store/store.go, r2.go    R2Store.antt. R2Store/Config has LoadConfigFromEnv and Validate, Keys has
--                              BlockKey, Writer the methods of Writer, PublicClient those of
--                              PublicClient. Writer/Provides joins the writer to the uploader: it
--                              makes a `Provider` of a node and a `Writer`.
--   bench.go                   Bench.antt has the state of BenchDownload, Enqueue the loop of
--                              enqueueBenchDownloadJobs, Run the workers and BenchDownload. Invariant,
--                              Counted, Whole and Complete are the proofs.
--   sync.go, goroutines        Pool.antt: the workers of uploadBlocksFrom and of checkUploadProbes, the
--                              channel of keys, the first error and the cancelled context. Account and
--                              Finish say what a pool keeps and that it comes to rest, Returns and
--                              Settled that it has then returned and that each key has one result,
--                              Quiet and Keeps what jobs that cannot fail
--                              and properties of the world bring.
--
-- Services. The node, the object store, the scheduler and the context are fields of a record that a
-- section takes as a parameter (`Services` for submission, `Provider` for uploads): each call takes a
-- state of the world and gives a result and the state after. What a theorem needs of them is one of
-- its hypotheses, as `IsLawful`: the node's chain does not change, and the store tells what it has and
-- loses nothing. An error is a value of `Err`, with a constructor for each kind of message, and a run-time
-- panic is the error `panic`. A slice expression past the length of its bytes is `past_length`, as the
-- capacity is not known, which decides between a panic and bytes that are not the object's. Log lines and elapsed times are left out.
--
-- Interleavings. A job of a pool makes one call of a service at a time, and between two calls the
-- scheduler lets any worker, or the sender, go on; each theorem on a pool is for every scheduler. A
-- pool runs on fuel: one step to send a key and one for each call of its job, which is 5 for an upload
-- and 3 for a probe. What is left to do falls with each step, so that this is enough. A pool has returned
-- when no key is left to send and no worker is at work; where it had not, the result would be
-- `never_returns`, which is no error of the code.
--
-- SubmitPipeline and BenchDownload are not functions but lists of moves, the schedules: each move says
-- which goroutine goes on, and a move that its goroutine cannot make ends the list with no state. A
-- select with two ready cases is two moves. A theorem on them is for every list of moves, and there is
-- no fuel. Two moves of `run` make more than one call: the one that fills the window makes all calls of
-- resolveHash, and the one that submits a block makes SubmitBlock and the GetBlockchainInfo after its
-- error. Moves of workers do not come between such calls, so that the schedules are coarser than those
-- of the goroutines. Blocks that were given to the node, the replies to them and jobs that were queued
-- are kept in histories, `sent`, `replies` and `queued`, which no step reads.
--
-- Libraries. encoding/json, net/http, the parse and print of net/url, the environment and the S3 client
-- are records that a section takes (`UrlLib`, `S3` and those of BtcRpc/Client and R2Store/PublicClient);
-- what a theorem needs of them is one of its hypotheses, as `IsStore` for conditional puts.
--
-- Numbers. A `uint64` is a natural number below 2^64 whose wrap-around is written out, an `int` its
-- 64-bit pattern. `make` panics for a negative capacity, and beyond 2^44 strings. The loop of
-- UploadOnce and those of the follower that go from range to range have the last height plus one for
-- fuel, as each range starts above the one before; the loop of uploadProbeHeights has the distance to
-- the tip plus one, as has findCommonAncestor to its lower bound; the loops of uploadBlocksFrom and
-- uploadRangeIndex have the rounds that their tests let them make.
--
-- A channel of BenchDownload or SubmitPipeline has the capacity that the code writes; a number of workers
-- or a window so large that this number does not fit an `int`, where `make` panics, is left out.
--
-- Not modelled: the command line in cmd/fractal-block-sync, which reads
-- flags and calls the parts above; the option WithHTTPClient, whose client is the parameter; the text of
-- a failed reply of the public bucket, which the code puts into the error; log lines and elapsed times.
--
-- Tests.antt has runs at concrete inputs, and each theorem applied at one.
pub mod Prelude
pub mod Errors
pub mod Text
pub mod Hex
pub mod RangeIndex
pub mod BtcRpc
pub mod Effects
pub mod Submit
pub mod Sha256
mod Tests
pub mod BlockHash
pub mod Pool
pub mod Upload
pub mod R2Store
pub mod Bench
