-- ===== src/Lib.antt =====
-- A verification library for torpeek, which previews the video files of a torrent without
-- downloading it: a web server queues runs, a run captures frames through a BitTorrent client that
-- fetches only the pieces around each capture point, and budgets bound what it may download.
--
-- The parts that are modelled, and the files that model them:
--
-- The run queue, internal/web/server.go and runs.go. Web/Queue.antt has the server's state
-- (`Server` for the fields runs, order, waiting, running, maxActive, queueSeq and arrivalSeq,
-- `RunEntry` for runEntry) with the queue's own operations and `dispatch`; Web/Queue/Handlers.antt
-- has startRun, listThenRun, pump, CancelRun, SetRunPriority, SetMaxActiveTorrents and Close. A
-- handler is run to its end before the next; what the runner, the lister and a run's events say
-- are arguments. Steps.antt makes every handler a step and has the invariant of all reachable
-- states, Dispatch.antt the filling of the slots, Laws.antt the single handlers.
--
-- The choice of files, in the same file: Web/Ticks.antt has the row of a run with the files asked for, in the request
-- and pending, and what a tick and an un-tick do to it (refuseTick, refuseUntick, withFiles, withoutFiles,
-- holdsFile); a file is the string that a page sends. Web/Ticks/Handlers.antt joins the rows to the queue:
-- DecideRun, UntickFile, again, RetryRun, startRun, listThenRun and pump with pendingPass. Report.antt has
-- tickedLocked, fetchingLocked and narrowableLocked. Specs.antt, Sets.antt and Names.antt are about the lists,
-- Inv.antt about one row, Entry.antt, Keeps.antt, Chosen.antt, Ends.antt and Steps.antt about all sequences of handlers,
-- Union.antt, Laws.antt, Undo.antt and Pass.antt about single ones, Turn.antt about a run's turn in the queue.
-- A new slice is a new list: no two rows share one.
--
-- Top-ups, internal/web/runs.go with TopUpRun of server.go: Web/TopUp.antt has topUpFor with what it calls and the request
-- of an offer, over what the disk holds; TopUp/Run.antt has TopUpRun. Laws.antt is about the figures, Asks.antt about
-- the request. Counts of frames are natural numbers, byte figures wrap as in Core/Budget/TopUp.antt.
--
-- The hub, internal/web/hub.go: Web/Hub.antt. Index.antt and History.antt are about a run's history,
-- Consistent.antt about the hub as a whole, Follow.antt about the clients that follow it. The
-- server publishes its records there; the queue's model leaves the records out.
--
-- Budgets, internal/core/budget.go: Core/Budget.antt has the ceilings and the tracker, over an interface
-- `Floats` for float64; TopUp.antt has TopUpBytes and TopUpFloor in 64-bit arithmetic with its
-- wrap-around. Offer.antt, Limits.antt and Warnings.antt are about them.
--
-- One torrent, internal/swarm/fetch.go and torrent.go: Swarm/Torrent.antt has the windows of pieces, the record
-- of claims and the merging of spans, and ClaimLog.antt the log of a file's claims; Window.antt,
-- Claimed.antt and Spans.antt are about them.
--
-- The strip of pieces, internal/web/listing.go: Web/Reach.antt has reachOf with pieceSpanOf and coalescePieceRanges;
-- Laws.antt is about the pieces it marks. Offset, length and piece length are natural numbers, the ranges on disk
-- any integers.
--
-- Comparisons, internal/web/compare.go: Web/Pairs.antt has pairNearest with nearestIndex and abs, over what float64
-- answers (`Positions`); the binary search of sort.SearchFloat64s takes the length of the list as fuel, enough since each
-- round leaves a shorter stretch. Laws.antt is about the search and the loop, Nearest.antt about nearestIndex and
-- Matching.antt about the pairs, by what float64 promises of finite numbers (`IsOrdered`).
--
-- The addresses of result sets, internal/web/compare.go, with the gates of listing.go: Web/Address.antt has setAddr and
-- parseSetAddr; Laws.antt is about reading and printing them.
--
-- The selection of files, internal/swarm/files.go: Swarm/Select.antt has Select, over what strings.ToLower, path.Base
-- and path.Match answer, a blank spec being passed over as in the code; Laws.antt is about it, and Web/Ticks/Engine.antt about what the engine selects for a row.
--
-- Ports, internal/swarm/ports.go: Swarm/Ports.antt has the pool, and every lease made from it since a
-- lease outlives the call; Leases.antt is about any order of calls.
--
-- Port sets, in the same file: Swarm/PortSet.antt reads and prints them; Print.antt and Parse.antt are
-- about the two.
--
-- The pool of clients, internal/swarm/pool.go with policy.go, session.go and source.go:
-- Swarm/Pool.antt has its state, in which clients and attachments are kept under their numbers,
-- and the steps on it; Sessions.antt has the client (leasePort, newSession, addTo, Close),
-- Attach/Opening.antt Open with its routes, Attach.antt the ways to attach, detach and close.
-- What the BitTorrent library answers is an argument, the same for a session however often it is
-- asked. Keeps.antt takes what every step keeps to what the calls keep; Private.antt and
-- Held.antt apply it.
--
-- Availability, internal/swarm/availability.go: Swarm/Availability.antt has the functions that read
-- the map of peers, Least.antt and Buckets.antt what they answer.
--
-- Capture points, internal/core/engine.go: Core/Capture.antt has captureOne with the candidates it
-- tries and the test of reach; Nearest.antt is about the candidates, Taking.antt about what is taken,
-- and Blank.antt has rejectBlank.
--
-- Files, internal/core/engine.go: Core/File.antt has the frame's record of internal/manifest/manifest.go,
-- reusableFrames, seekTolerance and landedNear; File/Point.antt has one round of processFile's loop over the
-- capture points, File/Loop.antt the loop with what comes before and after it. What ffprobe, the
-- context, the meters and the disk answer is an argument, point by point. Told.antt and Advance.antt are about one
-- point, Reusable.antt about earlier frames, Points.antt about the loop, Filed.antt about all records
-- of a file, Ranges.antt about the claims of a point, Complete.antt about the result. The
-- heartbeat that runs beside the loop is left out, and so are the claim logs that other files of the
-- run open and close meanwhile.
--
-- Recorded runs, internal/core/cached.go: Core/Cached.antt has ReplayRun and what it calls, with `Usable` of
-- internal/cache/cache.go; Replay.antt compares a replay with the run itself.
--
-- The bus, internal/core/bus.go: Core/Bus.antt has the bus with its subscribers' channels, and readers as steps of
-- their own; Delivery.antt is about one subscriber, Offers.antt about all of them. While a terminal
-- event waits for room, a reader takes at most one event.
--
-- Stalls, internal/core/events.go with the codes of internal/core/errors.go: Core/Stall.antt has the clock,
-- Streak.antt is about what it shows.
--
-- HTTP ranges, internal/bridge/httprange.go: Bridge/Range.antt has parseRange; the functions on strings
-- that it uses are in Prelude/Text.antt, a string being the list of its runes; Resolve.antt is about its answers.
--
-- Eviction, internal/cache/evict.go: Cache/Evict.antt has the scan, the eviction and the clearing, over
-- what the file system answers; Sort.antt is about the order and Policy.antt about what goes.
--
-- Prelude.antt passes on the shared names. Signed integers of the source are the integers of
-- Prelude/Int.antt; where a product can pass 2^63, it is wrapped as the machine does. Offsets,
-- lengths and counts of pieces are natural numbers: they address bytes of one torrent, and their
-- sums and products are taken to stay below 2^63. `dispatch` recurs on the length of the queue, which each round
-- makes shorter, the loops over pieces recur on the pieces left, and the binary search on the length of its list; nothing else needs fuel.
--
-- Not modelled: HTTP, JSON and the browser's code, timestamps and texts, the file system, ffmpeg and
-- the BitTorrent library; and, of the server, reopened runs and the deletions. Where a handler releases the lock between two sections, no
-- other handler is interleaved there.
pub mod Prelude
pub mod Bridge
pub mod Cache
pub mod Core
pub mod Swarm
pub mod Web
