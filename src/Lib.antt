-- ===== src/Lib.antt =====
-- A model of jacred-go, an aggregator of torrent trackers, and what holds of it.
--
-- The program keeps a database of torrents and answers searches in it. Parsers for the trackers are swept
-- over pages of listings, and what they find is merged into the database; their runs are started by a scheduler, which reads a crontab file that an administrator edits; the
-- magnet links of some trackers are computed from .torrent files.
--
-- Base: texts as lists of bytes, tests on numbers, lists, maps (Dict), trimming, splitting, sorting, integers
--   read from text.
--
-- Bencode is core/torrent_bencode.go. `bparser` is the record `Cursor`: the count of bytes read and the
--   bytes left. `parseBytes`, `skipValue`, `parseAnnounceList`, `torrentNameFromInfo`, `parseTorrentMeta`,
--   `buildTorrentMagnet` and the three `TorrentBytesToMagnet…` are functions of the same names in snake
--   case (Cursor, Skip, Meta, Magnet). An error is `fail`, a panic of Go is `panic`. Encode and Torrent
--   write values and .torrent files, and are what the reader is held against.
--
-- Cron is background/scheduler.go and background/crontabfile.go. `fillField` is in Field, `schedule` with
--   `parseSchedule`, `matches` and `NextRun` in Schedule, the job pattern with `parseJobLine` in JobLine,
--   the editor's entries in Crontab, the scheduler's jobs with `parseCrontab`, `tick`, `fire` and `reload`
--   in Scheduler. Elements and Rule say what a schedule means. Flights runs ticks and answers in any order;
--   Agree holds the two readers of the file against one another, Reload is what a reload keeps and Written
--   what the editor keeps of the lines.
--
-- Sweep is core/parseallcycle.go (Cycle, Slots) and core/taskpages.go (Pages): cycles over the pages of
--   a tracker.
--   The pages that `CycleSlot` points to are a list, which each operation returns changed. The checkpoint
--   file is the value that it decodes to, and the success of a write is an argument.
--
-- Store is filedb/merge.go (Merge, New), with the readers of values of filedb/filedb.go (Details) and
--   `SearchName` of core/stringconvert.go (Names). A torrent's map is an association list, whose
--   values are texts, integers, lists and others; `mergeExisting`, which changes the stored map in place, passes it from field to field, with
--   its three flags, in `Merging`. Stamps, Due and Computed say what a merge keeps and clears.
--   Record is filedb/record.go, a torrent as a record with `ToMap` and `RecordFromMap`.
--
-- Db is the database of filedb/: filedb.go, writebucket.go, admin.go and evercache.go. `DB` is the record
--   `Database` (State), with the cache of buckets (Cache) and the files, which its operations return changed:
--   reads in Reads, saves, removals and flushes in Writes, `RebuildIndexes` in Rebuild. What a torrent is, is
--   any type. Whether a write succeeds, what comes of moving a damaged file away (renamed, removed, or neither), and the time are arguments; MD5 paths are a parameter. Runs are lists of operations,
--   each whole; StaleRead takes a flush apart.
--
-- Config is app/: types.go (State), the keys and values of config.go (Values, Keys) and `parseYAMLIntoConfig`
--   (Reader), a loop over lines whose variables are `ReaderState`, and config_writer.go (Writer, with the values in
--   Scalars); LineText is what the loop reads of one line. The trackers
--   are a map by the names of the fields. Lines, Quoted, Numbers and Within say what is read of written lines.
--
-- Helpers is the part of core/helpers.go on lists and sets of texts, and its tag stripper (StripTags).
--
-- Cache is server/cache.go: the cache of answers with `Get`, `Set` and `Invalidate`, over a list of entries
--   in the order of an iteration over Go's map, which is any.
--
-- Fuel and bounds. The loops over bytes of Bencode take fuel from the number of bytes left, those over the
-- values of a field from the field's range; each turn reads a byte or counts a value
-- on. Lengths and steps are
-- `int` of 64 bits: what happens at 2^63 is written out.
--
-- Not modelled: network, browsers, HTML parsing, the compressed JSON of the database's files, its background
-- jobs, the HTTP handlers, the clock and the log, with the warnings on values of the configuration that cannot be
-- read; the goroutine that lets a carried guard go, and the temp files of a write. SHA-1 with its hexadecimal
-- digits, the MD5 paths of the bucket files, the wall clock at a minute, the layouts of times, `ToLower` on
-- Unicode, and what Go makes of floats and of other values as texts and integers are parameters.

pub mod Base
pub mod Bencode
pub mod Cron
pub mod Helpers
pub mod Sweep
pub mod Store
pub mod Db
pub mod Config
pub mod Cache
