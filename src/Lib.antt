-- ===== src/Lib.antt =====
-- ccache, a compiler cache: the formats and the tables that its cache is made of, the bookkeeping
-- and the cleanup of its local storage, its lock files, its configuration, and what it knows of
-- compiler options.
--
-- A compilation is looked up in two steps. A manifest, found by a hash of the source code, says
-- which included files with which digests lead to which result key; the result, found by that key,
-- holds the files that the compiler made. Both are payloads of cache entries: a header, the
-- payload, compressed or not, and a checksum. The local storage keeps them in two to four levels of
-- directories, with counters of hits, misses, files and sizes in a stats file for each directory; what
-- changes a directory is done under a lock, and when the counters pass a limit, the files of one
-- subdirectory that were not used for longest are removed.
--
--   Prelude      numbers, lists, byte strings and tests that the other files share
--   Fallible     the errors that the code throws, and results that may be one
--   Codec        src/util/conversion.hpp, src/core/CacheEntryDataReader.hpp and
--                src/core/CacheEntryDataWriter.hpp: integers in big-endian order; the reader's state
--                is the bytes that are left, the writer's the bytes that are written
--   CacheEntry   src/core/CacheEntry.cpp, src/core/types.cpp, src/util/zstd.cpp: Types and Header
--                are the record Header with parse and serialize, Entry the class CacheEntry
--   Manifest     src/core/Manifest.cpp: Types are the tables, Format is read and serialize, Update
--                add_result, Lookup look_up_result_digest, Merge a read into a filled manifest
--   CachedResult src/core/Result.cpp: the serializer, and the deserializer with the calls that its
--                visitor gets as a list of events
--   Decimal      the C library's strtoull in base 10 and the format {} of numbers
--   Counters     src/core/StatisticsCounters.cpp, and in Counters/File src/storage/local/StatsFile.cpp
--   Text         src/util/string.cpp: command strings, base 16, percent-encoding, and in Values
--                integers, strip_whitespace and to_lowercase
--   Args         src/Args.cpp: the state machine of from_atfile
--   Depfile      src/Depfile.cpp: escape_filename and tokenize
--   LocalStorage src/storage/local/LocalStorage.cpp: Levels says where a cache file lies, Put is put
--                and remove, Subdirs the counters of a level 1 directory and of its sixteen
--                subdirectories, Cleaning clean_dir, CleanAll do_clean_all and wipe_all, Automatic
--                evaluate_cleanup and perform_automatic_cleanup, Totals zero_all_statistics and
--                get_all_statistics, with the table of src/core/Statistics.cpp
--   LockFile     src/util/LockFile.cpp: do_acquire, acquire and release, as steps of processes that
--                share the lock file and the alive file
--   Tokenizer    src/util/Tokenizer.cpp, and split_into of src/util/string.cpp
--   CompOpt      src/compopt.cpp: the table of compiler options and the look-ups in it
--   Config       src/Config.cpp and src/Config.hpp: Tables are the items and their keys, Settings the
--                members, Values, Sloppy and Expand (src/util/environment.cpp) texts and what they
--                mean, Items set_item and get_string_value, Files the configuration files, the
--                environment and the command line, Read the order in which they are read
--   Examples     runs on small inputs
--
-- Code that throws gives a result with the error, one constructor for each throw site; messages and
-- log lines are left out. A w-bit integer is a number that is taken modulo 2 ^ w where the code
-- converts to w bits; a signed one is held as its bit pattern. A byte string is a list of numbers.
-- The hash XXH3-128 and the functions of libzstd are a record of parameters, Library, and what is
-- relied on is IsSound. The file system and hash_source_code_file are parameters too, as functions
-- of a path, so that a file does not change during a call.
--
-- A cleanup works on what it read of each file (a DirEntry), with the clock, the removals and the
-- namespaces of cache entries as a record of answers, Host. The counters that a cleanup writes are
-- Counters, which StatsFile::update reads and writes. std::sort is an insertion sort, whose order of
-- files of the same time may be another. A step of a lock's process is one file system operation
-- and what the code does up to the next one; an order of steps is a list or a reachability relation.
--
-- A configuration takes the environment, the files and paths from a record of answers, System or
-- Surroundings; sizes as text, which the code converts with floating point numbers, are answers too,
-- and so is the order of the rows of an unordered_map. A configuration that a call has changed
-- before it throws is lost, as no caller goes on with it. bsearch is the binary search by halving; its
-- rounds are one more than the table has entries. A value has no NUL, at which the expansion of
-- its variables would end.
--
-- Loops over a list are structural. Those of StatsFile::read, Depfile::tokenize,
-- Args::from_atfile and the tokenizer take a number of rounds, and `none` is that they ran out. Each round but the
-- last of StatsFile::read consumes a character, so that one round more than the text has characters
-- is enough. The tokenizer's need two rounds
-- more than the text has characters. A round of the other two consumes a character as well, but for a colon with a blank
-- token in tokenize, and the end of a run of backslashes in the msvc format, which is put back once.
--
-- Not modelled: of the local storage the reading of files, raw files, finalize,
-- recompression and the temporary directory; the remote storage, the hashing of source
-- code, the parsing of the compiler's arguments, the inode cache, the printing of statistics, the execution of the compiler, and the code under src/third_party.
pub mod Prelude
pub mod Fallible
pub mod Codec
pub mod CacheEntry
pub mod Manifest
pub mod CachedResult
pub mod Decimal
pub mod Counters
pub mod Text
pub mod Args
pub mod Depfile
pub mod LocalStorage
pub mod LockFile
pub mod Tokenizer
pub mod CompOpt
pub mod Config
pub mod Examples
