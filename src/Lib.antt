-- ===== src/Lib.antt =====
-- A model of hibp, the programs that download, store and search the Have I Been Pwned databases.
--
-- A database is a file of records, each the bytes of a password hash and a count, sorted by hash.
-- The downloader fetches a million text files, by prefix of the hash, and writes their lines as
-- records, in order. The server and the search program look a hash up by binary search, with or
-- without a table of contents that says where each prefix starts.
--
-- The files, and the code they are about:
--   Text         `std::to_chars`, `std::from_chars` and the format {:05X} as include/hibp.hpp,
--                src/dnl/resume.cpp and include/dnl/shared.hpp use them; a text is the list of its
--                character codes
--   Hibp         include/hibp.hpp: `of_text` is the constructor of `pawned_pw` from a line,
--                `write_hash` and `to_string` its text; the template parameter HashSize is an argument.
--                A record outside the text, where the code reads undefined memory, has zero bytes; the
--                assertions of debug builds are left out.
--                Hibp/Order has `<=>` and `==`
--   ArrCmp       include/arrcmp.hpp: the instruction set and the byte order are arguments; a register
--                comparison is the mask of its bytes
--   FlatFile     include/flat_file.hpp: `Writer` is `stream_writer`, `Db` is `database` with the state
--                of its stream, `Iterator` is `const_iterator`; an exception is a value of `Error`, and
--                `undefined` stands for a read outside the buffer. An offset in bytes, which is a product of
--                the position and the size of a record, is taken to be in the range of a stream offset, as
--                it is for every position in a file
--   Search       `std::lower_bound` over the iterators of a database and the test behind it, of
--                src/srv/server.cpp and app/hibp_search.cpp
--   Toc          src/toc.cpp: building, saving, loading and searching the table of contents
--   Server       src/srv/server.cpp: the handlers, and the choice between them by the format. The answer
--                of Server/Answers is written down by itself, as the text that a client gets
--   Convert      app/hibp_convert.cpp; Convert/Program has its `main` and `convert`, where a file is what
--                the program can find of it, and opening the output empties it
--   Programs     app/hibp_search.cpp, app/hibp_dupes.cpp, app/hibp_query_filter.cpp and the options of
--                app/hibp_download.cpp
--   Download     src/dnl/requests.cpp and src/dnl/queuemgt.cpp: the two threads as steps on one state;
--                `lost` is the batch that an exception destroys. That the event loop comes back only
--                when no transfer is left is what libevent documents of event_base_dispatch without an
--                error
--   Resume       src/dnl/resume.cpp: the result is the last prefix and the records that stay in the file;
--                the file of a prefix, as the server gives it, is a parameter. Resume/Served takes the texts
--                apart, Resume/Complete and Resume/Incomplete are the two ways to go on
--   Loops        the loops over a whole database that a count may end, which Convert and FilterBuilder share
--   FilterBuilder  app/hibp_build_filter.cpp: the keys that are handed to the library of filters
--   Sorting      `std::sort` and the order of `std::priority_queue`, and what it is to be sorted
--   Disksort     include/flat_file.hpp: `disksort`, `sort_into_chunks` and `merge_sorted_chunks`; a chunk
--                file is the list of its records. Disksort/Reference is the merge on lists
--   Sorter       app/hibp_sort.cpp
--   TopN         app/hibp_topn.cpp; with --stdout the records are `mixed` with messages
--   Downloader   app/hibp_download.cpp behind its options, with the writers of its lines; what `run` of
--                src/dnl/queuemgt.cpp comes to is an argument, and Downloader/Complete says it is a run of
--                the two threads of Download; Downloader/Blocks reads a prefix as the first 20 bits of a hash
--   Diff         src/diffutils.cpp, for app/hibp_diff.cpp; Diff/Patch has the comparison on lists and what
--                it is to apply hunks, and Diff/Whole a database that is in its buffer as a whole
--   Runs         each theorem at a concrete input
--
-- The parts meet where they meet in the code: Toc and Search read records through FlatFile's `deref`,
-- which may refill the buffer; FlatFile's records are those of Hibp, whose comparisons are those of
-- ArrCmp; Download's prefixes are printed by Text; what Download writes goes through FlatFile's writer in
-- Downloader; the server searches through Toc.
--
-- Bounds and fuel. Sizes and positions are numbers, with the wrap-around of `std::size_t` written out
-- where the code subtracts or adds (`add64`, `sub64`), and that of 32 bits in `toc_entries` and
-- `end_offset`. The loop of `lower_bound` has one round for each record of its range as fuel, which is
-- enough because every round makes the range shorter; the loop of `fill_download_queue` has one for
-- each index up to the limit, and a start beyond the limit is left out; the loop of the merge has one for
-- each record of the chunk files; that of `run_diff` one for each record of the new database and one
-- more, since each but the last goes forward there; all other loops are over the records or messages they
-- read. Records of one rank may come out of a sort in any order in C++; here they come in one of these,
-- and the theorems on sorting say nothing about it.
--
-- The server opens the databases of a thread at its first request; here they are open.
--
-- Not modelled: the start of the server in app/hibp_server.cpp, and the conversion to UTF-16 in
-- src/ntlm.cpp; curl and libevent, whose reports are arguments of the steps; the vendored MD4 and the
-- libraries for SHA1, filters, HTTP and options; messages, logs and progress.
pub mod Common
pub mod Text
pub mod Hibp
pub mod ArrCmp
pub mod FlatFile
pub mod Search
pub mod Toc
pub mod Server
pub mod Convert
pub mod Programs
pub mod Download
pub mod Resume
pub mod Loops
pub mod FilterBuilder
pub mod Sorting
pub mod Disksort
pub mod Sorter
pub mod TopN
pub mod Diff
pub mod Downloader
pub mod Runs
