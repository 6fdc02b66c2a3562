-- ===== src/Lib.antt =====
-- A verification library for cppkg, a collection of C++ packages.
--
-- The parts of the program. `cppkg/diff` compares two arrays: the header `myers_diff.h` finds a
-- shortest list of differences, `format.h` and `msg.cc` print it, whole or in batches.
-- `cppkg/egrpc` answers and sends asynchronous calls: each handler reacts to the events that a
-- completion queue reports, and asks gRPC for the next operation. `cppkg/numbers` multiplies
-- fractions, and tests first whether the denominators may be multiplied. `cppkg/estd` extends the
-- containers of the standard library, and `cppkg/jobs` its threads. `cppkg/units` prints times and
-- sizes of memory, `cppkg/arrs` makes ranges and joins lists, and `cppkg/flag` reads a command line.
--
-- The files.
-- - Base: numbers, tests, lists and integers that all parts share.
-- - Diff/Search: `myers_diff_trace` and `myers_diff_min_edit` of cppkg/diff/myers_diff.h. The two
--   loops are `rounds` and `diagonals`, and `rounds_min` and `diagonals_min`; `reach` is the body
--   that they share, `slide` its inner loop. Its children describe the trace.
-- - Diff/Furthest: the numbers that the search computes, as an independent description of the
--   furthest end on each diagonal. Its children show what no walk can pass.
-- - Diff/Myers: `myers_diff_backtrace` (`walk_back`, `retrace`) and `myers_diff` (`differences`).
-- - Diff/Script: what a list of differences says, whoever made it.
-- - Diff/Message: cppkg/diff/format.h and cppkg/diff/msg.cc. `to_string` marks the lines to show
--   and prints them, `safe_diff_msg_helper` cuts the arrays into batches. Window is about the
--   marks, Printed about the whole message, Replay about the end and the text of the batches,
--   Endless about a batch limit of 0, and Empty about messages without a line.
-- - Diff/Lines: `process_lines` and `diff_lines` of cppkg/diff/msg.cc.
-- - Diff/Distance: the edit distance by its recursion, a reference for the search, and in
--   Metric the laws of a metric.
-- - Egrpc/Server: `AsyncServerCall` of cppkg/egrpc/server_async.h; Pool has all calls of a server,
--   each of which constructs the next one, and Pending what their numbers are.
-- - Egrpc/ServerStream: `AsyncServerStreamCall` of cppkg/egrpc/server_async_stream.h, with its
--   replies in Serves and what holds for every order of events, with the tags of the completion
--   queue, in Answers.
-- - Egrpc/Client: `AsyncClientHandler` of cppkg/egrpc/client_async.h, with its retries.
-- - Egrpc/ClientStream: `AsyncClientStreamHandler` of cppkg/egrpc/client_async_stream.h.
-- - Egrpc/Wait: `wait_for` of cppkg/egrpc/iclient_async.cc, with the promises that are set in Ready.
-- - Egrpc/Calls: the client calls for whose promises `wait_for` waits.
-- - Numbers: `highest_1bit` and `mul_is_safe` of cppkg/numbers/decimal.cc.
-- - Numbers/Fraction: `Fraction` of cppkg/numbers/decimal.h and its operations in
--   cppkg/numbers/decimal.cc, over an interface of `double`, with whole numerators in Whole;
--   Numbers/Powers has the laws of powers.
-- - Estd/Strings: `has_prefix` and `has_affix` of cppkg/estd/strs.cc.
-- - Estd/UnorderedMap: what the maps of the standard library do, as association lists.
-- - Estd/Contain: the lookups of cppkg/estd/contain.h.
-- - Estd/Config: `ConfigEntry` and `ConfigMap` of cppkg/estd/config.h, with what they do to objects;
--   Entries has the moves of entries.
-- - Estd/HashList: `HashList` of cppkg/estd/hashlist.h, with an identity for each node, so that an
--   iterator in the map is a number. Spec is the list without duplicates that it implements.
-- - Estd/Ranges: `NumRange` of cppkg/estd/range.h and `remove_if` of cppkg/estd/algorithm.h.
-- - Jobs/ScopeGuard: `ScopeGuard` of cppkg/jobs/scope_guard.h, as a store of guards.
-- - Jobs/ManagedJob: `ManagedJob` of cppkg/jobs/managed_job.h; Ends has the states it can reach.
-- - Jobs/Sequence: `Sequence` of cppkg/jobs/sequence.h, as the steps of its threads. Queue is the
--   queue of jobs that others see, and Order compares the two; Reach and Told are about the states
--   that can be reached, Ends about the end of the destructor, and Join about `join`.
-- - Units/Time: `human_readable_time` of cppkg/units/time.cc, with the unit that it chooses in
--   Choice and the number that it shows in Value.
-- - Units/Memory: `human_readable_memory` of cppkg/units/memory.cc.
-- - Arrs: the ranges and the joined lists of cppkg/arrs/vecs.h, list.h and array.h.
-- - Flag/FlagSet: `FlagSet` of cppkg/flag/flagset.h and flagset.cc, over a record of what boost does;
--   Usage is about a usage without a limit of arguments, Args about one with a limit, and Parse
--   about `parse`.
-- - The files Tests, in each folder: runs on small inputs.
--
-- Numbers and errors. `IndexT` is `int16_t`, and every assignment to one goes through `int16`;
-- `size` is the conversion to `size_t`. An exception and a read outside an array are `none`; on a
-- diagonal of the search, a read before the array ends the diagonal. The comparison is a parameter,
-- and so are the callbacks of a call. What a handler does to gRPC is a list of effects. A
-- completion queue hands back each tag once for each time that it was put there.
--
-- Fuel. The loops of the search have `length orig + length updated + 2` rounds, more than there
-- are edits or diagonals; a diagonal has `length orig`, as it moves through the array. The walk
-- back goes down the rows of the trace. `safe_diff_msg` has one round more than there are lines. The
-- loop of `highest_1bit` has 64 rounds, one for each bit. `pow` makes one call more than the exponent
-- has binary digits. The loop over the names of the arguments has as many rounds as there are
-- numbers of type `unsigned`.
--
-- Not modelled: the interfaces of egrpc, which only call gRPC, the client configuration, which is
-- handed to it, the package error, whose errors are their messages here, the casts of estd, which
-- read the types of the compiler, and the texts of fractions. `cisab`, gRPC and boost are not part
-- of the repository.
pub mod Arrs
pub mod Base
pub mod Diff
pub mod Egrpc
pub mod Estd
pub mod Flag
pub mod Jobs
pub mod Numbers
pub mod Units
