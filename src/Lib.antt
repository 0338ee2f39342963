-- ===== src/Lib.antt =====
-- The Go library aerth/mostly: a model of its packages and what holds of them.
--
-- The packages are small and mostly stand alone. superchan builds on cancellable, which wraps a
-- context and a buffered channel; httpserver builds on superchan, anydb on ncode, superlog on
-- journalwriter. The modules follow the packages:
--
--   Common       names, Boolean tests and list lemmas that the other modules share
--   Filters      filters/filters.go: FilterInPlace over the backing array that slices share
--                (`filter_in_place`), FilterCopy with its nil results (`filter_copy`)
--   Ncode.Twist      ncode/twist.go: the loops that fill a slice made beforehand
--   Ncode.Encoding   ncode/encoding.go: N2B and B2N over eight little-endian bytes
--   Ncode.Json       ncode/encoding.go: toJson and DecodeJson over encoding/json as a parameter
--   Ncode.Parse      ncode/parse.go: ParseBase and ParseNumber over strconv.ParseUint
--   Ncode.Reader     ncode/njson.go and ncode/http.go: requests, over json.Decoder as a parameter
--   Flags        flagpkg/flagpkg.go: the inverted flag over strconv.ParseBool
--   Cancellable.Context   Go's contexts as far as WithCancelCause makes them: a store of nodes, the
--                         newest first, each with its parent and its own cause
--   Cancellable.Handle    cancellable/cancellable.go
--   Cancellable.Chan      cancellable/cancelchan.go: a channel is its buffer, its size and whether
--                         it is closed; Updates and Updates2
--   Decimal          strconv.Itoa and strconv.Atoi over integers of the native numbers
--   Journal.Fields   journalwriter/journal.go: validVarName, appendVariable and the message of Send
--   Journal.Send     journalwriter/journal.go: Send, tempFd, Enabled, initConn; what the operating
--                    system answers is a parameter, what Send does with it a list of effects
--   Journal.Writer   journalwriter/journalwriter.go: Write and GetJournalOrStderr, and
--                    superlog/superlog.go: New
--   Anydb.Interface  go.etcd.io/bbolt as a record of operations and laws
--   Anydb            anydb/anydb.go: fetch, store and update over that record
--   Anydb.Calls, Anydb.History   the stores and updates as data, and sequences of them
--   Superchan.State       superchan/superchan.go: the fields, NewRaw, Defer, DeferFirst, DeferLast
--   Superchan.Goroutines  rundeferred in goroutines: a step relation of the scheduler with the
--                         barriers that `wg.Wait()` sets between the groups
--   Superchan.Rundeferred rundeferred in both modes, with its events and its end
--   Superchan.Main        NewMain and mainSignalHandler
--   Superchan.Reader      New and its loop, as steps among the steps of other goroutines; what becomes
--                         of its inputs is in Reader.Flows and Reader.Inputs, and of an error of the
--                         handler in Reader.Errors and Reader.Failures
--   Superchan.Flags       Flags, and calls of Set on its two flags
--   Superchan.Wait        Wait and its polling
--   Superchan.Defers, Superchan.Life   calls of the Defer family, and a main superchan from NewMain
--                         over a signal to Wait
--   Superchan.Double      handledoublein, with what others do while its handler runs
--   Superchan.Pair        NewDouble and its loop, with the calls of handledoublein that it makes; without
--                         goroutines for these in Pair.Phases and Pair.Serial
--   Httpserver.State      httpserver/httpserver.go: the types, buildserver, copyHttpServer, the setters
--   Httpserver.Routes     New, the middlewares, SwapServeMux and the handler for "/"
--   Httpserver.Listen     the checks of ListenAndServeAll, and what it defers before it listens
--   Httpserver.Serve      serveHttps, serveHttp, the deferred closures, ShutdownServer and the wait: a
--                         step relation with the WaitGroup's counter and with panics of the deferred
--                         functions, recovered or not; what it keeps is in Serve.Invariant and Serve.Work
--   Httpserver.Order      rundeferred on the superchan of a server that serves
--   Httpserver.Stopped, Httpserver.Cycle   a server behind its end and its Refresh
--   Httpserver.Json       ServeJson and ServeJsonIndent, over the json encoder as a parameter
--   Httpserver.Refresh    Refresh, over the user's refresh function as a parameter
--   Httpserver.Invariant, Httpserver.Changes   what every sequence of these calls keeps
--   Httpctx          httpserver/httpctx/httpctx.go, and what httpserver puts into a context
--   Unixtimestamp    unixtimestamp/times.go: a time is its seconds since 1970 and its nanoseconds
--   Stackerr.Paths   stackerr/stacktracers.go: Cleanmodulepath and GetFuncCallerInfo
--   Stackerr.Errors  stackerr/stackerror.go: Wrap and Errorf
--   Stackerr.Format  stackerr/stackerror.go: Format of nested errors
--
-- Conventions. A method takes the value that it works on and returns the new one. A panic of the
-- code is `none`, or a value of `Panic` where its message tells which. A deferred function is an
-- opaque value; whether it panics is a parameter. What other goroutines do is a step of the same
-- relation (Superchan.Reader, Superchan.Pair), a list of calls (Superchan.Main) or a function that
-- says what they send (Cancellable.Chan). Others may call SetDeferred in between; runs with
-- SetDeferred(nil), behind which rundeferred panics, are left aside where a comment says so.
-- Signals, multiplexers and the user's functions are numbers, and durations are in nanoseconds. A
-- step of the program and one that waits for others, such as the failure of a listener, are told
-- apart where the end of a run is stated (Httpserver.Serve).
--
-- Fuel. `updates2` counts the rounds of an endless loop; on an open channel one round more than the
-- buffered values is enough. `poll` counts polls; as many as there are pauses in the longest wait,
-- and one more, are enough. Runs of a server need no fuel: each step leaves less work.
--
-- Not modelled: the functions of httpserver that return a fixed error, and the clock of unixtimestamp.
-- ncode/constraints holds type constraints only. Logging is left out where nothing else depends on it.
pub mod Common
pub mod Filters
pub mod Ncode
pub mod Cancellable
pub mod Superchan
pub mod Decimal
pub mod Journal
pub mod Anydb
pub mod Flags
pub mod Httpserver
pub mod Httpctx
pub mod Unixtimestamp
pub mod Stackerr
