-- ===== src/Lib.antt =====
-- Hatohol's server: a collector of monitoring data. `server/mlpl` is its base library of strings,
-- times, parsers and buffers; `server/common` has what the server and its plugins share, among it
-- the tables of items; `server/src` is the server itself, which runs actions, counts statistics and
-- writes SQL. An action's command is cut into arguments by `ActionExecArgMaker`, which registers
-- callbacks with a `SeparatorCheckerWithCallback` and reads words through `ParsableString`;
-- `StatisticsCounter` stands on `SmartTime`; the joins of `ItemTable` stand on `ItemGroup` and on the
-- comparisons of `ItemData`.
--
-- Which file models which part:
--   Base: lists, bytes, Boolean tests and integers that the others share.
--   Mlpl/StringUtils: server/mlpl/src/StringUtils.cc. A `std::string` is a list of byte values; what
--     the code does with `c_str()` stops at the first NUL. `split_loop`, `leading_loop` and the like
--     are the loops of the functions they are named after.
--   Mlpl/SeparatorInjector: server/mlpl/src/SeparatorInjector.cc.
--   Mlpl/ParsableString: server/mlpl/src/ParsableString.cc. Checker, Counter and Callback are the three
--     separator checkers, whose virtual methods are the record `CheckerOps`; Parser is the class
--     itself, a position in the text as the rest of the text; Words and Reads are about `readWord`.
--     A `char` is signed: as an index, one of 0x80 or more lies outside the checkers' arrays, and what
--     the code writes there is left out.
--   Mlpl/SmartTime: server/mlpl/src/SmartTime.cc. `time_t` and `long` are integers without a bound.
--   Mlpl/SmartBuffer: server/mlpl/src/SmartBuffer.cc and SmartBuffer.h. A `size_t` wraps at 2 ^ 64,
--     words are little-endian, an access beyond the block is the fault `undefined`, and `realloc` is
--     a parameter of which its manual page is assumed.
--   Common/ItemData, Common/ItemGroup, Common/ItemTable: the files of those names in server/common, and
--     ItemGroupType.cc. An exception is `none`; the machine's double is a parameter.
--   Common/NamedPipe: server/common/NamedPipe.cc, what is written and what is read, with what glib's
--     channel takes and gives as arguments, also when a write or a flush fails after bytes were taken.
--   Server/ActionExecArgMaker: server/src/ActionExecArgMaker.cc, with the machine that its callbacks make.
--   Server/StatisticsCounter: server/src/StatisticsCounter.cc, the clock's reading as an argument.
--   Server/OperationPrivilege: server/src/OperationPrivilege.cc; a word of flags is its number, and a
--     privilege the number of its enumerator.
--   Server/DbTermCodec: server/src/DBTermCodec.cc, with readers of a literal in standard SQL and MySQL.
--   Server/DataQueryOption: the clauses and `addCondition` of server/src/DataQueryOption.cc.
--   Server/HostResourceQueryOption: server/src/HostResourceQueryOption.cc, what the query context answers
--     as fields of the state, and what the C library writes for `%d` as a parameter. Conditions and
--     Filters write the condition; Reading is a grammar of conditions with the precedence of SQL; Parts,
--     Servers, Allowed and Visible read the condition by it; Dropped and Joined are about single clauses.
--   Server/SelfMonitor: server/src/SelfMonitor.cc, all monitors as a function of their numbers. What a
--     notification handler calls is a parameter, and an exception is the result `thrown`. Keeps, Status
--     and Circular are about `update` and `setWorkable`.
--   Server/DataQueryContext: server/src/DataQueryContext.cc, the database as three functions.
--   Server/HostInfoCache: server/src/HostInfoCache.cc, the map as a function.
--   Server/IncidentSender: server/src/IncidentSender.cc, the queue of jobs and the thread that sends them.
--     What `send` answers and what other threads call meanwhile are arguments, and the trace has what the
--     sender does. Sending is `trySend` and `mainThread`; Keeps, Retries, Ending, Order and Progress
--     are about them. The limit of retries is not changed while jobs are sent.
--   Server/SessionManager: server/src/SessionManager.cc with server/common/UsedCountable.cc and the smart
--     pointers of server/common/UsedCountablePtr.h: sessions by their addresses, with faults. The `int`
--     count of users has no bound. Local and Operations say what a step does to one session; Sound, Calls
--     and Safety are about calls that run alone, and Race about two that do not.
--   Server/ResidentCommunicator: server/src/ResidentCommunicator.cc and ResidentProtocol.h, what
--     server/src/ActionManager.cc packs for a resident yard, and how server/src/hatoholResidentYard.cc
--     reads the parameters.
--
-- Fuel: the loop of `makeExecArg` runs on the length of the command and two more, since each word
-- that is read moves the position, until there is none. `update` of the self monitor runs on one
-- more than the monitors that are in no update, since each nested call begins another one. The
-- loop of `trySend` runs on one more than the limit of retries, since each round raises its
-- counter. Every other loop is by recursion on its text or list.
--
-- Not modelled: the database agents and tables, the REST interface, AMQP and the plugin gates,
-- logging and configuration, which are calls of other libraries; what the operating system and glib
-- do with threads and pipes; the index of ItemTable; the setters of the query options and the events
-- of the self monitor; the texts of incidents; the end of the session manager, and what glib does with
-- a timer, of which it is only assumed that a new one has an ID that is not the invalid one; how
-- pipes are made and opened.
pub mod Base
pub mod Mlpl
pub mod Common
pub mod Server
