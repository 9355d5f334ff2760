-- ===== src/Lib.antt =====
-- graphlab runs network labs: a planner orders the preparation of a topology, an engine carries it
-- out, and while a lab runs it captures packets, records terminals and reports what it sees. This
-- library models the parts of it that keep data right: what is ordered, written, counted and read
-- back.
--
-- Prelude: lists, numbers and results, shared by all parts.
-- Bytes, Descriptor: little-endian numbers in byte strings, and the loop that writes all bytes to a
--   file descriptor (`put`, `get` and `all` of cpp/terminal/recording.cpp; cpp/capture/writer.cpp
--   repeats them). The kernel's answers to write(2) are an argument, so that a statement about all
--   answers covers short writes, errors and a kill in between.
-- Terminal/Lease, Terminal/Recording: class Lease, class Recording and `replay` of
--   cpp/terminal/recording.cpp. Recording/Frames and Recording/Paging follow the loop of `replay`,
--   Recording/Append one append, Recording/History appends in sequence; Lease/Writer is about
--   histories of lease calls.
-- Capture/Writer: class Writer of cpp/capture/writer.cpp. A call is a function from a writer to a
--   writer and a result, also where it throws. Writer/Quota and Writer/Calls follow what each call
--   keeps, Writer/Runs sequences of calls. Capture/Partial: `inspect_partial` of the same file.
-- Packets/Headers, Packets/Decoder: `protocol` and `decode` of cpp/telemetry/packet_decoder.cpp, which
--   read the segments that the capture writer closes, and `identifier` of
--   packages/lab-support/include/lab_support/message_observation.hpp. A read outside the bytes, of one
--   or of several, is a value of its own; `slice` of Bytes is the read of several.
-- Planner/Order: the dependency ordering of `plan` in cpp/planner.cpp, over any keys with an equality
--   and an order. Order/Facts, Order/Invariant, Order/Sound and Sound/Loop hold the invariant of the
--   loops, Order/Results what the ordering returns.
-- Planner/Steps, Planner/Plan: the loops of `plan` that add steps, and `plan` as a whole, from the check
--   of the topology to the teardown. Plan/Ranks gives each key a rank that falls along dependencies;
--   Plan/Table is the map of the steps, Plan/Sorted what the ordering asks of it, Plan/Parts,
--   Plan/Workloads, Plan/Members and Plan/Sizes follow the loops, Plan/Closed joins them, Plan/Teardown
--   is the teardown, Plan/Kept and Plan/Captures are about the captures, and Plan/Checked is the whole.
-- Topology: `validate` of packages/lab-support/cpp/contracts.cpp with its helpers, on which the planner
--   stands. Topology/Json has the JSON library's values and the readers of members, Topology/Names the
--   forms of texts, Topology/Cidr IPv4 networks, Topology/Lock the artifact lock with `workload` and
--   `validate_lock`, Topology/Nodes, Topology/Edges, Topology/Switches and Topology/Management the parts of
--   `validate` in its order, Topology/Validate the whole. Switches/Trees, Switches/Unions and
--   Switches/Roots are about the union-find, Switches/Rstp about cycles; Edges/Accepted, Edges/Apart,
--   Management/Attached, Management/Apart, Management/Nets, Validate/Facts and Validate/Disjoint about what
--   passed the checks. The digest of a value and `inet_pton` are parameters; of an error its code is kept.
-- Runtime/Source: the commands to traffic sources of cpp/runtime/source_control.cpp, with `save` of
--   cpp/runtime/engine.cpp. Source/Requests checks requests and capabilities, Source/Store is the map
--   of the commands; Source/Commands and Source/Invariant follow what each event keeps, over the
--   events of Source/History: requests, the worker's two halves, between which the engine's lock is
--   free, and changes elsewhere. Source/Outcomes and Source/Retries are about one command.
-- Runtime/Execution: the execution of one job, `execute`, `cleanup`, `close_captures` and the handler of
--   `work` in cpp/runtime/engine.cpp, with `m5_clear` of cpp/telemetry/engine.cpp. Execution/Cleanup is the end of a run. Execution/State is the
--   run in memory and in the journal with the calls made so far; each call, each write of the journal
--   and each look at the cancellation takes the next answer from a list, at whose end the process is
--   killed. Execution/Intents and Execution/Steps follow which resources may exist, Execution/Durable
--   whole jobs.
-- Runtime/Jobs: the admission of jobs. Jobs/Params reads parameters, with `validate_fault` of
--   cpp/telemetry/store.cpp; Jobs/Tables is the state with `save`; Jobs/Runs is `cancel`, `start` and
--   `operate` of `dispatch`, Jobs/Faults `fault.apply` and `fault.remove` of `m5_dispatch`, Jobs itself the
--   keys and the capacity; Jobs/Recovery is the constructor of the engine. Jobs/History holds the events,
--   Jobs/Entries, Jobs/Changes and Jobs/Reach what one event changes; Jobs/Capacity, Jobs/Keys,
--   Jobs/Requests, Jobs/Retries and Jobs/Restart are about sequences of events and restarts. The digest of a request, the decimal text
--   of a number and the order of the names are parameters; the resolved topology and new names are
--   answers.
-- Runtime/Machine: code that changes a state, may throw and may be cut off; Runtime/Execution and
--   Runtime/Faults are written in it.
-- Runtime/Faults: `m5_execute`, `m5_recover`, `m5_fault_failure` and the expiry in `m5_monitor` of
--   cpp/telemetry/engine.cpp on the faults of a run, with the handler of `work`. Faults/Placed follows
--   which faults may be in place, Faults/Safety the operations, Faults/Expiry a round of the monitor.
-- Sources: class Sources of packages/lab-support/cpp/source_control.hpp, to which the commands of
--   Runtime/Source go. Sources/Ledger, Sources/Honoured and Sources/Switches are about sequences of commands,
--   Sources/Protocol about the engine's commands and the answers that it expects.
-- Telemetry: `derive` of packages/lab-support/cpp/telemetry.cpp. A rate is the exact count over its
--   nanoseconds, where the code divides in floating point. Telemetry/Follows and Telemetry/Gaps say when
--   there are rates, and which.
--
-- Machine integers: sums of 64 bits wrap by `% 2 ^ 64`; a theorem that needs room says so. Fuel: the
-- length of the file for `replay` and for the block loop of `decode` and `inspect_partial`, the length of the block for its
-- options, the number of steps for the ordering; running out is a value of its own. The search for a root
-- in the union-find has one step for each edge so far, and stays where it is when they run out.
--
-- Not modelled: YAML, JSON and base64 texts, paths, processes, sockets and the servers of cpp/console; the
-- time stamps, the timeline and the queries of the engine, the terminals that it opens, its monitor
-- of captures; the backends, the telemetry store and the message histories; the canonical document of
-- `validate` and the copies of documents in a plan.
mod Prelude
pub mod Bytes
pub mod Capture
pub mod Descriptor
pub mod Packets
pub mod Planner
pub mod Runtime
pub mod Sources
pub mod Telemetry
pub mod Terminal
pub mod Topology
