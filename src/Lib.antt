-- ===== src/Lib.antt =====
-- Snapback: the engine behind a desktop application that watches for distraction, and what makes it correct.
--
-- The program captures window and input events on a hook thread, hands them through a lock-free ring to an engine thread, and
-- there tracks the user's context, idleness, Pomodoro phases and alerts; the page of the application sends it commands.
--
-- Parts and files, with the sources from the repository's root:
--   Prelude       the shared names; Lists, Tests, Int (the integers over the native numbers) and Text (bytes).
--   Pomodoro      src/engine/pomodoro.hpp and the lengths in src/types.cpp. Phase: state and clicks. Poll: `advance_from_end`
--                 and `poll`. Persist: `snapshot` and `restore`. The other modules prove: Boundaries and Late on late polls,
--                 Schedule on the order of phases, Clicks and History on any history, Relaunch on restarts.
--   Idle          src/engine/idle_detector.hpp. Detector: the state machine. Edges: what it reports.
--   Ring          src/capture/ring_buffer.hpp. Buffer: `push` and `pop` whole and access by access. Mask, Window, Represents and
--                 Linear: the queue that every interleaving implements. Calls: undisturbed calls.
--   Alert         src/app/alert_routing.hpp, and the alert ids of src/app/state.cpp. Routing and Policy: delivery. Ids and
--                 Claims: which clicks count.
--   Tracker       src/engine/app_context.cpp, src/snapback/title_parser.cpp and src/snapback/tracker.cpp. AppContext and Rules:
--                 what is on task. Title: hints in titles. Machine and Return: drifting away and coming back.
--   Engine        src/app/state.cpp. Timer and Saved: the timer's handlers and what a relaunch shows. Attendance and InStep: when a
--                 session is attended, in memory; Spans, Stored and Settled: what of it is in storage. Flush: how a tick
--                 writes to storage, retries and shows a snapback; Retry, Durable,
--                 Written and Shown: what becomes of what waits. Nudge: untracked work. Delay: how long the engine sleeps.
--                 Privacy: the privacy pause. Pause: how long it lasts. Recording: when the application says that it records.
--                 Drain and Backlog: the events that a tick takes from the ring.
--                 Guardrails: `apply_focus_guardrails` of src/engine/classifier.cpp.
--   Storage       src/storage/storage.cpp. Tables: the statements on sessions and spans. Sound and Statements: what they keep.
--                 Spans, Signs and Credit: the seconds of a session. Prune and Retention: the batches that `run_retention_maintenance`
--                 of src/app/state.cpp runs.
--   Wire          src/types.cpp and src/types.hpp. Json and Laws: the helpers over the JSON library. Timer, Channels, Delivery,
--                 Modes, Settings and Range: the settings. Health, Runtime and Status: the health of the application. Session,
--                 Dialog and Requests: other data that is read and written.
--   Summary       src/engine/focus_summary.hpp. Predictions: the loop. Stretch: the longest stretch.
--   Settings      src/app/settings.cpp. Files: load and save over three files. Crash: what survives.
--   Dispatch      src/app/command_dispatch.hpp. Token: the capability token. Flight and Answered: one slow command at a time.
--                 Input: the checks on texts, with src/util/text.hpp. Utf8: the count of characters.
--   Origin        src/app/webview_origin.cpp. Url: the form of a URL and the decision on a navigation. Paths and Trust: what is
--                 trusted.
--   Activation    src/app/activation_channel.cpp and .hpp. Channel: request and answer. Id: the id of a directory. Launch: a second launch.
--   Wake          src/util/engine_wake.hpp, src/util/writer_priority.hpp and src/util/cached_probe.hpp.
--   Lock          src/util/ranked_mutex.hpp. Held and Order: the lock order. Metrics and Buckets: the histograms.
--
-- A class is a record and an operation a function from the old record to the new one with its result. Clock readings are
-- arguments. Alerts use the routes of Alert.Routing in Alert.Ids; Tracker.Machine uses AppContext and Title.
--
-- Bounds and fuel: integers are unbounded, so the overflow of 64-bit milliseconds is not covered; indices of the ring wrap at
-- 2 ^ 64 as in the source, and its capacity is 2 ^ k with k at most 63. The loop of `poll` runs on fuel, one round for each
-- millisecond of lateness and two more, which is enough where every phase lasts at least a millisecond (Pomodoro.Boundaries).
-- Seconds that the source keeps as floating-point numbers are whole milliseconds, and goal scores are hundredths. Accesses to
-- atomics happen one after another, as their acquire and release order makes them look.
--
-- The loop over the batches of retention runs through a list of what its rounds meet; one batch more than there are expired rows is
-- enough. The engine's loop at a stop runs on fuel, one tick more than there are events. A table is the list of its rows; a statement that throws changes nothing, as its transaction is rolled back.
--
-- Parameters: the JSON library of the data model (what is written into an object is found there and reads back), that of
-- the settings file and the file system of the settings (a parser that undoes its printer, calls that succeed or
-- fail), the runner of slow commands, the calls behind a socket, the paths of the standard library, and the answers of a probe.
--
-- Not modelled: SQLite but for what the statements say, migrations and the queries of the review, the operating systems' hooks, windows, sockets and processes, the page, training and export,
-- the floating-point scores and features, and for now the privacy exclusions and the predictions of src/app/state.cpp.
pub mod Prelude
pub mod Storage
pub mod Wire
pub mod Pomodoro
pub mod Idle
pub mod Ring
pub mod Alert
pub mod Tracker
pub mod Engine
pub mod Summary
pub mod Settings
pub mod Dispatch
pub mod Wake
pub mod Lock
pub mod Activation
pub mod Origin
