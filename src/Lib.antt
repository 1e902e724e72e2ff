-- ===== src/Lib.antt =====
-- Verification of the Gotify VPS Agent, a program that a timer starts on a server: it runs health
-- checks, compares their results with what it remembers, and sends notifications to a Gotify server.
--
-- The parts, and how a run goes through them:
-- * Config (internal/config/config.go): the settings. Config/Line, Values, Sections and Reader read
--   them (`stripComment`, `assign`, `Unmarshal`, `Load`), Validity is `Validate`, Writer `Marshal`.
-- * Model (internal/model/model.go): results of checks and events about them.
-- * Engine (internal/engine/engine.go): `Evaluate` takes results to the next state of each check and
--   to events; `Baseline` is the first run. One function per stage of the loop over the results.
-- * State (internal/state/state.go) and Queue (internal/queue/queue.go): the two files that persist.
--   File holds what reading them has in common, with errors as values.
-- * Notify (internal/notify/notify.go): the text of a message, and how many events fit in one.
-- * Delivery (internal/app/app.go, `deliverQueued`): sends batches until the queue is empty, with the
--   sequence of sends and saves as a list of actions.
-- * Run (internal/app/app.go, `RunCheck`): a whole run, from the settings to the last batch, as the
--   list of its effects, those of `acquireLock` among them; what the machine answers is the record
--   `Machine`.
-- * Storage (internal/app/storage.go): `restorePendingState` makes up for a stop between the write of
--   the queue and that of the state; Storage/Writes is the order of those writes.
-- * Checks (internal/checks/checks.go): the checks. The file itself has those of usage, of freshness
--   and of the queue; Checks/Mounts, Memory, Kernel, Journal, Programs, Upgrades and Services have the
--   others with the parsers of what they read, All is `Run`. What a check asks of the machine is the
--   record `Host`.
-- * Runner (internal/runner/runner.go), Systemd (internal/systemd/systemd.go), Services
--   (internal/services/services.go), Platform (internal/platform/debian.go) and Securefile
--   (internal/securefile/securefile.go): the programs and files of the machine.
-- * Gotify (internal/gotify/client.go) and Proxy (internal/socksproxy/proxy.go): the client, over what
--   Net has of Go's packages for the network.
-- * Textsafe (internal/textsafe/textsafe.go): limits and cleans text from outside.
-- * App (internal/app/app.go): the commands besides the run, App/Doctor and App/Status among them;
--   App/Agent puts the machine of a run together from the checks, the client and the files.
-- * Cli (internal/cli/cli.go): the command line. A command is the list of its acts, the last first, and
--   its error; Cli/Flags has Go's package flag, Cli/Prompts the questions, Cli/Proxy, Configure and
--   Commands the commands, `run_line` the choice between them.
-- Prelude, Strings and Clock stand for Go's numbers, strings, maps and times.
--
-- Numbers and text: an `int` is an integer whose increments and products wrap at 64 bits. A string is
-- a list of bytes. A time is a number of nanoseconds since the year 1, so that 0 is the zero time.
-- A map is an association list; where Go visits a map in no fixed order, the order of the list is
-- taken, which can only change which error is reported first.
--
-- Outside the model, as arguments: SHA-256, the JSON codec, the text of a time, the file system, the
-- sending of a message, float64 with its order, and strconv's quoting and numbers, time.ParseDuration
-- and the acceptance of a proxy address (the record `Go` of Config), the parser of URLs (the record
-- `Net`), the exchange with the server, what programs and files answer (the records `Host` of
-- Checks/Host, `Probe` of Services and `Calls` of Securefile), and the answers that a run or a command
-- meets (the records `Machine` of Run, `World` of App, `Surroundings` of App/Agent and `Shell` of Cli).
-- Where App and Cli read or check settings, the acceptance of a proxy address is that of Proxy.
-- Hypotheses on these name what is used of them: that the decoder reads back what the encoder wrote
-- of the queue that is saved, that a write of one file leaves the others alone.
--
-- Fuel: the loops over the bytes of a string have its length as fuel, and each round takes a byte or
-- more. Delivery has the number of queued events as fuel, and each round delivers an event or more. A
-- page of the journal is asked for with 2000 lines first and then half as many, 11 times at most.
--
-- Not modelled: the processes and the system calls behind those answers, the transport of HTTP,
-- the text that the commands print (but for that of Status, Doctor and the results), the password
-- prompt, and the entry point with the version.
pub mod Prelude
pub mod Strings
pub mod Textsafe
pub mod Clock
pub mod Model
pub mod Config
pub mod State
pub mod Engine
pub mod File
pub mod Queue
pub mod Notify
pub mod Storage
pub mod Delivery
pub mod Runner
pub mod Systemd
pub mod Net
pub mod Proxy
pub mod Gotify
pub mod Platform
pub mod Securefile
pub mod Services
pub mod Checks
pub mod Run
pub mod App
pub mod Cli
mod Tests
