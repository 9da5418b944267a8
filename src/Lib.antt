-- ===== src/Lib.antt =====
-- noaa-satellite-capture: a receiver of weather satellites and of ISS images. It predicts the
-- passes of its satellites, waits for each, records it with an SDR, decodes the recording, and
-- shows a dashboard with a live spectrum. The SDR can serve one process at a time: a recording
-- (rtl_fm), the spectrum stream (rtl_sdr), or a scan.
--
-- The parts that are modelled, and their sources:
--   Types, Types/Config     src/backend/types.ts: the shared types.
--   Satellites              src/backend/satellites/constants.ts.
--   Orbit                   src/backend/prediction/orbit.ts: Orbit/FindPasses is findPasses, with the
--                           body of its loop as `visit_position`; Orbit/Refine is refinePassTiming.
--   Passes                  src/backend/prediction/passes.ts; Passes/Names is the choice of an element
--                           set, Passes/Doppler doppler.ts, Passes/Tracks ground-track.ts.
--   Tle                     src/backend/satellites/tle.ts: Tle/Parse is parseTleText and the text
--                           that is written, Tle the cache.
--   Events                  src/backend/satellites/events.ts, with the requests of the web server
--                           on it.
--   Signal                  src/backend/capture/signal.ts; Signal/Monitor is startSignalMonitor.
--   Database                src/backend/db/database.ts: the tables as lists of rows.
--   RunLoop                 src/backend/cli/commands/run.ts: a round of the loop, over Events, Tle,
--                           Passes and Scheduler.
--   Maintenance             src/backend/cli/commands/maintenance.ts, over Database; Filenames is
--                           parseWavFilename, with generateFilename of src/backend/utils/fs.ts.
--   StateManager            src/backend/state/state-manager.ts: one function per method; the events
--                           that it emits are kept as a list.
--   Scheduler               src/backend/scheduler/scheduler.ts: `wait_decision` is waitForPass,
--                           `capture_pass` is capturePass, `run_scheduler` is runScheduler.
--   Sstv                    src/backend/capture/sstv-scanner.ts: scanForSstv and captureSstv.
--   Fft                     src/backend/capture/fft-stream.ts: Fft/Stream is the life of the stream,
--                           Fft/Frames the handler of its bytes, Fft/Notch the notch filters.
--   AutoGain                src/middleware/web/auto-gain.ts: Bands is the store of gains, Calibration
--                           is createAutoGain.
--   Web                     src/middleware/web/server.ts: Stream is the debounced start and the frames,
--                           Socket the sockets and the events of the state, Http the requests on
--                           the stream, the gain and the filters, Files the files that are served.
--   Globe                   src/middleware/web/globe-service.ts.
--   Relay                   src/sdr-relay/server.ts: Sessions is the state, Handlers its handlers, Routes
--                           the choice of a handler.
--   SdrClient               src/backend/sdr-client/index.ts: Stream is RemoteFFTStream, Recorder
--                           RemoteRecorder, Relayed its download through the routes of Relay,
--                           Checker RemoteSignalChecker.
--   Dashboard               src/frontend/src/hooks/useWebSocket.ts, over the messages of Web.
-- Base holds the shared names and lemmas: Lists, Int (signed numbers), Loop (bounded walks over
-- instants), Sort, Strings, Texts (split, join and trim), Trimmed.
--
-- They meet as in the code. The run loop chooses the active satellites by the events, gets their
-- elements, predicts and filters their passes, and hands them to the scheduler. The scheduler drives
-- the state manager and stops the stream before a recording. The globe service sends the positions
-- through the state manager. The web server follows the events of the state manager, starts and
-- stops the stream, feeds its frames to the calibration, and keeps the gains by band. The relay
-- drives a stream of its own.
--
-- How the code is read. A variable of a module or a field of an object is a field of a record, and
-- a handler is a function from the record to the next one. A function that awaits is cut at its
-- awaits where something can come between its parts (`stop_begin` and `stop_end` of the stream,
-- `capture_begin` and `capture_end` of the relay, `fire_start` and `end_start` of the web server);
-- the functions that join the parts say so. What the web server and a scan do to the state manager
-- and the stream at the awaits of the scheduler is an argument, any function of the two. Times are
-- milliseconds, frequencies hertz; powers, gains and angles are signed numbers in a fixed fraction
-- of their unit, and floating-point arithmetic on them is a parameter. Sockets, processes,
-- callbacks and timers are numbers. What is outside is an argument: the orbit library
-- satellite.js, the transform fft.js, the file system and node:path, the clock, child processes,
-- the decoder and the database.
--
-- Bounds and fuel. The walk of findPasses gets a round for each instant of the window and one to
-- end it, which is enough for a positive step; refineTime has the 120 rounds of the source. The loop
-- over the bytes of the stream gets one round more than there are bytes; each round that goes on
-- removes a frame. The scan gets a round for each millisecond of its time and one more; each round
-- that goes on takes a millisecond at least.
--
-- A recording through the relay polls once for each second of its duration and once more, and each
-- round sleeps for a second.
--
-- Not modelled: messages and requests of the web server with a field of another type than the code
-- casts it to, where the code does not test the type; the recorder and the decoders, which run
-- external programs and answer through arguments; the configuration, which is a schema of zod; the
-- command line but for the run loop and the maintenance, and the pages of the dashboard; of the
-- web server the requests that only print the state or the database; of the relay the test of its
-- device; of the database the creation of its tables. Texts for logs and for the terminal are left
-- out everywhere. Texts are read as ASCII where case, white space or a part of them counts.
mod Base
pub mod Types
pub mod Satellites
pub mod StateManager
pub mod Orbit
pub mod Passes
pub mod Signal
pub mod Tle
pub mod AutoGain
pub mod Fft
pub mod Web
pub mod Dashboard
pub mod Database
pub mod Scheduler
pub mod RunLoop
pub mod Maintenance
pub mod Sstv
pub mod Events
pub mod Globe
pub mod Relay
pub mod SdrClient
