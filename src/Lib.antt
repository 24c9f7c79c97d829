-- ===== src/Lib.antt =====
-- The browser frontend of the platform, frontend/src: the state behind its pages and the operations
-- that change it; and the scripts that check its texts and the contracts of the backend.
--
-- The parts and how they interact. The page (frontend/src/ui.ts) keeps one application state and
-- renders it after each change. It has one simulation store (frontend/src/state/simulation-store.ts),
-- which loads the selected run and follows its event stream, and one dataset poller
-- (frontend/src/state/dataset-poller.ts), which asks for a dataset until its preflight has ended. Both
-- call the API through the contract of frontend/src/api/contract.ts and call the page back. The client
-- of frontend/src/api/live-api.ts makes the calls and reads their answers, and the page's texts come
-- from frontend/src/i18n.ts. The store, the poller and the page change their state before and after
-- they await an answer, so that answers meet a state that has moved on.
--
-- How they are modelled. State is a record that operations take and return. An asynchronous function
-- is split where it awaits: the part up to the request returns what the function captured (a
-- generation, an epoch, a run), and the part after it takes that and the outcome. Where the order of
-- such parts is in question, a data type of events and a step function run any sequence of them. What
-- the API sends is a dynamic value; identifiers that the code only compares are texts.
--
-- Files:
--   Prelude           tests, lists and integers that the parts share
--   Js                dynamic values, texts, numbers and objects of the language
--   Contract          frontend/src/api/contract.ts
--   Api               frontend/src/api/live-api.ts: the framing of the event stream, its events
--                     (Api/Frames) and its life from opening to end (Api/Session), with handlers
--                     that close it or throw; paths and queries (Api/Paths), requests, their calls,
--                     envelopes and errors (Api/Requests)
--   Poller            frontend/src/state/dataset-poller.ts: needsDatasetPolling, DatasetPoller with
--                     watch, stop, schedule and poll (begin_poll up to the request, resume after it)
--   Store             frontend/src/state/simulation-store.ts: SimulationStore with selectRun,
--                     selectAgent, refresh, connect and readiness; its refreshes (Store/Loaded),
--                     stream events (Store/Events) and answers (Store/Steps)
--   Dataset           frontend/src/ui.ts: loadDataset, uploadFile and the poller's handlers; the
--                     preflight's presentation and the payload of a simulation (Dataset/Preflight),
--                     the details of a dataset (Dataset/Details)
--   Queue             frontend/src/ui.ts: waiting counts, the projection of the selected run, loadQueue
--                     and cancelQueuedSimulation (Queue/Loading), what the page shows of the queue
--                     (Queue/Waiting)
--   History           frontend/src/ui.ts: lists and artifacts of runs that have ended, loadHistory and
--                     its filters (History/Loading), selections, replays and deep links
--                     (History/Selection), what the page lists (History/Page)
--   Replay            frontend/src/ui.ts: playback of a replay, the replay page and its downloads
--                     (Replay/View)
--   Draft             frontend/src/ui.ts: custom profiles, their paths (Draft/Paths), edits
--                     (Draft/Editing), saves and renames (Draft/Saving), controls
--                     (Draft/Controls)
--   Parameters        frontend/src/ui.ts: merged and frozen parameters of a run
--   Workspace         frontend/src/ui.ts: resources of the shown run, readiness, elapsed time, stages
--   Display           frontend/src/ui.ts: names and versions as the pages show them
--   Diagnostics       frontend/src/ui.ts: the sequence of points and the selected one, series
--                     (Diagnostics/Series), alarms (Diagnostics/Alarms), load states
--                     (Diagnostics/Loads) and trace cards (Diagnostics/Traces)
--   Translations      frontend/src/i18n.ts: createI18n and its tables (Translations/Tables);
--                     frontend/scripts/check-i18n.mjs (Translations/KeyCheck)
--   Page              frontend/src/ui.ts: labels of states and parameters, escaped text
--   Application       frontend/src/ui.ts: startApplication with its address, popstate and the listener
--                     of the store, loadConfiguration
--   Fixtures          backend/scripts/verify_worker_fixture.mjs: canonicalize; that script's checks and
--                     those of backend/scripts/verify_contracts.mjs (Fixtures/Checks)
--   Mock              frontend/src/testing/mock-api.ts: listSimulations with its pages and cursors,
--                     and the loads of the history against it (Mock/Rounds)
-- Beside a part, the files under its name hold its properties, and Tests its examples.
--
-- Bounds and fuel. Finite numbers are integers, which the fields that the modelled code computes with
-- hold; a text that spells no integer reads as NaN. Letters have a case in ASCII only, and blanks are
-- the ASCII blanks. The number that a control's text spells is a parameter (Draft/Controls). The fuel
-- of the decimal digits of n is n + 1, as each round divides by ten; that of the frames of a text is
-- its length, as each frame takes characters with it. All loops are recursion on lists, texts and values.
--
-- What is not modelled: the network, the browser, markup and its patches, charts, the build script, the
-- other methods of the mock adapter, and the server, worker and deployment. The reading of files, the
-- hash of a fixture and JSON.parse are parameters or values that the definitions take. JSON
-- copies are the identity on the values that the API sends.
pub mod Prelude
pub mod Js
pub mod Contract
pub mod Api
pub mod Poller
pub mod Dataset
pub mod Store
pub mod Queue
pub mod History
pub mod Replay
pub mod Draft
pub mod Fixtures
pub mod Parameters
pub mod Workspace
pub mod Display
pub mod Diagnostics
pub mod Translations
pub mod Page
pub mod Application
pub mod Mock
