-- ===== src/Lib.antt =====
-- A model of the client-side simulators of the hybrid PQC-QKD network, in
-- services/webui-frontend/src/lib/sim of the repository, and of two of its pages, and what is proved of
-- them.
--
-- The parts:
--   Base: lists, options, integers, dictionaries, sorting and comparison functions, as the other
--     parts share them.
--   Etsi004: the simulated key manager of the protocol lab, protocolLab/etsi004.ts, the class
--     `Km004`. Its state, the map `streams`, is an association list (Km); each method is a function
--     of the environment of the call and the map to the new map and the result: `openConnect` is
--     open_connect (Open, Km), `supply`, `undelivered` and `close` are theirs in Km, `getKey` is
--     get_key with its parts in Read, `nextFor` is next_for. Run has calls and runs of calls. The
--     status table of etsi004SpecV211.json is in Spec.
--   Routing: protocolLab/routing.ts: `simplePaths` is simple_paths (Graph), `describeRoute` and
--     `rankRoutes` are in Rank, `selectRoute` is select_route (Select). Best has an order of routes that
--     does not use the code's comparison.
--   E2e: e2eSim.ts, the class `E2ESim`, with the functions of crypto.ts and pacing.ts that it calls.
--     State has the state that it publishes, Fields the private methods, Work the work of the four
--     steps, Sim the public methods and `tick`, Events the calls and the fires of the timer in any
--     order.
--   Lab: protocolLabSim.ts, the class `ProtocolLabSim`. Links has the links with the failures of
--     targets, Generate has `generateKeys`, Relay has `relaySample`, Routes has `view` and `graph`,
--     Choose has `chooseRoute`; Records has the records of a tick, Scenario the types of presets and
--     scenarios, Wording the texts of statuses, State the fields of the class. Stream has `openStream`
--     and `refillStream`, Consume has `consumeStream`, Tick the tick that counts keys, Modes the other
--     three, Advance has `advance`, Load has `load`, which looks up its ids in a `Catalog`, Control the public methods and the timer as
--     events, Snapshot has `snapshot` and the CSV rows. The other files have proofs: Pipeline, Parts,
--     ModeTraces and Advanced follow the trace of a tick, Sound and Handled the events, Refilled,
--     Conserved, Relayed, Served, Counted and Lively the keys, Stores, StoresTick and Buffered the
--     other modes, Avoids the failures, Refused the ids that `load` refuses.
--   Paper: paperSim.ts, the class `PaperSim`, with the functions of crypto.ts and pacing.ts that it
--     calls. State has the types and constants, Csv the CSV rows, Fields the fields and private
--     methods, Work has `runPhase`, Control the public methods, `tick` and runs of events. Orderly,
--     Done, Moved, Stamps, Kept and Safe follow what an event keeps, Recorded and History the
--     history, Returns shows when an event returns, Position, Turns and Cycle follow the phases of a
--     cycle, Separate the keys.
--   Rounds: qkdRounds.ts: `playRound` is play_round, `seededDraw` is next_seed and seeded_draw.
--   Pages: pages/wgStatusBadge.ts and pages/crosscheckVerdict.ts: `wgStatusBadge` is wg_status_badge,
--     `describeVerdict` is describe_verdict.
--   The key manager and the routing meet in protocolLabSim.ts, which gives the former the capacity of
--   the route that the latter chooses; `Env` holds what it answers during one call.
--
-- Conventions: an error that is thrown, `undefined` and `null` are `none`. Texts that are only shown
-- are constructors of a data type. Times are in milliseconds. Rates of the quality of service are in
-- thousandths of a bit per second, so that the rounding of the source is exact; stores in bits are
-- signed. A `Set` is a list with `has` and `add`, a `Map` an association list that keeps its order.
-- Key bytes leave and enter `Km004` by copies, so no aliasing is modelled.
--
-- Credit of generated keys is in thousandths of a bit, so that it is exact.
--
-- Fuel: `next_for` has one round for each delivered index and one more (Etsi004.Next); the walk of
-- `simple_paths` one for each node of the adjacency map and two more (Routing.Total); the refill of a
-- stream one for each chunk that is missing and one to stop (Lab.Refilled). `digits` and
-- `decimal_digits` have the number itself, which is more than its digits.
--
-- Parameters: `localeCompare` (a comparison function, with its being a total preorder as a
-- hypothesis), HKDF and ChaCha20-Poly1305 of @noble (the lengths of a derived key and of a sealed
-- packet, that a derived key is made of bytes, and the refusal of a key that is not 32 bytes long as
-- hypotheses), the clocks and random bytes of the browser, and the presets and scenarios of the
-- published networks, a `Catalog`.
--
-- Not modelled: the data of the published networks, the playback and views of the protocol lab, the
-- BB84 engines, rates and exporters, which are data, figures or floating point formulas, the React
-- pages, and the Python, Go and shell services.
pub mod Base
pub mod Etsi004
pub mod Routing
pub mod E2e
pub mod Lab
pub mod Rounds
pub mod Pages
pub mod Paper
