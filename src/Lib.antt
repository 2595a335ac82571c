-- ===== src/Lib.antt =====
-- Layforge: a tabletop server (master) with its combat maps, dungeon generator, connections and turn
-- order, and the public directory of open campaigns (registry).
--
-- The program's parts, and the files that model them:
--
-- CombatMap (master/internal/combatmap): the grid of cells (grid.go: CombatMap/Grid), the check of a
-- move (movement.go, ValidateMove: CombatMap/Movement), the tokens (state.go: CombatMap/State) and
-- the generator of rooms and corridors (generator.go: CombatMap/Generator). The generator draws from
-- Prelude/Random, an interface of math/rand; a draw that would panic gives none.
--
-- Dungeon (master/internal/dungeon): tiles, features, stairs and levels (dungeon.go: Dungeon/Level),
-- what the generator changes on one level (Dungeon/Shape) and the generator itself (generator.go:
-- Dungeon/Generator, its Rooms and its Growth), over the same interface. The loop over the growth
-- budget recurses on it. Extends, Rects, Rooms and Features are about one level, Landing, Arrival,
-- Stairs and Joining about a new one, Sound has the invariant of the generator, Passages, Chambers
-- and Placing keep it, and Correct is about all of Generate.
--
-- Combat (master/internal/server): the turn order (turn_order.go, combat_state.go, campaignCharacter
-- of dm_tools.go: Combat/Turns). The character store and the System Engine are the interface of
-- Combat/Engine, with one state between them. The calls run one after another, so that a turn order
-- that a call changes through a pointer is written back where the call ends or persists it. Messages
-- are listed as they are sent; an error that the code only logs is dropped.
--
-- Session (master/internal/session/hub.go: Session/Hub): the connections of each campaign. A client
-- is a number with an entry in a store, and a room a list of such numbers; a panic is none. Locks
-- are not modelled: each call is one step.
--
-- Lobby (registry/internal/lobby): the directory (lobby.go: Lobby/Store) and its HTTP handlers
-- (handlers.go: Lobby/Handlers). The clock, the random identifiers, the decoded body and url.Parse
-- are arguments.
--
-- Tools (master/internal/server/dm_tools.go, vendor.go): the tools that the language model calls on
-- characters, their items and coins (Tools/Items, Strikes, Vendor, dispatched by Tools/Call) and
-- what they share (Tools/Actions). The character store, the System Engine, protojson, the clock and
-- the campaign's policy are the interface of Tools/Services, whose laws are what
-- store.CharacterStore documents of a save: it replaces the record of its id or, on an error,
-- nothing. A successful response is taken to carry its actors. Calls of the other tools of
-- callDMTool are left out. The arguments come read, request ids and the fixed parts of texts are
-- left out, and a tool's calls run without others between them. Scoped, Isolated, Confined, Fights,
-- Trades and Correct are about what a call may change, Early, Untouched and Failures about refusals,
-- Secure about the PvP gates.
--
-- Roll (master/internal/server/client_roll.go): one roll with its entry in pendingRolls, as the
-- random prompt ids keep rolls apart, from sendClientRollAndWait on: the requests that come before
-- the roll is registered, between and after its first two messages, are turned away. Its later
-- events are requests to reveal, the end of the wait (by timer or context), and the rest of a
-- request that found the roll before it was finished; what is sent is listed in the order of
-- sending. Texts of labels and summaries, and errors of the random source and of JSON, are left out.
-- Roll/Reveal and Owner are about the runs of a roll, Cases and Counts about revealDie and about
-- what is sent.
--
-- Policy (master/internal/policy/policy.go): a campaign's settings.
--
-- Prelude has the shared helpers: integers over the native numbers (Go's int is read as ℤ, without
-- its 64-bit bounds), lists, maps as association lists, cells in row-major order, and the random
-- source. Region is reachability by orthogonal steps.
--
-- Loops: ValidateMove's queue runs on fuel, a unit for each cell of the grid and one more, as a
-- round takes a position off the queue and each open cell joins it once; a loop out of fuel would
-- give a value of its own. All other loops recurse on their lists or counts.
--
-- Not modelled: the storage in SQLite, the admin server, the clients of language models and of the
-- System Engine, the message types, the web clients, the rate limiter (float64), field of view and
-- rendering.
pub mod Prelude
pub mod Region
pub mod CombatMap
pub mod Dungeon
pub mod Combat
pub mod Session
pub mod Lobby
pub mod Policy
pub mod Tools
pub mod Roll
