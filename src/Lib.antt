-- ===== src/Lib.antt =====
-- Verification of narrative_ai_agent, a chat bot that leads a narrative game: a language model tells the
-- story, and tools keep what has happened in files, a directory for each world.
--
-- The parts and how they interact. A player's message comes to `GM.Reply` in
-- internal/usecase/gm.go. It appends the message to the history of the chat, compacts a history that is
-- too long, and runs rounds: a round builds the context, streams an answer of the model, and executes the
-- tools that the answer calls. The tools in internal/usecase/tools/files load a file of the world
-- through a repository of internal/repository, change the value and save it. At the end of a day the
-- state tool archives the day in the chronicle, has full windows of days compressed into a period by
-- a summarizer, and moves the world to the next day. The plot of a world is a graph of stages, with a
-- pointer into it that state.yaml keeps.
--   A message that is a command goes to `Dispatcher.Handle` in internal/dispatcher/dispatcher.go instead,
-- which starts the session, calls a tool and commits the files with git: /launch makes the first
-- character and world, /leave and /return move between worlds, /endday ends a day. The messaging handler
-- saves with git after every so many replies, and keeps counts of turns, compactions and saves in
-- system_state.md.
--
-- The files.
--   Prelude: Boolean tests, lists and texts over the native numbers, Go's int as `ℤ`, and `Result` for a
--     value or an error. A Go string is the list of its code points, `trim_space` is
--     strings.TrimSpace, `atoi` is strconv.Atoi, `byte_len` is len. Prelude/Find searches, splits and cuts
--     texts as strings.Index, Split, Cut and CutSuffix do.
--   Chronicle, with Days, Compression and File: internal/chronicle/chronicle.go and
--     internal/repository/yaml/chronicle_yaml.go. `append_day` is AppendDay, `compress_window`
--     CompressWindow, `sorted_days` SortedDays, `last_day` LastDay, `last_period_end`
--     LastPeriodEnd. The map of days is an association list.
--   Staging, with Days, Validation and Graph: internal/staging/staging.go. `load`, `validate`,
--     `update_stage`, `advance_timeline` and `apply_pending` are the functions of those names; the
--     operations on a graph return the changed graph.
--   Repositories, with Files, Plan, Keeps and Sound: internal/repository and the snapshot types of
--     internal/domain. A `Store` holds what a Load of each file gives, the body of the other files, and the
--     messages of the commits; an `Action` is a call on it, which may fail and keeps what was written
--     before. `write_fault` says which Save fails. Files has the repositories of info.yaml, plan.md,
--     lore.md and canon.md, Plan the lines of plan.md, Keeps the rules for invariants of actions.
--   Names, with Sanitized: internal/domain/validation.go.
--   Session, with Bootstrap: internal/usecase/sessionstart.go and internal/usecase/firstlaunch.go.
--     `start` is Start, `launch` is Launch, `check_sync` checkSync.
--   Dispatcher, with Commits: internal/dispatcher/dispatcher.go. `handle` is Handle, `cmd_leave` cmdLeave and
--     so on. `Outside` holds the calls that the model takes as parameters.
--   Git, with Pushing and Saving: internal/adapter/gitops/operator.go and
--     internal/messaging/handler/autosave.go. git is a function from the commands before and the command to
--     what it answers, about which nothing is assumed.
--   SystemState, with History and Persistence: internal/domain/system_state.go and
--     internal/usecase/systemstate.go.
--   WorldRegistry, with Matching: internal/worldregistry/worldregistry.go.
--   CharacterProfile, with Growth and Replacing: internal/charprofile/charprofile.go.
--   NpcProfile, with Names and Updates: internal/npcprofile/yaml.go.
--   Tools/Compress: the compression of internal/usecase/tools/files/memory.go.
--   Tools/Archive: ArchiveChronicleDay of internal/usecase/tools/files/state.go, with its hooks.
--   Tools/State: UpdateState of the same file. Tools/Scene: its EndScene, AppendEvent,
--     AppendHistoryToState and RotatePlan.
--   Tools/Npc, with Memory and Roster: internal/usecase/tools/files/npc.go over
--     internal/repository/yaml/npc_yaml.go. `NpcFiles` holds what a Load of each profile gives and the body of
--     each roster; `create_npc` is Create, `update_npc` UpdateNPC.
--   Tools/World: Leave and ReturnWorld of internal/usecase/tools/files/world.go.
--   Tools/Stage: internal/usecase/tools/files/stage.go over internal/repository/yaml/staging_yaml.go.
--   Inventory, with Keyed, WellFormed and Changes: internal/charprofile/inventory.go.
--   Structured, with Escaping, Narrative and Narrative/Plain: internal/structured/narrative.go. Structured has
--     its scanners for JSON, Narrative its `parse`, the reader of section markers and the renderings. The
--     regular expression of a marker is written out as `marker_at`.
--   Directives, with Pairs and Splitting: ExtractContextCommands of internal/usecase/gm.go and the readers of a line. Texts
--     are cut by code points; where the code cuts behind the first byte of an em dash, the two bytes that are
--     left stand as the code points 0xdc80 and 0xdc94. The code finds a header in a lower-case copy and cuts the
--     text at that byte; the model cuts at that code point, which is the same where the lower case of each
--     letter before it has as many bytes.
--   Tools/Character, with Facts: internal/usecase/tools/files/character.go over
--     internal/repository/yaml/character_yaml.go.
--   Tools/Maintain, with Shrinks: MaintainNPCs, MaintainLore and MaintainCharacterMemory of
--     internal/usecase/tools/files/memory.go.
--   Tools/Calls: dispatchOneTool, EndOfDay and executeExtractedCommands of internal/usecase/gm.go. A `World`
--     is the files of all worlds and characters, the chats, the searches and the counter of turns; a `Do` is
--     a step on it, which may refuse and keeps what was written before; a `Backend` has what the code takes
--     from outside. Scenes and People have the cases, Dispatch the `switch`, Directives the directives. Kept,
--     with Growing, Handlers, Written and Runs, Agree and Clears are about all calls together.
--   Conversation, with Compaction, Stream, History, Services, Turn and Gm: the history and the turns of
--     internal/usecase/gm.go, internal/usecase/compaction.go and internal/adapter/llm. `run_conversation`
--     is runConversation: `preflight`, then `run_rounds`. `Services` are the calls that leave this code:
--     functions on an arbitrary state, about which nothing is assumed. One of them, `chats_dropped`, tells whether
--     end_scene has deleted the conversations of all chats meanwhile. Turn/Rounds has the
--     induction over the rounds that the theorems on turns share.
--   Tests: runs on concrete inputs, and the theorems at concrete inputs.
--
-- Parameters. The YAML library, encoding/json and jsonrepair, the summarizers, the templates, unicode.ToLower, strings.EqualFold, the
-- rendering of numbers, the times, git and the bodies of files are arguments of the definitions that
-- use them. What a theorem assumes of one stands among its hypotheses: that the YAML library reads back
-- what it has written, and that ToLower lowers the ASCII and the Russian letters.
--
-- Bounds and fuel. Integers are unbounded: days, counts and indices stay far below 2 ^ 63; `atoi` has the
-- 64-bit range, and the ends of the windows of the compression wrap around as an `int` does. The loop over these
-- windows runs on fuel, one round for each day that is left: enough, since each round moves the window by thirty
-- days, unless the end of a window wraps around, which takes a day within thirty of the largest int. There to run
-- out of fuel stands for the loop of the code, which goes on. The
-- rounds of a turn are the ten of the code. Everything else is structural recursion.
-- The threshold of the compaction, a float64 in the code, is given by its sign and by the token
-- count that the code computes from it.
--
-- Not modelled: logs, status callbacks and metrics; the locks, since one turn of a chat runs at a time in
-- the model; the messaging transports, the model drivers, prompts and templates, and the
-- configuration; what the context builder puts together for a round and the prompts and answers of the
-- summarizers; the guards on tools that are not wired, since a program that runs has them all; and the
-- streaming of an answer through the dispatcher. The threshold of the automatic saves is a natural number: a
-- negative one does what zero does.
pub mod CharacterProfile
pub mod Chronicle
pub mod Conversation
pub mod Directives
pub mod Dispatcher
pub mod Git
pub mod Inventory
pub mod Names
pub mod NpcProfile
pub mod Prelude
pub mod Repositories
pub mod Session
pub mod Staging
pub mod Structured
pub mod SystemState
pub mod Tests
pub mod Tools
pub mod WorldRegistry
