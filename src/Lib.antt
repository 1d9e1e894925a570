-- ===== src/Lib.antt =====
-- Scuttlebot: coordination of agents over IRC, modelled where its own decisions are made: who is
-- registered, who may log in or call, what a message makes a bot do, and where a message goes.
--
-- The parts, and the files that model them:
--   Registry    internal/registry/registry.go: the agents, their persistence, signed payloads, sweeps.
--               Model has the state and what is written; Payload has signing; Ops and Sweep have one
--               function per method (Register, Adopt, Rotate, Revoke, Delete, Update, UpdateChannels,
--               SignedPayload, Touch, List, Reap); Steps has histories of calls. The other files prove.
--               A row of the table keeps what AgentUpsert of internal/store/store.go writes.
--   Engagement  internal/registry/engagement.go: the rules of engagement, which the registry validates.
--   Auth        internal/auth/apikeys.go and admin.go: the API keys and the admin accounts.
--   CmdParse    internal/bots/cmdparse/cmdparse.go: the router of commands that the bots share.
--   Warden      internal/bots/warden/warden.go: limits, escalation, loop detection, and what a message or
--               an operator's command makes the warden send. It uses CmdParse and Protocol.
--   Bridge      internal/bots/bridge/bridge.go: between IRC and the web. Ring has the buffer of a channel,
--               Hub the channels, subscribers and messages, Users who is shown and what is sent.
--   Herald      internal/bots/herald/herald.go: the queue of notifications, routes, rate limit, counters.
--   Snitch      internal/bots/snitch/snitch.go: rolling windows, alerts and their cool-down.
--   Audit       internal/bots/auditbot/auditbot.go: what is recorded, and the throttle per type of event.
--   Sentinel    internal/bots/sentinel/sentinel.go: windows of messages and reports of incidents.
--   Steward     internal/bots/steward/steward.go: reads the sentinel's reports and acts, and ends mutes.
--   IrcAgent    pkg/ircagent/ircagent.go: mentions; Agent has the history, the handler and the answer.
--   ClaudeRelay cmd/claude-relay/main.go: the messages that reach a session, over IrcAgent; Settings has
--               the reading of arguments and settings, Mirror the breaking of texts into messages.
--   Api         internal/api: Access (middleware.go), Team (team_scope.go), Login (login.go) and Handlers
--               (apikeys.go), over Auth.
--   Protocol    pkg/protocol/protocol.go: validation of envelopes, and whom they are addressed to.
--   Topology    internal/topology/policy.go: the types of channels; Manager has topology.go: what is
--               provisioned, dropped and reaped.
--   Relay       pkg/sessionrelay: channel names, levels of messages, filtered posting.
--   Common      what the parts share: bytes and texts, lists, maps, results.
--
-- How the code is modelled. A method is what the code does between taking its mutex and giving it up: a
-- function from the state to a result and a state, so that what was changed before an error stays
-- changed. Maps are association lists, in which the order of the entries stands for the order of an
-- iteration. Times are nanoseconds as natural numbers, 0 being the zero time of Go. Text is a list of
-- bytes, and the functions of package strings are those of ASCII text. What a call receives from outside
-- (clock, random tokens, answers of the account server, whether a write succeeds) is an argument; JSON,
-- HMAC, SHA-256, bcrypt and floats are parameters, with the laws used as named hypotheses. Two
-- functions run on fuel: the search of IrcAgent for a mention gets two turns more than the text has
-- bytes, and the breaking of a line in ClaudeRelay one more, which is enough since every turn goes a
-- byte further at least; all other loops go over a finite list. Windows, thresholds and cool-downs that a configuration may set below zero are natural
-- numbers where the code only replaces zero by a default. The text of an alert, a summary or a duration
-- that the code formats is a parameter or is kept as its parts.
--
-- A goroutine that authMiddleware starts beside the handler is a part of the result, not a step before
-- the handler. The laws of floats are asked of a finite rate and of whole numbers up to a bound only.
--
-- Not modelled: connections to IRC and HTTP, SQL, YAML and JSON texts, the configuration of the external
-- IRC server, the bots that summarise and search with language models, the replies to STATUS and the
-- sentinel's prompt, which format numbers and times, the manager that starts the bots, and interleavings
-- inside a method, which the mutexes exclude.
pub mod Common
pub mod Bridge
pub mod Engagement
pub mod Registry
pub mod Api
pub mod Audit
pub mod Auth
pub mod ClaudeRelay
pub mod CmdParse
pub mod Herald
pub mod IrcAgent
pub mod Protocol
pub mod Relay
pub mod Snitch
pub mod Sentinel
pub mod Steward
pub mod Topology
pub mod Warden
