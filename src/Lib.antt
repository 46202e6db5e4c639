-- ===== src/Lib.antt =====
-- A model of the web client's own logic (web/src/lib, its forms, guards and the list of tunnels),
-- with theorems about it.
--
-- The dashboard manages Nowhere masters and their tunnels. Its server is written in Go; the
-- client, in TypeScript, builds and reads the URLs that start tunnels, follows the masters' event
-- streams and monitors over EventSource, fetch and WebSocket, and shows what they send. The
-- parts:
--
--   Portal      web/src/lib/portal-url.ts. A portal URL names the service that a tunnel offers and its
--               options; a Vector URL is the client's side of it, exported from a tunnel. Uri is
--               `encodeComponent` with the URI functions of the language, Endpoint the formatting and
--               checking of an endpoint, Parse `parseServiceUrl`, Credentials the checks of `next` and
--               of SOCKS addresses, Query `portalQuery`, Tunnel the comparable query, Service the
--               choice between the submitted and the running URL, Build `buildPortalUrl` and Vector
--               `deriveVectorUrl`. Path has the lemmas on the text of carrier paths.
--   Monitor     web/src/lib/hooks/use-tunnel-monitor-ws.ts
--   NowhereSse  web/src/lib/hooks/use-nowhere-sse.ts
--   Sse         web/src/lib/hooks/use-sse.ts, `useNowhereSSE`: the loop that reads a stream
--   EventHook   web/src/lib/hooks/use-sse.ts, `useTunnelSSE` and `useSSE`
--   Trend       web/src/lib/hooks/use-metrics-trend.ts
--   Sync        web/src/lib/hooks/use-bidirectional-sync.ts
--   Session     web/src/lib/api-client.ts and web/src/lib/fetch-interceptor.ts together
--   Utils       web/src/lib/utils.ts: big integers, relative times, the twelve-hour clock
--   TextLimit   web/src/lib/utils/text-limits.ts
--   Version     web/src/lib/utils/version-check.ts
--   Privacy     web/src/lib/utils/privacy.ts, which uses the URL parser of Portal
--   Subscription  web/src/components/subscriptions/subscription-form-modal.tsx. Uris reads external
--               nodes, Form is the editor's state, Import the choice of portals, Edit the nodes,
--               Rename their names and Save the submission.
--   TunnelForm  web/src/components/tunnels/simple-create-tunnel-modal.tsx. Fields is the form, Tags its
--               tags, Check `validate` and the body that is sent, Modal the load effect and `submit`.
--   Auth        web/src/components/auth and web/src/components/setup/setup-gate.tsx. Provider checks
--               the session, Guard leads to the login and away from it, Gate to the set-up.
--   Setup       web/src/pages/setup.tsx and web/src/lib/api/setup.ts. Form is the form and its payload,
--               Wizard the state and the handlers, Session what the user may press in each step.
--   Tunnels     web/src/pages/tunnels/index.tsx. Rows is the list with its filters and its request,
--               Actions what is done to the selected tunnels.
--   Billing     web/src/lib/endpoint-billing.ts: the payload of a traffic plan and its check.
--   Ansi        web/src/lib/utils/ansi.ts, which makes HTML of a coloured log line
--   Base        strings, lists and tests that all parts share
--
-- How the code is written here. A string is its list of Unicode code points, so a text with a
-- lone surrogate is not represented; `length` counts code points, and `unit_length` the units
-- that the language counts. A function that throws returns a result with the error. A hook is one
-- record of its refs and its React state; each callback, handler and effect is a function on it
-- with the code's name, and a setter takes effect at once. A callback that React keeps from an
-- earlier render holds the values of that render: where the code depends on it (the timers of
-- Sync), the closure is part of the state. Sockets, sources, timers and requests are numbers in
-- the order of their making; a list has those not closed. The step relations let the events come
-- in any order, those of old sockets and requests included. Each loop of the source is a
-- recursion over its list, and `compareVersions` one on the rounds left, so that no fuel is
-- needed.
--
-- Parameters. The WHATWG URL parser and `String(Number(s))` are fields of
-- Portal.Platform.Platform; what a theorem asks of them is among its hypotheses, and Portal.Tests
-- has a small parser that meets it. The functions given to a hook by its caller are parameters as
-- well, and so are `arrayMove` of @dnd-kit, dates, floats and casing (Subscription.Form.Web), the
-- URL parser, casing and the reading of a rate of a tunnel's form (TunnelForm.Fields.Web), the
-- clock and `JSON.parse` of a stored user (Auth.Provider.Clock), `Number` on a port
-- (Setup.Form.Web) and on the texts of a plan, dates and time zones (Billing.Plan.Web), and the
-- phrase to be typed in the set-up (Setup.Form.Web), `Number` on a version part (Version) and the
-- rounding of a big integer to a double (Utils).
--
-- Not modelled: the Go server, React markup, local dates and floats, the clipboard, the calls of
-- the server that only pass data on, console output, generated icons.
pub mod Base
pub mod Portal
pub mod Monitor
pub mod NowhereSse
pub mod Setup
pub mod Sync
pub mod Trend
pub mod TextLimit
pub mod Version
pub mod Privacy
pub mod Session
pub mod Auth
pub mod Subscription
pub mod TunnelForm
pub mod Tunnels
pub mod Billing
pub mod Ansi
pub mod Utils
pub mod Sse
pub mod EventHook
