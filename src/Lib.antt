-- ===== src/Lib.antt =====
-- DRGTW is a gateway between applications and providers of language models. It replaces personal data in
-- requests by placeholders, restores them in the responses, and decides by virtual keys who may use which
-- provider, how often and at which cost.
--
-- Files, and the code they model (paths from the root of the repository):
--   Base         shared names, lists, byte strings and what Rust's `str` does, association lists, maps with
--                integer keys, sorting, bits, JSON values
--   Pii          crates/drgtw-pii/src: Kind (lib.rs), EntityMap (entity_map.rs: `pseudonymize`, `restore` and
--                their helpers), Stream (stream.rs: `StreamRestorer`), Engine (engine.rs: `PiiEngine`),
--                Checksums (recognizers.rs: `luhn_valid`, `validate_iban`), Ner (ner_bridge.rs),
--                Body (body.rs: `pseudonymize_body`, `try_pseudonymize_body`)
--   Keys         crates/drgtw-keys/src/lib.rs: Auth (`KeyStore`), Models (`ResolvedKey`), Pattern
--                (`pattern_matches`), KeyIndex (`parse_key_index`), Budget (`BudgetTracker`), Rate
--                (`RateLimiter`); Config has the parts of crates/drgtw-config/src/lib.rs that they read
--   Guardrails   crates/drgtw-guardrails/src/engine.rs: `GuardrailEngine::evaluate`, `merge_spans`
--   EventStream  crates/drgtw-proxy/src/eventstream.rs: `EventStreamDecoder`
--   Sse          crates/drgtw-proxy/src/sse_restore.rs: `SseRestorer`, with Framing (the end of an event),
--                Transform (what happens to a payload) and Flush (synthetic events)
--   Converse     crates/drgtw-proxy/src/converse.rs: the request, Response, Stream (the events); Reframe:
--                `reframe_converse_stream` of handlers.rs there
--   Proxy        crates/drgtw-proxy/src/handlers.rs: the candidates of a request and the loop over them, both
--                in `proxy_endpoint`, with its helpers; the errors are those of error.rs there
--   UsageTap     crates/drgtw-proxy/src/usage_tap.rs: `UsageAccumulator`, `usage_tap_stream`
--   Events       crates/drgtw-events/src: Extract (extract.rs), Sink (sink.rs: `EventSink`)
--   UiAuth       crates/drgtw-ui-auth/src: session.rs, csrf.rs, cookie.rs
--   Mcp          crates/drgtw-mcp/src/gateway.rs: `McpGateway`
-- A request's text is scanned by the engine, pseudonymized with a map, and sent; the response is restored
-- with that map, whole (`EntityMap::restore`) or in chunks (`StreamRestorer`). A streamed response runs
-- through the usage tap, which feeds the event restorer, which feeds one stream restorer with the texts
-- of the events and one more for each tool call; the usage goes into an event for the sink. A bearer
-- credential is resolved by the key store; its id indexes the rate limiter and the budget tracker. The
-- candidates for a request's model are tried in order; what is sent to a Converse connection is translated
-- first, and its event stream is decoded and reframed before it reaches the usage tap.
--
-- Strings are lists of their UTF-8 bytes, as the program slices them by byte offsets; a slice out of
-- range or inside a character is a panic, written `none`. Hash maps are association lists with one
-- entry for a key. A mutable object is a state that is passed on. Numbers are natural numbers; the
-- widths of `u8`, `u32` and `usize` (64 bits) are written out where the code can meet them. Sorts are an
-- insertion sort by the comparison of the code; where the code's sort is not stable, the theorems do not
-- depend on the order of ties.
--
-- Fuel: the scans of `restore` and of the stream restorer take the length of the text, since each
-- round consumes a byte unless a placeholder is empty; the loop over the headers of a frame takes the
-- length of the block, and draining a decoder the length of its buffer and one. The loop over the events
-- of a buffer takes its length, since an event has at least two bytes; a tapped stream is polled two
-- times more than its upstream has items, and so is a reframed one; trimming takes the length of the text.
--
-- Parameters: `to_uppercase`, `HeaderValue::to_str`, `ct_eq` (crate subtle), the checksum (crate crc32fast),
-- the persistent entity store, the recognisers and the matchers of rules, the readings of the clock, and
-- arithmetic on `f64`; the parser and the printer of JSON (crate serde_json), whose values are a data
-- type with the constructors of its `Value`; the NER pool and the hash of a text; HMAC and base64; what
-- `json!` makes of an `f64`, the new id and the time of a translated response; and what the network answers
-- to the event sink and to each attempt of the proxy. The signing of a request is the code's own (sigv4.rs),
-- but its cryptography is not; of it, the loop only uses whether it fails.
--
-- Not modelled: the recognisers but for their checksums, inference and its thread pool, the restoring of
-- JSON bodies and the text of them that the guardrails scan, the HTTP handlers but for the candidates and the
-- loop over them, the URLs and headers of a request, the vault, requests to MCP servers, costs, history,
-- telemetry and the user interface but for its sign-in. Locks are left out, since each operation of the limiter, the tracker and
-- the cache of verdicts holds a single lock; of the verdict cache, a call that asks the pool is one step.
-- Logging, and the signing of webhooks, are left out.
pub mod Base
pub mod Pii
pub mod Sse
pub mod Events
pub mod UsageTap
pub mod UiAuth
pub mod Mcp
pub mod Converse
pub mod Proxy
pub mod Keys
pub mod Guardrails
pub mod EventStream
