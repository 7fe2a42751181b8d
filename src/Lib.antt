-- ===== src/Lib.antt =====
-- Gabriel: a command-line bench for HTTP APIs, with a proxy that captures a browser's traffic.
--
-- A request is a file (crates/gabriel-core/src/model.rs). Running it resolves its templates
-- (crates/gabriel-core/src/vars.rs), sends it and follows its redirects
-- (crates/gabriel-engine/src/lib.rs) with the cookies of a session
-- (crates/gabriel-engine/src/session.rs), and reads a stream of events where the answer is one
-- (crates/gabriel-core/src/sse.rs). The proxy appends what a browser does to a log
-- (crates/gabriel-proxy/src/store.rs), from which a capture is promoted to a request
-- (crates/gabriel-core/src/capture.rs); captures are exported to HAR files and imported from them
-- (crates/gabriel-core/src/har.rs). Requests are kept in a collection
-- (crates/gabriel-collection/src/lib.rs). Responses are asserted on
-- (crates/gabriel-engine/src/assertion.rs), compared (crates/gabriel-core/src/diff.rs) and searched
-- with paths (crates/gabriel-core/src/jsonpath.rs).
--
-- The files and what they model:
-- - Base: the types and functions of Rust's library that the source uses. A string is the list of its
--   UTF-8 bytes; a `BTreeMap` is a list of pairs in the order of its keys; an i64 is a ℤ whose
--   wrap-around is written out.
-- - Civil: the calendar functions of crates/gabriel-core/src/lib.rs; Civil/Text has
--   `format_iso8601` and `parse_iso8601`.
-- - Json: the documents of `serde_json` as a data type, an object in the order of its keys, with
--   `ExecutedResponse` of crates/gabriel-core/src/response.rs (Json/Response), `select` of jsonpath.rs
--   (Json/Select), `diff_json` (Json/Diff) and `diff_responses` (Json/Diff/Responses) of diff.rs.
-- - Jwt: decoding and judging tokens, crates/gabriel-core/src/jwt.rs; Jwt/Search is `find_in`.
-- - Model: the data types of model.rs, `FieldMap` (Model/Fields) and the effect of a replay
--   (Model/Replay).
-- - Vars: `Resolver` and its `expand`, `lookup` and `resolve_map`; Vars/Redact has the `Redactor`.
-- - Session: `Cookie` and `SessionStore` of session.rs. Session/Parse is `Cookie::parse`,
--   Session/Store the store; a store is a record, and each method gives the record that it leaves.
-- - Engine: Engine/Headers has the functions on headers; Engine/Body, Engine/Token and
--   Engine/Prepare have what happens before anything is sent (`build_body`, `oauth_token`,
--   `apply_auth`, `prepare`, and `execute` up to its first request: the two texts of the source are two
--   in the model), and Engine/Form has `urlencode`. Engine/Redirect is the loop of
--   `Executor::execute`: a turn of the loop takes a `Chain`, which holds the variables that the loop
--   changes, to a `Turn`, and `Reaches` relates a chain to those that later turns make of it.
--   Engine/Stream is `execute_stream` from its answer on, Engine/Outcome has `apply_captures` and
--   `RunOutcome`, Engine/Clients the pool of clients and `resolve_identity`, Engine/Assertion is
--   assertion.rs with Engine/Assertion/Convert for `toml_to_json`, and Engine/OAuth the login of
--   crates/gabriel-engine/src/oauth.rs: its URL, its callback and its forms.
-- - Sse: `Event` and `Parser`; `push` and `finish` give the parser that they leave.
-- - Capture: captured traffic; Capture/Url takes URLs apart, Capture/Promote is `Capture::promote`.
-- - Collection: the manifest, environments and defaults of crates/gabriel-collection/src/lib.rs;
--   Collection/Paths is `sanitize_request_path`, on a Unix target; Collection/Find is `find`,
--   Collection/Save `save_request`, Collection/Slug `slugify` and `unique_request_path`.
-- - Har: the records of har.rs; Har/Export is `export`, Har/Import is `import`.
-- - Cli: Cli/Curl is `to_curl` of crates/gabriel-cli/src/codegen.rs, and Cli/Curl/Shell the words that
--   a POSIX shell reads, by which it is judged.
-- - CaptureStore: `CaptureStore` and `CaptureFilter`; the log is the bytes of its file.
--
-- Parameters stand for what is not in the repository: the secret provider, the environment, the
-- clock and random values (`World` in Vars), the URL type of the `url` crate (`UrlOps`), the network
-- (`Network`), the token endpoint (`TokenWorld`), the files and the JSON that a body is made of
-- (`RequestOps`), the JSON coding of a capture (`encode`, `decode`) and base64. So are the
-- numbers, the reader and the printer of `serde_json` (`JsonOps`), the numbers and dates of the `toml`
-- crate (`TomlOps`), base64url and arithmetic on floating-point numbers (`JwtOps`, `HarOps`), the
-- clients of `reqwest` (`ClientOps`), the reading of a method (`parse_method`), the
-- clock and the chunks of a stream (`Feed`), the connections to
-- the callback's listener, and the Unicode `to_uppercase` and `to_lowercase`.
--
-- Loops are structural where they can be. Fuel is used for: the loop of `expand`, with as many rounds
-- as the template has bytes; the nesting of `expand`, whose nine levels are the code's own limit;
-- `drain`, with as many rounds as the buffer has bytes; the loop of `execute`, where one round more
-- than `max_redirects` is enough; the loop of `execute_stream`, with as many rounds as turns up to one
-- that the time limit has passed by; `search`, with one round more than there are requests; and
-- `scan_rounds`, with as many rounds as bytes remain. `trim`,
-- `split_str`, `replace` and `candidates` take as many rounds as the text has bytes, and `decimal` as
-- many as its number says. Integers of 8 bits are combined bit by bit.
--
-- Not modelled: reading and writing of files and their permissions, TLS, the proxy's connections and
-- certificates, terminal output, and the formats that serde derives, which are I/O or other
-- libraries' work; and, so far, the vault, websockets, what the proxy records, the rest of the command
-- line and the benchmarks. Where `percent_decode`, `urldecode` and `split_offset` would panic on a
-- slice inside a character, the model gives `none`; so does `evaluate` where it would come to its
-- `unreachable!`.
pub mod Base
pub mod Capture
pub mod CaptureStore
pub mod Civil
pub mod Cli
pub mod Collection
pub mod Engine
pub mod Har
pub mod Json
pub mod Jwt
pub mod Model
pub mod Session
pub mod Sse
pub mod Vars
