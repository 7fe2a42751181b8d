-- ===== src/Engine.antt =====
-- The request engine, crates/gabriel-engine/src/lib.rs: its errors and results, and what it takes
-- from other libraries. `Url` is `reqwest::Url`, which the `url` crate defines.
pub mod Headers
pub mod Redirect
pub mod Form
pub mod Token
pub mod Body
pub mod Prepare
pub mod Stream
pub mod Assertion
pub mod Clients
pub mod Outcome
pub mod OAuth
mod Tests
use gabrielbrowser.Base.{ℕ, Bool, Option, List, Str}
use gabrielbrowser.Base.Results.{Result}
use gabrielbrowser.Model.Fields.{FieldMap}
use gabrielbrowser.Vars.{Error}

pub data EngineError : Type 0 where
  template : Error → EngineError
  bad_url : (url message : Str) → EngineError
  transport : Str → EngineError
  client : Str → EngineError
  auth : Str → EngineError
  body_file : (path : Str) → EngineError
  client_cert_file : (path : Str) → EngineError
  client_cert : (reference message : Str) → EngineError
  invalid : Str → EngineError

-- One redirect that was followed.
pub record Hop : Type 0 where
  pub status : ℕ
  pub url : Str
  pub location : Str

pub record SentRequest : Type 0 where
  pub method : Str
  pub url : Str
  pub headers : List (Str × Str)
  pub body : Option Str

-- The operations of a URL that the engine uses; `join` fails with a message.
pub record UrlOps (Url : Type 0) : Type 0 where
  pub scheme : Url → Str
  pub host_str : Url → Option Str
  pub port_or_known_default : Url → Option ℕ
  pub path : Url → Str
  pub to_string : Url → Str
  pub join_url : Url → Str → Result Str Url

-- A request as it goes out.
pub record Wire (Url : Type 0) : Type 0 where
  pub method : Str
  pub url : Url
  pub headers : List (Str × Str)
  pub body : Option Str

-- A response as the HTTP client gives it; a header value that is no text is `none`, and reading
-- the body may fail.
pub record Raw : Type 0 where
  pub status : ℕ
  pub version : Str
  pub url : Str
  pub headers : List (Str × Option Str)
  pub body : Result Str Str

-- The network and the clock, which may answer differently at every hop of a chain, counted from 0.
pub record Network (Url : Type 0) : Type 0 where
  pub send : ℕ → Wire Url → Result Str Raw
  pub now_ms : ℕ → ℕ
