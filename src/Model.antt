-- ===== src/Model.antt =====
-- The request format of crates/gabriel-core/src/model.rs. `V` is the type of TOML values, which the
-- `toml` crate defines.
pub mod Fields
pub mod Replay
mod Tests
use gabrielbrowser.Base.{ℕ, Bool, true, false, Option, none, some, List, [], ◌∷◌, Str, codes}
use gabrielbrowser.Base.Map.{Map}
use gabrielbrowser.Model.Fields.{FieldMap}
use gabrielbrowser.Model.Replay.{Effect, effect_of_method}

pub data ApiKeyLocation : Type 0 where
  header query : ApiKeyLocation

pub data OAuth2Grant : Type 0 where
  client_credentials password authorization_code : OAuth2Grant

pub record OAuth2 : Type 0 where
  pub grant : OAuth2Grant
  pub token_url : Str
  pub authorize_url : Option Str
  pub redirect_uri : Option Str
  pub client_id : Str
  pub client_secret : Option Str
  pub scope : Option Str
  pub audience : Option Str
  pub credentials_in_body : Bool

pub data Auth : Type 0 where
  no_auth inherit : Auth
  session : Option Str → Auth
  bearer : (token : Str) → Auth
  basic : (username password : Str) → Auth
  api_key : (key value : Str) → ApiKeyLocation → Auth
  oauth2 : OAuth2 → Auth

pub data Body : Type 0 where
  no_body : Body
  json : (content : Str) → Body
  text : (content : Str) → Option Str → Body
  form : Map Str → Body
  graphql : (query : Str) (variables operation_name : Option Str) → Body
  file : (path : Str) → Option Str → Body

pub record Settings : Type 0 where
  pub timeout_ms : ℕ
  pub follow_redirects : Bool
  pub max_redirects : ℕ
  pub verify_tls : Bool
  pub proxy : Option Str
  pub client_cert : Option Str
  pub effect : Option Effect

abbrev pub default_settings : Settings
default_settings = record {
  timeout_ms = 30000;
  follow_redirects = true;
  max_redirects = 10;
  verify_tls = true;
  proxy = none;
  client_cert = none;
  effect = none;
}

pub data CaptureSource : Type 0 where
  body header cookie status : CaptureSource

pub record VarCapture : Type 0 where
  pub var : Str
  pub from : CaptureSource
  pub path : Option Str

pub data AssertTarget : Type 0 where
  status header body duration_ms : AssertTarget

pub data AssertOp : Type 0 where
  eq ne lt gt contains exists missing : AssertOp

pub record Assertion (V : Type 0) : Type 0 where
  pub target : AssertTarget
  pub path : Option Str
  pub op : AssertOp
  pub value : Option V

pub record Origin : Type 0 where
  pub capture : Str
  pub promoted_at : ℕ
  pub page : Option Str

pub record RequestSpec (V : Type 0) : Type 0 where
  pub name : Option Str
  pub description : Option Str
  pub method : Str
  pub url : Str
  pub headers : FieldMap
  pub query : FieldMap
  pub auth : Option Auth
  pub body : Option Body
  pub settings : Settings
  pub captures : List VarCapture
  pub asserts : List (Assertion V)
  pub origin : Option Origin

-- `RequestSpec::new`; `to_uppercase` is that of Unicode
abbrev pub new_spec : {V : Type 0} → (to_uppercase : Str → Str) → Str → Str → RequestSpec V
new_spec to_uppercase method url = record {
  name = none;
  description = none;
  method = to_uppercase method;
  url = url;
  headers = [];
  query = [];
  auth = none;
  body = none;
  settings = default_settings;
  captures = [];
  asserts = [];
  origin = none;
}

abbrev pub display_name : {V : Type 0} → RequestSpec V → Str
display_name s = elim s.name [ none ↦ s.url | some n ↦ n ]

-- `RequestSpec::effect`
unfoldable pub effect : {V : Type 0} → RequestSpec V → Effect
effect s = elim s.settings.effect [ none ↦ effect_of_method s.method | some e ↦ e ]
