-- ===== src/Har.antt =====
-- HAR files, crates/gabriel-core/src/har.rs: their parts as records. What serde reads and writes is
-- left out. `F` is the type of floating-point numbers, `J` that of other JSON values.
pub mod Export
pub mod Import
pub mod RoundTrip
mod Tests
use gabrielbrowser.Base.{ℕ, Option, List, Str, codes}
use gabrielbrowser.Base.Int.{ℤ}

pub record NameValue : Type 0 where
  pub name : Str
  pub value : Str

pub record Cookie : Type 0 where
  pub name : Str
  pub value : Str

pub record PostData : Type 0 where
  pub mime_type : Str
  pub text : Option Str
  pub params : List NameValue

pub record Content : Type 0 where
  pub size : ℤ
  pub compression : Option ℤ
  pub mime_type : Str
  pub text : Option Str
  pub encoding : Option Str

pub record Request : Type 0 where
  pub method : Str
  pub url : Str
  pub http_version : Str
  pub cookies : List Cookie
  pub headers : List NameValue
  pub query_string : List NameValue
  pub post_data : Option PostData
  pub headers_size : ℤ
  pub body_size : ℤ

pub record Response : Type 0 where
  pub status : ℕ
  pub status_text : Str
  pub http_version : Str
  pub cookies : List Cookie
  pub headers : List NameValue
  pub content : Content
  pub redirect_url : Str
  pub headers_size : ℤ
  pub body_size : ℤ

pub record Timings (F : Type 0) : Type 0 where
  pub blocked : F
  pub dns : F
  pub connect : F
  pub send : F
  pub wait : F
  pub receive : F
  pub ssl : F

pub record Entry (F J : Type 0) : Type 0 where
  pub page_ref : Option Str
  pub started_date_time : Str
  pub time : F
  pub request : Request
  pub response : Option Response
  pub cache : J
  pub timings : Timings F
  pub server_ip_address : Option Str
  pub connection : Option Str
  pub gabriel_page : Option Str
  pub gabriel_session : Option Str

pub record Creator : Type 0 where
  pub name : Str
  pub version : Str

pub record Page (J : Type 0) : Type 0 where
  pub id : Str
  pub started_date_time : Str
  pub title : Str
  pub page_timings : J

pub record Log (F J : Type 0) : Type 0 where
  pub version : Str
  pub creator : Creator
  pub pages : List (Page J)
  pub entries : List (Entry F J)
  pub comment : Option Str

pub record Har (F J : Type 0) : Type 0 where
  pub log : Log F J

-- Floating-point numbers: `n as f64`, -1.0, and of a duration that was read whether it is finite and
-- above zero, and the milliseconds of the smaller of it and a day. Base64, the object without fields
-- and the version of the package are parameters too.
pub record HarOps (F J : Type 0) : Type 0 where
  pub of_ms : ℕ → F
  pub minus_one : F
  pub is_measured : F → Option ℕ
  pub empty_object : J
  pub b64_decode : Str → Option Str
  pub package_version : Str

-- HAR_VERSION
abbrev pub har_version : Str
har_version = codes "1.2"

abbrev pub unknown_http_version : Str
unknown_http_version = codes "HTTP/1.1"
