-- ===== src/Engine/Clients/Tests.antt =====
-- A pool of clients that are their configurations, and the instance of the theorem,
-- crates/gabriel-engine/src/lib.rs.
use gabrielbrowser.Base.{false, none, some, [], Str, codes, ◌≡◌, refl, sym, ◌∙◌, length, All}
use gabrielbrowser.Base.Results.{ok}
use gabrielbrowser.Model.{Settings, default_settings}
use gabrielbrowser.Engine.Clients.{
  ClientConfig, ClientOps, IdentityMaterial, built, client_for_mode,
}
use gabrielbrowser.Engine.Clients.Pool.{IsBuilt, client_for_mode_lem}

abbrev ops : ClientOps Str Str (ClientConfig Str Str)
ops = record {
  parse_proxy = λ s. ok s;
  parse_pem = λ s. ok s;
  build = λ c. ok c;
  hash = λ s. length s;
  read = λ _. none;
}

-- the one certificate in use
abbrev Known : Str → Type 0
Known pem = pem ≡ codes "pem"

abbrev identity : IdentityMaterial
identity = record { fingerprint = 3; pem = codes "pem" }

abbrev settings : Settings
settings = record default_settings { client_cert = some (codes "me.pem") }

client_for_mode_lem_example :
    let (clients', result) = client_for_mode ops [] settings (some identity) false in
    (result ≡ built ops settings (some identity) false) × All (IsBuilt ops Known) clients'
client_for_mode_lem_example =
    client_for_mode_lem ops Known [] settings (some identity) false
      (λ a b known known' _. known ∙ sym known') tt (refl, refl)
