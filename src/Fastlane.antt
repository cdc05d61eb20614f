-- ===== src/Fastlane.antt =====
-- internal/fastlane/service.go and config.go: the paid and NFT-backed fast lane above its ledger.
-- The chain gateway, the policy service, encoding/json and the hash are parameters: their answers
-- are arguments of the steps. A time is a number of nanoseconds.
pub mod Payment
pub mod Flights
pub mod Limits
pub mod Leases
pub mod Sessions
mod Tests
use concert.Prelude.{ℕ, Bool, Option, List, String}
use concert.Prelude.Table.{Table}
use concert.Ledger.{Requirements, Settlement}

pub record Resource : Type 0 where
  pub url : String
  pub description : String
  pub mime_type : String

-- The raw JSON of the authorization is its bytes.
pub record Payload (J : Type 0) : Type 0 where
  pub version : ℕ
  pub resource : Option Resource
  pub accepted : Requirements J
  pub payload : List ℕ
  pub extensions : Table String (List ℕ)

pub record Verification : Type 0 where
  pub valid : Bool
  pub payer : String
  pub reason : String

pub record Offer (J : Type 0) : Type 0 where
  pub label : String
  pub requirements : Requirements J

pub record Collection : Type 0 where
  pub id : String
  pub label : String
  pub network : String
  pub collection : String

pub record Config (J : Type 0) : Type 0 where
  pub enabled : Bool
  pub origin : String
  pub gateway_url : String
  pub policy_url : String
  pub test_mode : Bool
  pub pass_seconds : ℕ
  pub nft_pass_seconds : ℕ
  pub max_records : ℕ
  pub merchant : String
  pub terms_url : String
  pub privacy_url : String
  pub refund_url : String
  pub offers : List (Offer J)
  pub collections : List Collection

abbrev pub second : ℕ
second = 1000000000

abbrev pub max_body : ℕ
max_body = 65536

abbrev pub prefix : String
prefix = "/_concert"
