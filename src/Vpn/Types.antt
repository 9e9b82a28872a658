-- ===== src/Vpn/Types.antt =====
-- core/internal/vpn/types.go and client.go: the data of the exit, and the control interface that
-- the core's server has of it.
use easyprivacy.Base.{Error, Outcome, Text, ℕ, Bool, Option, String, List}

pub record Exit : Type 0 where
  pub id : Text
  pub name : Text
  pub ready : Bool
  pub message : String

pub record Profile : Type 0 where
  pub exit_id : Text
  pub exit_name : Text
  pub public_key : Text
  pub endpoint : Text
  pub address : Text
  pub address_v6 : Text
  pub dns : List Text
  pub allowed_ips : List Text
  pub mtu : ℕ
  pub keepalive : ℕ
  pub management_routes : List Text

pub record ServiceProfile : Type 0 where
  pub profile : Profile
  pub open profile use *
  pub subnet : Text

pub record Peer : Type 0 where
  pub device_id : Text
  pub public_key : Text
  pub host : ℕ
  pub exit_id : Text
  pub service : Bool
  pub name : Text
  pub management : Text

pub record Status : Type 0 where
  pub active : Bool
  pub last_handshake : ℕ
  pub received : ℕ
  pub sent : ℕ

-- Control and ServiceControl over a state V; `serves` says whether the value has the methods of
-- ServiceControl too.
pub record Control (V : Type 0) : Type 0 where
  pub serves : Bool
  pub info : V → V × Outcome Exit
  pub register : Text → Text → V → V × Outcome Profile
  pub remove : Text → V → V × Option Error
  pub status : Text → V → V × Outcome Status
  pub exits : V → V × Outcome (List Exit)
  pub register_exit : Text → Text → Text → V → V × Outcome Profile
  pub register_service : Text → Text → Text → Text → V → V × Outcome ServiceProfile
