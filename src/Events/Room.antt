-- ===== src/Events/Room.antt =====
-- events/room.rs: the contents of the known room events. `J` is `serde_json::Value`.
use kerux.Prelude.{ℕ, String, Bool, Option, none, some}
use kerux.Prelude.Equality.{Eq, string_eq}
use kerux.Prelude.Maps.{HashMap}
use kerux.Mxid.{MatrixId, mxid_eq}

pub record PreviousRoom : Type 0 where
  pub room_id : String
  pub event_id : String

pub record Create (J : Type 0) : Type 0 where
  pub creator : MatrixId
  pub room_version : Option String
  pub predecessor : Option PreviousRoom
  pub extra : HashMap String J

pub data JoinRule : Type 0 where
  public knock invite private : JoinRule

JoinRule-discrete : Discrete JoinRule
JoinRule-discrete = hlevel

instance unfoldable pub join_rule_eq : Eq JoinRule
unfolding JoinRule-discrete
join_rule_eq = record { dec = JoinRule-discrete }

pub record JoinRules : Type 0 where
  pub join_rule : JoinRule

pub data HistoryVisibilityType : Type 0 where
  invited joined shared world_readable : HistoryVisibilityType

pub record HistoryVisibility : Type 0 where
  pub history_visibility : HistoryVisibilityType

pub data GuestAccessType : Type 0 where
  can_join forbidden : GuestAccessType

pub record GuestAccess : Type 0 where
  pub guest_access : Option GuestAccessType

pub record Name : Type 0 where
  pub name : Option String

pub record Topic : Type 0 where
  pub topic : Option String

pub record Notifications : Type 0 where
  pub room : ℕ

pub record PowerLevels : Type 0 where
  pub ban : Option ℕ
  pub invite : Option ℕ
  pub kick : Option ℕ
  pub redact : Option ℕ
  pub events : HashMap String ℕ
  pub events_default : Option ℕ
  pub state_default : Option ℕ
  pub users : HashMap MatrixId ℕ
  pub users_default : Option ℕ
  pub notifications : Option Notifications

pub data Membership : Type 0 where
  invite join knock leave ban : Membership

Membership-discrete : Discrete Membership
Membership-discrete = hlevel

instance unfoldable pub membership_eq : Eq Membership
unfolding Membership-discrete
membership_eq = record { dec = Membership-discrete }

pub record Member : Type 0 where
  pub avatar_url : Option String
  pub displayname : Option String
  pub membership : Membership
  pub is_direct : Option Bool

pub record Redaction : Type 0 where
  pub reason : Option String

-- `Option::unwrap_or`
abbrev pub unwrap_or {ℓ} : {A : Type ℓ} → Option A → A → A
unwrap_or none d = d
unwrap_or (some a) d = a

-- The getters of `PowerLevels`, each a method of the same name.
