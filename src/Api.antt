-- ===== src/Api.antt =====
-- The wire types of internal/api/types.go that the broker and its handlers pass around.
use relayent.Base.{Text, Bool, List, Option}

-- A field of Go type `any`: nothing, or the bytes of its JSON text.
abbrev pub Json : Type 0
Json = Option Text

pub record Message : Type 0 where
  pub role : Text
  pub content : Text

pub record Attachment : Type 0 where
  pub name : Text
  pub payload : Text
  pub mime : Text

pub record EnqueueRequest : Type 0 where
  pub backend : Text
  pub model : Text
  pub prompt : Text
  pub system : Text
  pub json_schema : Json
  pub messages : List Message
  pub effort : Text
  pub attachments : List Attachment
  pub target_user : Text

pub record Job : Type 0 where
  pub id : Text
  pub backend : Text
  pub model : Text
  pub prompt : Text
  pub system : Text
  pub json_schema : Json
  pub messages : List Message
  pub effort : Text
  pub attachments : List Attachment

-- StatusPending, StatusDone, StatusError
pub data Status : Type 0 where
  pending done error : Status

pub record ResultRequest : Type 0 where
  pub ok : Bool
  pub json : Json
  pub text : Text
  pub error : Text

pub record JobResult : Type 0 where
  pub id : Text
  pub status : Status
  pub json : Json
  pub text : Text
  pub error : Text

pub record BackendInfo : Type 0 where
  pub name : Text
  pub installed : Bool
  pub supported : Bool
  pub ready : Bool
  pub model : Text
  pub models : List Text
  pub default_model : Text
  pub models_probed : Bool

pub record BridgeCapabilities : Type 0 where
  pub version : Text
  pub hostname : Text
  pub backends : List BackendInfo
