-- ===== src/Server/Defs.antt =====
-- relay/main.go: the server, requests and responses.
use relayent.Base.{ℕ, Text, ◌==◌, if◌then◌else◌, Bool, [], Option, none, some, take}
use relayent.Api.{Job, JobResult, BridgeCapabilities}
use relayent.Strings.{trim_space, cut}
use relayent.Queue.Defs.{Queue}
use relayent.Queue.Jobs.{CancelState}
use relayent.Security.Keys.{KeySet, Net}
use relayent.Security.Limiter.{Limiter}
use relayent.Bolt.{Bolt}
use relayent.Store.Users.{Store}

-- Go's packages that the handlers call, as functions.
pub record Externals : Type 0 where
  -- base64.RawURLEncoding.EncodeToString of sha256.Sum256
  pub digest : Text → Text
  -- hex.EncodeToString of HMAC-SHA256, by key and message
  pub keyed_digest : Text → Text → Text
  -- base64.RawURLEncoding
  pub encode64 : Text → Text
  pub decode64 : Text → Option Text
  -- fmt's "%d", written and scanned; a negative number, always in the past here, is scanned as `none`
  pub show_number : ℕ → Text
  pub scan_number : Text → Option ℕ
  -- strconv.Atoi, with `none` for an error or a negative number
  pub parse_number : Text → Option ℕ
  -- the length of json.Marshal of a value
  pub marshal_length : Text → ℕ
  pub net : Net

-- hashSecret, keyFingerprint, verifySecret
unfoldable pub hash_secret : Externals → Text → Text
hash_secret ext secret = ext.digest secret

unfoldable pub key_fingerprint : Externals → Text → Text
key_fingerprint ext key = take 8 (ext.digest key)

unfoldable pub verify_secret : Externals → Text → Text → Bool
unfolding hash_secret
verify_secret ext presented stored_hash = hash_secret ext presented == stored_hash

-- What the handlers read of a request; a header or a query value that is missing is empty.
pub record Request : Type 0 where
  pub authorization : Text
  pub session_cookie : Option Text
  pub remote_addr : Text
  pub forwarded_for : Text
  pub target_user : Text
  pub wait : Text

-- The outcome of `decode`: a body, or a JSON error that has been answered.
pub data Decoded (A : Type 0) : Type 0 where
  decoded : A → Decoded A
  empty_body invalid_json : Decoded A

-- The error responses, each with its own text in the source.
pub data Failure : Type 0 where
  bad_credentials too_many_attempts not_permitted : Failure
  missing_body bad_json : Failure
  enrollment_off token_required bad_token user_not_active : Failure
  credential_not_issued binding_not_recorded : Failure
  may_not_enqueue backend_required prompt_required backend_disabled job_rate_exceeded : Failure
  target_required target_unknown only_for_itself only_own_jobs : Failure
  unknown_job unknown_user unknown_credential unknown_bridge unknown_backend : Failure
  sub_and_email_required user_not_created role_invalid self_demotion self_deletion : Failure
  token_not_issued app_id_required scope_forbidden credential_not_recorded : Failure
  backend_unsupported policy_not_updated : Failure
  login_state_invalid exchange_failed no_id_token token_unverified claims_unreadable : Failure
  domain_forbidden user_not_recorded : Failure
  not_found : Failure

pub data Body : Type 0 where
  failure : Failure → Body
  no_body : Body
  recorded : Body
  job_id_body : Text → Body
  job_body : Job → Body
  result_body : JobResult → Body
  -- CancelResponse; its text follows from the state
  cancel_body : Text → Bool → CancelState → Body
  online_body : Bool → Body
  -- the reported capabilities, the time of the report (0 for none), and presence
  capabilities_body : BridgeCapabilities → ℕ → Bool → Body
  enrolled_body : Text → Text → Body
  sub_body : Text → Body
  role_body : Text → Text → Body
  disabled_body : Text → Bool → Body
  token_body : Text → ℕ → Body
  credential_body : Text → Text → Body
  id_body : Text → Body
  backend_body : Text → Bool → Body
  -- a redirection and the session cookie that comes with it
  redirect_body : Text → Text → Body

pub record Response : Type 0 where
  pub status : ℕ
  pub body : Body

abbrev pub write_err : ℕ → Failure → Response
write_err status f = record { status = status; body = failure f }

abbrev pub write_json : ℕ → Body → Response
write_json status body = record { status = status; body = body }

-- A handler's access to its body.
abbrev pub decode_or {ℓ} : {A : Type 0} {B : Type ℓ} → Decoded A → (Response → B) → (A → B) → B
decode_or (decoded a) refuse next = next a
decode_or empty_body refuse next = refuse (write_err 400 missing_body)
decode_or invalid_json refuse next = refuse (write_err 400 bad_json)

module _ (bolt : Bolt) where
  pub record Server : Type 0 where
    pub q : Queue
    pub keys : KeySet
    pub store : Option (Store bolt)
    -- the session key, when OIDC is configured
    pub session_key : Option Text
    pub admin_token : Text
    pub auth_limit : Limiter
    pub job_limit : Limiter
    pub trust_proxy : Bool

abbrev first_hop : Text → Option (Text × Text) → Text
first_hop xff none = trim_space xff
first_hop xff (some (before, after)) = if before == [] then trim_space xff else trim_space before

abbrev host_or : Text → Option Text → Text
host_or addr none = addr
host_or addr (some host) = host

unfoldable pub client_ip : Externals → Bool → Request → Text
client_ip ext trust_proxy r =
    let direct : Text = host_or r.remote_addr (ext.net.split_host_port r.remote_addr) in
    if trust_proxy
    then (if r.forwarded_for == []
        then direct
        else first_hop r.forwarded_for (cut b',' r.forwarded_for))
    else direct
