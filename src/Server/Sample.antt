-- ===== src/Server/Sample.antt =====
-- A server with a user, a bridge and an app, for the examples. Its hash and its signature are
-- concatenations, and its base64 shifts every byte.
use relayent.Base.{
  ℕ, ◌+◌, ◌-◌, Text, codes, ◌≡◌, refl, ap, false, [], ◌∷◌, ◌++◌, Option, none, some, arith,
}
use relayent.Strings.Split.{occurs}
use relayent.Queue.Defs.{new_queue}
use relayent.Security.Keys.{no_keys}
use relayent.Security.Limiter.{auth_limiter, job_limiter}
use relayent.Bolt.Rows.{rows_bolt}
use relayent.Store.Records.{User, AppCred, BridgeBinding, Principal, role_user, scope_enqueue}
use relayent.Store.Users.{Store}
use relayent.Server.Defs.{Externals, Request, Server}
use relayent.Server.Auth.{app_of}
use relayent.Server.Sessions.{Readable}

abbrev shift : Text → Text
shift [] = []
shift (c ∷ s) = (c + 200) ∷ shift s

abbrev unshift : Text → Text
unshift [] = []
unshift (c ∷ s) = (c - 200) ∷ unshift s

abbrev one_number : Text → Option ℕ
one_number (n ∷ []) = some n
one_number s = none

abbrev pub ext : Externals
ext = record {
  digest = λ s. s;
  keyed_digest = λ key msg. key ++ msg;
  encode64 = shift;
  decode64 = λ s. some (unshift s);
  show_number = λ n. n ∷ [];
  scan_number = one_number;
  parse_number = one_number;
  marshal_length = λ s. 0;
  net = record { split_host_port = λ s. none; ip_is_loopback = λ s. none };
}

unshift-shift : (s : Text) → unshift (shift s) ≡ s
unshift-shift [] = refl
unshift-shift (c ∷ s) = let e : c + 200 - 200 ≡ c = omega arith in cc (e, unshift-shift s)

shift-plain : (s : Text) → occurs b'|' (shift s) ≡ false
unfolding occurs
shift-plain [] = refl
shift-plain (c ∷ s) = ground (arith, shift-plain s)

pub ext-Readable : Readable ext
ext-Readable = record {
  decode-encode = λ s. ap (λ t. some t) (unshift-shift s);
  encode-plain = shift-plain;
  scan-show = λ n. refl;
}

abbrev pub ann : User
ann = record {
  sub = codes "ann";
  email = codes "ann@x";
  display_name = [];
  role = role_user;
  disabled = false;
  created_at = 7;
}

abbrev pub bridge : BridgeBinding
bridge = record {
  bridge_id = codes "b";
  user_sub = codes "ann";
  cred_hash = codes "secret";
  enrolled_at = 8;
  last_seen = 0;
}

abbrev pub hub : AppCred
hub = record {
  id = codes "h";
  app_id = codes "hub";
  key_hash = codes "hush";
  scopes = scope_enqueue ∷ [];
  revoked = false;
  created_at = 8;
}

abbrev pub store : Store rows_bolt
store = record {
  users = record { rows = (codes "ann", ann) ∷ []; seq = 0 };
  app_creds = record { rows = (codes "h", hub) ∷ []; seq = 0 };
  enroll_tokens = record {
    rows = (codes "t", record { user_sub = codes "ann"; expires_at = 100; redeemed_at = 0 }) ∷ [];
    seq = 0;
  };
  bindings = record { rows = (codes "b", bridge) ∷ []; seq = 0 };
  audit = record { rows = []; seq = 0 };
  settings = record { rows = []; seq = 0 };
  demo_hits = record { rows = []; seq = 0 };
}

abbrev pub server : Server rows_bolt
server = record {
  q = new_queue 600 40;
  keys = no_keys;
  store = some store;
  session_key = none;
  admin_token = codes "root";
  auth_limit = auth_limiter;
  job_limit = job_limiter;
  trust_proxy = false;
}

abbrev pub with_bearer : Text → Request
with_bearer header = record {
  authorization = header;
  session_cookie = none;
  remote_addr = codes "1.2.3.4";
  forwarded_for = [];
  target_user = codes "ann";
  wait = [];
}

abbrev pub hub_principal : Principal
hub_principal = app_of rows_bolt ext (codes "h") hub
