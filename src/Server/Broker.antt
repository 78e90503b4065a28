-- ===== src/Server/Broker.antt =====
-- relay/main.go: the handlers of jobs, presence and capabilities.
use relayent.Base.{
  ℕ, ◌+◌, ◌*◌, ◌%◌, ◌^◌, leb, Text, codes, ◌==◌, ◌&&◌, ◌||◌, not, ltb, if◌then◌else◌, Bool, true,
  false, List, [], ◌∷◌, Option, none, some, length, keep,
}
use relayent.Api.{
  Json, Message, EnqueueRequest, Job, ResultRequest, BackendInfo, BridgeCapabilities,
}
use relayent.Strings.{trim_space, to_lower}
use relayent.Security.Limiter.{Limiter, allow}
use relayent.Security.Sanitize.{sanitize_capabilities}
use relayent.Queue.Defs.{Queue, Claim, claimed, blocked, nothing, enqueue, claim_start}
use relayent.Queue.Jobs.{
  set_result, cancel, CancelState, was_pending, was_running, was_done, was_error, Fetched, unknown,
  found, waiting, fetch_start, bridge_online, report_capabilities, capabilities,
}
use relayent.Bolt.{Bolt}
use relayent.Store.Records.{
  User, AuditEvent, EventKind, ev_enqueue, ev_result, Principal, Kind, admin, user_bridge, app,
  legacy, can, scope_enqueue,
}
use relayent.Store.Users.{Result, ok, err, Store, get_user}
use relayent.Store.Audit.{append, disabled_backends, has_name}
use relayent.Server.Defs.{
  Externals, Request, Decoded, decode_or, Response, Server, Failure, write_err, write_json, no_body,
  recorded, job_id_body, job_body, result_body, cancel_body, online_body, capabilities_body,
  may_not_enqueue, backend_required, prompt_required, backend_disabled, job_rate_exceeded,
  target_required, target_unknown, only_for_itself, only_own_jobs, unknown_job,
}
use relayent.Server.Auth.{settled}

pub data Routed : Type 0 where
  routes : Text → Routed
  refuses : Failure → Routed

abbrev pub is_app : Kind → Bool
is_app app = true
is_app admin = false
is_app user_bridge = false
is_app legacy = false

abbrev pub is_nil {ℓ} : {A : Type ℓ} → List A → Bool
is_nil [] = true
is_nil (x ∷ xs) = false

abbrev pub active_target : Text → Result User → Routed
active_target target (err e) = refuses target_unknown
active_target target (ok u) = if u.disabled then refuses target_unknown else routes target

-- The loop of `enqueue` that adds up the messages.
unfoldable pub content_length : List Message → ℕ
content_length [] = 0
content_length (m ∷ ms) = length m.content + content_length ms

abbrev pub job_of : Text → EnqueueRequest → Job
job_of id req = record {
  id = id;
  backend = req.backend;
  model = req.model;
  prompt = req.prompt;
  system = req.system;
  json_schema = req.json_schema;
  messages = req.messages;
  effort = req.effort;
  attachments = req.attachments;
}

abbrev pub no_event : EventKind → AuditEvent
no_event kind = record {
  seq = 0;
  ts = 0;
  actor_sub = [];
  event = kind;
  job_id = [];
  target_sub = [];
  backend = [];
  model = [];
  status = [];
  prompt_len = 0;
  result_len = 0;
  bridge_id = [];
  host = [];
  version = [];
}

module _ (bolt : Bolt) where
  -- `target_user` of a request's body, for the principal
  unfoldable pub route_target : Principal → Text → Server bolt → Routed
  route_target p raw_target s =
      let target = trim_space raw_target in
      if is_app p.kind
      then (if target == []
          then refuses target_required
          else active_target target (get_user bolt s.store target))
      else if not (target == []) && not (target == p.user_id)
      then refuses only_for_itself
      else routes p.user_id

  -- the same for the `target_user` of a query
  unfoldable pub resolve_read_target : Principal → Request → Server bolt → Routed
  resolve_read_target p r s =
      let target = trim_space r.target_user in
      if is_app p.kind
      then (if target == []
          then refuses target_required
          else active_target target (get_user bolt s.store target))
      else if not (target == []) && not (target == p.user_id)
      then refuses only_own_jobs
      else routes p.user_id

  -- An event is appended if there is a store; a failure is ignored.
  abbrev pub appended : AuditEvent → ℕ → Option (Store bolt) → Option (Store bolt)
  appended e now none = none
  appended e now (some s) = some (settled bolt s (append bolt e now s))

  abbrev pub audit_enqueue : Principal → Text → Text → EnqueueRequest → AuditEvent
  audit_enqueue p id target req = record (no_event ev_enqueue) {
    actor_sub = p.user_id;
    job_id = id;
    target_sub = target;
    backend = req.backend;
    model = req.model;
    prompt_len = length req.prompt + content_length req.messages;
  }

  abbrev pub enqueue_limited :
      Principal
      → Text
      → ℕ
      → EnqueueRequest
      → Text
      → Bool × Limiter
      → Server bolt
      → Response × Server bolt
  enqueue_limited p id now req target (false, l) s =
      (write_err 429 job_rate_exceeded, record s { job_limit = l })
  enqueue_limited p id now req target (true, l) s = (
    write_json 202 (job_id_body id),
    record s {
      job_limit = l;
      q = enqueue target id (job_of id req) now s.q;
      store = appended (audit_enqueue p id target req) now s.store;
    },
  )

  abbrev pub enqueue_routed :
      Principal → Text → ℕ → EnqueueRequest → Routed → Server bolt → Response × Server bolt
  enqueue_routed p id now req (refuses f) s = (write_err 400 f, s)
  enqueue_routed p id now req (routes target) s =
      enqueue_limited p id now req target (allow target now s.job_limit) s

  abbrev pub backend_off : Text → Server bolt → Bool
  backend_off backend s = has_name (to_lower (trim_space backend)) (disabled_backends bolt s.store)

  abbrev pub enqueue_body :
      Principal → Text → ℕ → EnqueueRequest → Server bolt → Response × Server bolt
  enqueue_body p id now req s =
      if trim_space req.backend == []
      then (write_err 400 backend_required, s)
      else if trim_space req.prompt == [] && is_nil req.messages
      then (write_err 400 prompt_required, s)
      else if backend_off req.backend s
      then (write_err 403 backend_disabled, s)
      else enqueue_routed p id now req (route_target p req.target_user s) s

  -- `id` is what `newID` draws.
  unfoldable pub handle_enqueue :
      Decoded EnqueueRequest → Text → ℕ → Principal → Server bolt → Response × Server bolt
  handle_enqueue body id now p s =
      if can p scope_enqueue
      then decode_or body (λ r. (r, s)) (λ req. enqueue_body p id now req s)
      else (write_err 403 may_not_enqueue, s)

  abbrev pub claim_answer : Server bolt → Claim × Queue → Option Response × Server bolt
  claim_answer s (claimed id job, q) = (some (write_json 200 (job_body job)), record s { q = q })
  claim_answer s (blocked ch, q) = (none, record s { q = q })
  claim_answer s (nothing, q) = (some (write_json 204 no_body), record s { q = q })

  -- Up to the point where the handler blocks, when it does.
  unfoldable pub handle_claim_next : ℕ → Principal → Server bolt → Option Response × Server bolt
  handle_claim_next now p s = claim_answer s (claim_start p.user_id now s.q)

  module _ (ext : Externals) where
    -- 25 seconds, and at most 55, in nanoseconds. The product is a signed 64-bit number; a negative
    -- wait ends at once, as one of 0 does.
    unfoldable pub next_wait : Request → ℕ
    next_wait r = if r.wait == [] then 25_000_000_000 else elim (ext.parse_number r.wait) [
      | none ↦ 25_000_000_000
      | some secs ↦
          let wait = secs * 1_000_000_000 % 2 ^ 64 in
          if leb (2 ^ 63) wait then 0 else if ltb 55_000_000_000 wait then 55_000_000_000 else wait
    ]

    unfoldable pub json_len : Json → ℕ
    json_len none = 0
    json_len (some v) = ext.marshal_length v

    abbrev pub audit_result : Principal → Text → ResultRequest → BridgeCapabilities → AuditEvent
    audit_result p id res caps = record (no_event ev_result) {
      actor_sub = p.user_id;
      job_id = id;
      target_sub = p.user_id;
      status = if res.ok then codes "done" else codes "error";
      result_len = length res.text + json_len res.json;
      bridge_id = p.bridge_id;
      host = caps.hostname;
      version = caps.version;
    }

    abbrev pub result_answer :
        Principal → Text → ResultRequest → ℕ → Bool × Queue → Server bolt → Response × Server bolt
    result_answer p id res now (false, q) s = (write_err 404 unknown_job, s)
    result_answer p id res now (true, q) s = (
      write_json 200 recorded,
      record s {
        q = q;
        store = appended (audit_result p id res (capabilities p.user_id now q).0) now s.store;
      },
    )

    unfoldable pub handle_post_result :
        Decoded ResultRequest → Text → ℕ → Principal → Server bolt → Response × Server bolt
    unfolding json_len
    handle_post_result body id now p s =
        decode_or body (λ r. (r, s))
          (λ res. result_answer p id res now (set_result p.user_id id res s.q) s)

  abbrev pub fetch_answer : Fetched → Option Response
  fetch_answer unknown = some (write_err 404 unknown_job)
  fetch_answer (found r) = some (write_json 200 (result_body r))
  fetch_answer waiting = none

  -- 90 seconds unless configured otherwise
  unfoldable pub fetch_wait_of : Request → ℕ
  fetch_wait_of r =
      if r.wait == codes "1" || to_lower r.wait == codes "true" then 90_000_000_000 else 0

  abbrev pub fetch_routed : Text → ℕ → Routed → Server bolt → Option Response
  fetch_routed id wait (refuses f) s = some (write_err 400 f)
  fetch_routed id wait (routes target) s = fetch_answer (fetch_start target id wait s.q)

  unfoldable pub handle_fetch : Request → Text → Principal → Server bolt → Option Response
  handle_fetch r id p s = fetch_routed id (fetch_wait_of r) (resolve_read_target p r s) s

  abbrev pub cancel_response : Text → CancelState → Response
  cancel_response id was_done = write_json 200 (cancel_body id false was_done)
  cancel_response id was_error = write_json 200 (cancel_body id false was_error)
  cancel_response id was_pending = write_json 200 (cancel_body id true was_pending)
  cancel_response id was_running = write_json 200 (cancel_body id true was_running)

  abbrev pub cancel_answer :
      Text → Option CancelState × Queue → Server bolt → Response × Server bolt
  cancel_answer id (none, q) s = (write_err 404 unknown_job, record s { q = q })
  cancel_answer id (some prev, q) s = (cancel_response id prev, record s { q = q })

  abbrev pub cancel_routed : Text → Routed → Server bolt → Response × Server bolt
  cancel_routed id (refuses f) s = (write_err 400 f, s)
  cancel_routed id (routes target) s = cancel_answer id (cancel target id s.q) s

  unfoldable pub handle_cancel : Request → Text → Principal → Server bolt → Response × Server bolt
  handle_cancel r id p s = cancel_routed id (resolve_read_target p r s) s

  abbrev pub online_routed : ℕ → Routed → Server bolt → Response
  online_routed now (refuses f) s = write_err 400 f
  online_routed now (routes target) s = write_json 200 (online_body (bridge_online target now s.q))

  unfoldable pub handle_bridge_online : Request → ℕ → Principal → Server bolt → Response
  handle_bridge_online r now p s = online_routed now (resolve_read_target p r s) s

  unfoldable pub filter_disabled_backends : Server bolt → List BackendInfo → List BackendInfo
  filter_disabled_backends s backends = elim s.store [
    | none ↦ backends
    | some st ↦
        let disabled : List Text = disabled_backends bolt (some st) in
        if is_nil disabled then backends else keep (λ b. not (has_name b.name disabled)) backends
  ]

  abbrev pub capabilities_answer : Server bolt → BridgeCapabilities × ℕ × Bool → Response
  capabilities_answer s (caps, reported_at, online) = write_json 200 (
      capabilities_body (record caps { backends = filter_disabled_backends s caps.backends })
        reported_at online)

  abbrev pub capabilities_routed : ℕ → Routed → Server bolt → Response
  capabilities_routed now (refuses f) s = write_err 400 f
  capabilities_routed now (routes target) s = capabilities_answer s (capabilities target now s.q)

  unfoldable pub handle_get_capabilities : Request → ℕ → Principal → Server bolt → Response
  handle_get_capabilities r now p s = capabilities_routed now (resolve_read_target p r s) s

  unfoldable pub handle_post_capabilities :
      Decoded BridgeCapabilities → ℕ → Principal → Server bolt → Response × Server bolt
  handle_post_capabilities body now p s =
      decode_or body (λ r. (r, s))
        (λ caps. (
          write_json 200 recorded,
          record s { q = report_capabilities p.user_id (sanitize_capabilities caps) now s.q },
        ))
