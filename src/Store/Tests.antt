-- ===== src/Store/Tests.antt =====
-- The theorems on relay/store.go at a concrete store.
use relayent.Base.{inl, inr, codes, ◌==◌, ◌≡◌, refl, false, [], ◌∷◌, ◌++◌, some, arith}
use relayent.Bolt.{find}
use relayent.Bolt.Rows.{rows_bolt, rows-BoltLaws, place}
use relayent.Store.Records.{User, EnrollToken, AuditEvent, ev_enroll, role_user}
use relayent.Store.Users.{ok, err, token_used, Store, open_store, upsert_user}
use relayent.Store.Credentials.{redeem}
use relayent.Store.Audit.{itob, append}
use relayent.Store.AuditOrder.{recent_audit-append, log, stamped, open_store-IsNumbered}
use relayent.Strings.{trim_space, trim_left, trim_right, strip, space_width, space_width_back}
use relayent.Store.Audit.{set_backend_enabled, insert_name, disabled_key}
use mathlib.Core.List.Perm
use relayent.Base.{◌≤◌, length}
use relayent.Store.Records.{DemoHit}
use relayent.Store.Users.{values}
use relayent.Store.Stats.{DemoBucket, top_n, demo_stats}
use relayent.Store.StatsLaws.{demo_stats-series, top_n-perm, counted_days}
use relayent.Store.Laws.{redeem-once}

abbrev ann : User
ann = record {
  sub = codes "ann";
  email = codes "ann@example.com";
  display_name = [];
  role = role_user;
  disabled = false;
  created_at = 0;
}

abbrev fresh : Store rows_bolt
fresh = open_store rows_bolt

abbrev with_ann : Store rows_bolt
with_ann = record fresh {
  users = record { rows = (codes "ann", record ann { created_at = 7 }) ∷ []; seq = 0 };
}

ann-stored : upsert_user rows_bolt ann 7 fresh ≡ ok with_ann
unfolding upsert_user open_store place find ◌==◌
ann-stored = refl

abbrev token : EnrollToken
token = record { user_sub = codes "ann"; expires_at = 100; redeemed_at = 0 }

abbrev issued : Store rows_bolt
issued = record with_ann { enroll_tokens = record { rows = (codes "t", token) ∷ []; seq = 0 } }

abbrev spent : Store rows_bolt
spent = record with_ann {
  enroll_tokens = record { rows = (codes "t", record token { redeemed_at = 50 }) ∷ []; seq = 0 };
}

token-redeemed : redeem rows_bolt (codes "t") 50 issued ≡ ok (codes "ann", spent)
unfolding redeem place find ◌==◌
token-redeemed = refl

redeem-once_example : redeem rows_bolt (codes "t") 60 spent ≡ err token_used
redeem-once_example =
    (redeem-once rows_bolt rows-BoltLaws (codes "t") (codes "u") 50 60 issued spent (codes "ann")
      (omega arith) token-redeemed).0

abbrev event : AuditEvent
event = record {
  seq = 0;
  ts = 0;
  actor_sub = codes "ann";
  event = ev_enroll;
  job_id = [];
  target_sub = codes "ann";
  backend = [];
  model = [];
  status = [];
  prompt_len = 0;
  result_len = 0;
  bridge_id = [];
  host = [];
  version = [];
}

abbrev logged : Store rows_bolt
logged = record fresh {
  audit = record { rows = (itob 1, record event { seq = 1; ts = 9 }) ∷ []; seq = 1 };
}

event-appended : append rows_bolt event 9 fresh ≡ ok logged
unfolding append open_store place find ◌==◌ itob
event-appended = refl

recent_audit-append_example :
    log rows_bolt rows-BoltLaws logged
    ≡ log rows_bolt rows-BoltLaws fresh ++ stamped rows_bolt rows-BoltLaws event 9 fresh ∷ []
unfolding open_store
recent_audit-append_example =
    (recent_audit-append rows_bolt rows-BoltLaws event 9 fresh logged (codes "ann") 10
      (open_store-IsNumbered rows_bolt rows-BoltLaws) (omega arith) event-appended).0

abbrev switched_off : Store rows_bolt
switched_off = record fresh {
  settings = record { rows = (disabled_key, codes "codex" ∷ []) ∷ []; seq = 0 };
}

codex-off : set_backend_enabled rows_bolt (codes "codex") false fresh ≡ ok switched_off
unfolding set_backend_enabled insert_name open_store place find ◌==◌ trim_space trim_left trim_right
    strip space_width space_width_back
codex-off = refl

abbrev visit : DemoHit
visit = record {
  ts = 432_000_000_000_005;
  country = codes "SE";
  referrer = [];
  utm_source = [];
  utm_medium = [];
  utm_campaign = [];
  device = codes "Mobile";
  browser = [];
  os = [];
  ip_hash = codes "a1";
}

abbrev visited : Store rows_bolt
visited = record fresh {
  demo_hits = record { rows = (itob 1, visit) ∷ (itob 2, visit) ∷ []; seq = 2 };
}

demo_stats-series_example :
    (demo_stats rows_bolt 7 864_000_000_000_009 (some visited)).series
    ≡ counted_days 4 7 (values (λ h. h) visited.demo_hits.rows)
demo_stats-series_example =
    demo_stats-series rows_bolt 7 864_000_000_000_009 7 4 visited
      (inr (inl (omega arith, omega arith, refl))) refl

abbrev sweden : DemoBucket
sweden = record { label = codes "SE"; count = 3 }

abbrev norway : DemoBucket
norway = record { label = codes "NO"; count = 5 }

top_n-perm_example :
    (top_n (sweden ∷ norway ∷ []) 1 ≡ top_n (norway ∷ sweden ∷ []) 1)
    × (length (top_n (sweden ∷ norway ∷ []) 1) ≤ 1)
top_n-perm_example =
    top_n-perm (sweden ∷ norway ∷ []) (norway ∷ sweden ∷ []) 1 (Perm.swap norway sweden [])
