-- ===== src/Server/ViewLaws.antt =====
-- relay/admin.go and relay/me.go: what the lists of the console and a user's own page say.
use relayent.Base.{
  ℕ, ◌≤◌, Text, ◌==◌, ◌==ℕ◌, not, if◌then◌else◌, ◌≡◌, refl, Bool, true, false, List, [], ◌∷◌, arith,
}
use relayent.Api.{BackendInfo, BridgeCapabilities}
use relayent.Security.Sanitize.{known_backend_list}
use relayent.Bolt.{Bolt}
use relayent.Store.Users.{list_users}
use relayent.Store.Audit.{disabled_backends, has_name}
use relayent.Server.Defs.{Externals, Server}
use relayent.Server.Views.{
  AdminBackend, Rollup, count_report, roll_backends, roll_users, no_rollup, backend_rows,
  reports_of, admin_list_backends,
}

abbrev IsRollup : Rollup → Type 0
IsRollup r = (r.installed ≤ r.reporting) × (r.ready ≤ r.reporting)

count_report-IsRollup :
    (host : Text) (b : BackendInfo) (r : Rollup) → IsRollup r → IsRollup (count_report host b r)
count_report-IsRollup host b r h = ground arith

roll_backends-IsRollup :
    (name host : Text) (bs : List BackendInfo) (r : Rollup)
    → IsRollup r
    → IsRollup (roll_backends name host bs r)
unfolding roll_backends
roll_backends-IsRollup name host [] r h = h
roll_backends-IsRollup name host (b ∷ bs) r h =
    roll_backends-IsRollup name host bs _ (step (b.name == name))
  where
    step : (t : Bool) → IsRollup (if t then count_report host b r else r)
    step true = count_report-IsRollup host b r h
    step false = h

roll_users-IsRollup :
    (name : Text) (reports : List (BridgeCapabilities × ℕ × Bool)) (r : Rollup)
    → IsRollup r
    → IsRollup (roll_users name reports r)
unfolding roll_users
roll_users-IsRollup name [] r h = h
roll_users-IsRollup name ((caps, at, online) ∷ reports) r h =
    roll_users-IsRollup name reports _ (step (at ==ℕ 0))
  where
    step : (t : Bool) → IsRollup (if t then r else roll_backends name caps.hostname caps.backends r)
    step true = h
    step false = roll_backends-IsRollup name caps.hostname caps.backends r h

-- The rows are those of the names in their order; a row shows a backend as enabled exactly when the
-- policy does not list it, and counts no more installed or ready backends than reports.
abbrev pub AreRows : List Text → List Text → List AdminBackend → Type 0
AreRows disabled [] [] = Unit
AreRows disabled [] (r ∷ rows) = ⊥
AreRows disabled (name ∷ names) [] = ⊥
AreRows disabled (name ∷ names) (r ∷ rows) =
    ((r.name ≡ name)
      × (r.enabled ≡ not (has_name name disabled))
      × (r.installed_bridges ≤ r.reporting_bridges)
      × (r.ready_bridges ≤ r.reporting_bridges))
    × AreRows disabled names rows

backend_rows-AreRows :
    (disabled names : List Text) (reports : List (BridgeCapabilities × ℕ × Bool))
    → AreRows disabled names (backend_rows disabled reports names)
unfolding backend_rows
backend_rows-AreRows disabled [] reports = tt
backend_rows-AreRows disabled (name ∷ names) reports =
    let h = roll_users-IsRollup name reports no_rollup (omega arith, omega arith) in
    ((refl, refl, h.0, h.1), backend_rows-AreRows disabled names reports)

-- The list of backends for the console has a row for each backend that the relay knows, in order, which
-- shows it as enabled exactly when the stored policy does not switch it off, and which counts no more
-- installed or ready backends than were reported.
pub admin_list_backends-AreRows :
    (bolt : Bolt) (ext : Externals) (s : Server bolt) (now : ℕ)
    → AreRows
        (disabled_backends bolt s.store)
        known_backend_list
        (admin_list_backends bolt ext s now).0
unfolding admin_list_backends
admin_list_backends-AreRows bolt ext s now =
    backend_rows-AreRows (disabled_backends bolt s.store) known_backend_list
      (reports_of bolt ext s now (list_users bolt s.store))
