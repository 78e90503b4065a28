-- ===== src/Store/Audit.antt =====
-- relay/store.go: the audit log and the backend policy.
use mathlib.Core.List.{reverse}
use relayent.Base.{
  ℕ, ◌/◌, ◌%◌, ◌^◌, zero, suc, Text, codes, ◌==◌, ◌==ℕ◌, ◌||◌, not, ltb, if◌then◌else◌, Bool, false,
  List, [], ◌∷◌, Option, none, some, keep,
}
use relayent.Strings.{trim_space}
use relayent.Bolt.{Bolt, text_lt}
use relayent.Store.Records.{AuditEvent}
use relayent.Store.Users.{name_required, Result, ok, err, ◌>>=◌, or_io, or_now, values, Store}

-- The index of an audit entry as 8 bytes, most significant first.
unfoldable pub itob : ℕ → Text
itob v =
    v / 2 ^ 56 % 256
    ∷ v / 2 ^ 48 % 256
    ∷ v / 2 ^ 40 % 256
    ∷ v / 2 ^ 32 % 256
    ∷ v / 2 ^ 24 % 256
    ∷ v / 2 ^ 16 % 256
    ∷ v / 2 ^ 8 % 256
    ∷ v % 256
    ∷ []

-- The loop of `RecentAudit` over the events, newest first.
unfoldable pub collect : Text → ℕ → List AuditEvent → List AuditEvent
collect target zero events = []
collect target (suc limit) [] = []
collect target (suc limit) (e ∷ events) =
    let taken = collect target limit events in
    let passed = collect target (suc limit) events in
    if target == [] || e.target_sub == target then e ∷ taken else passed

-- A limit of 0 or above 1000 becomes 200; a negative one is read as 0.
abbrev pub audit_limit : ℕ → ℕ
audit_limit limit = if limit ==ℕ 0 || ltb 1000 limit then 200 else limit

unfoldable pub insert_name : Text → List Text → List Text
insert_name name [] = name ∷ []
insert_name name (n ∷ ns) =
    let rest = insert_name name ns in
    if name == n then n ∷ ns else if text_lt name n then name ∷ n ∷ ns else n ∷ rest

unfoldable pub has_name : Text → List Text → Bool
has_name name [] = false
has_name name (n ∷ ns) = n == name || has_name name ns

abbrev pub names_of : Option (List Text) → List Text
names_of none = []
names_of (some names) = names

-- settingDisabledBackends
abbrev pub disabled_key : Text
disabled_key = codes "disabled_backends"

module _ (bolt : Bolt) where
  open bolt use {get, put, entries, sequence, advance}

  unfoldable pub append : AuditEvent → ℕ → Store bolt → Result (Store bolt)
  append e now s =
      let log = advance s.audit in
      let seq = sequence log in
      do
        audit ← or_io (put (itob seq) (record e { seq = seq; ts = or_now e.ts now }) log)
        ok (record s { audit = audit })

  unfoldable pub recent_audit : Option (Store bolt) → Text → ℕ → List AuditEvent
  unfolding collect
  recent_audit none target limit = []
  recent_audit (some s) target limit =
      collect target (audit_limit limit) (reverse (values (λ e. e) (entries s.audit)))

  -- The names that are switched off; the empty list on a nil store.
  unfoldable pub disabled_backends : Option (Store bolt) → List Text
  disabled_backends none = []
  disabled_backends (some s) = names_of (get s.settings disabled_key)

  -- The stored list is the sorted set of disabled names.
  unfoldable pub set_backend_enabled : Text → Bool → Store bolt → Result (Store bolt)
  unfolding insert_name
  set_backend_enabled raw_name enabled s =
      let name = trim_space raw_name in
      let names = names_of (get s.settings disabled_key) in
      if name == [] then err name_required else (do
        settings ← or_io (
            put disabled_key
              (if enabled then keep (λ n. not (n == name)) names else insert_name name names)
              s.settings)
        ok (record s { settings = settings }))
