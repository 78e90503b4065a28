-- ===== src/Store/AuditOrder.antt =====
-- relay/store.go: the audit log is read newest first.
use mathlib.Core.List.{reverse, reverse-append}
use relayent.Base.{
  ℕ, ◌+◌, ◌/◌, ◌%◌, ◌^◌, ◌≤◌, ◌<◌, zero, suc, Text, ◌==◌, ◌||◌, ◌≡◌, refl, ap, subst, sym, ◌∙◌,
  take, keep, Bool, true, List, [], ◌∷◌, ◌++◌, some, arith, Bool-cases, inl, inr,
}
use relayent.Bolt.{Bolt, BoltLaws, text_lt, AllBelow}
use relayent.Store.Records.{AuditEvent}
use relayent.Store.Users.{or_io-ok, ok, or_now, values, Store, open_store}
use relayent.Store.Audit.{itob, collect, audit_limit, append, recent_audit}

digit-lt :
    (x y : ℕ) (s t : Text)
    → x ≤ y
    → x / 256 ≡ y / 256
    → (x ≡ y → text_lt s t ≡ true)
    → text_lt (x % 256 ∷ s) (y % 256 ∷ t) ≡ true
unfolding text_lt
digit-lt x y s t le high low = ground (arith, low)

-- The byte order of the audit keys is the order of the numbers, below 2^64.
pub itob_mono : (a b : ℕ) → a < b → b < 2 ^ 64 → text_lt (itob a) (itob b) ≡ true
unfolding itob
itob_mono a b h w = digit-lt (a / 2 ^ 56) (b / 2 ^ 56) _ _ (omega arith) (omega arith) λ e7.
    digit-lt (a / 2 ^ 48) (b / 2 ^ 48) _ _ (omega arith) (omega arith) λ e6.
      digit-lt (a / 2 ^ 40) (b / 2 ^ 40) _ _ (omega arith) (omega arith) λ e5.
        digit-lt (a / 2 ^ 32) (b / 2 ^ 32) _ _ (omega arith) (omega arith) λ e4.
          digit-lt (a / 2 ^ 24) (b / 2 ^ 24) _ _ (omega arith) (omega arith) λ e3.
            digit-lt (a / 2 ^ 16) (b / 2 ^ 16) _ _ (omega arith) (omega arith) λ e2.
              digit-lt (a / 2 ^ 8) (b / 2 ^ 8) _ _ (omega arith) (omega arith)
                λ e1. digit-lt a b [] [] (omega arith) (omega arith) λ e0. absurd (omega arith)

-- The event is about the user that the reader asks for; an empty name asks for all.
abbrev pub matches : Text → AuditEvent → Bool
matches target e = target == [] || e.target_sub == target

-- The loop of `RecentAudit` is "keep the matching events, then take the first `limit`".
collect-take :
    (target : Text) (limit : ℕ) (events : List AuditEvent)
    → collect target limit events ≡ take limit (keep (matches target) events)
unfolding collect
collect-take target zero events = refl
collect-take target (suc limit) [] = refl
collect-take target (suc limit) (e ∷ events) = elim (Bool-cases (matches target e)) [
  | inl y ↦ rw y (ap (◌∷◌ e) (collect-take target limit events))
  | inr n ↦ rw n (collect-take target (suc limit) events)
]

-- Each entry stands under the key of its own number, and no number is above `n`.
abbrev pub Numbered : ℕ → List (Text × AuditEvent) → Type 0
Numbered n [] = Unit
Numbered n ((k, e) ∷ rows) = (k ≡ itob e.seq) × (e.seq ≤ n) × Numbered n rows

Numbered-below :
    (n : ℕ) (rows : List (Text × AuditEvent))
    → n + 1 < 2 ^ 64
    → Numbered n rows
    → AllBelow (itob (n + 1)) rows
Numbered-below n [] w h = tt
Numbered-below n ((k, e) ∷ rows) w h =
    (rw h.0 (itob_mono e.seq (n + 1) (omega (arith, h.1)) w), Numbered-below n rows w h.2)

Numbered-append :
    (n : ℕ) (rows : List (Text × AuditEvent)) (e : AuditEvent)
    → Numbered n rows
    → e.seq ≡ n + 1
    → Numbered (n + 1) (rows ++ (itob (n + 1), e) ∷ [])
Numbered-append n [] e h s = (ap itob (sym s), omega arith, tt)
Numbered-append n ((k, x) ∷ rows) e h s = (h.0, omega (arith, h.1), Numbered-append n rows e h.2 s)

values-append {ℓ κ} :
    {A : Type ℓ} {B : Type κ} (f : A → B) (rows : List (Text × A)) (k : Text) (v : A)
    → values f (rows ++ (k, v) ∷ []) ≡ values f rows ++ f v ∷ []
values-append f [] k v = refl
values-append f ((j, x) ∷ rows) k v = ap (◌∷◌ (f x)) (values-append f rows k v)

module _ (bolt : Bolt) (laws : BoltLaws bolt) where
  open bolt use {Bucket, put, entries, sequence, advance}
  open laws use {
    entries-put_last, entries-advance, sequence-put, sequence-advance, entries-empty,
    sequence-empty,
  }

  -- The whole log, oldest first.
  abbrev pub log : Store bolt → List AuditEvent
  log s = values (λ e. e) (entries s.audit)

  pub IsNumbered : Store bolt → Type 0
  IsNumbered s = Numbered (sequence s.audit) (entries s.audit)

  abbrev pub stamped : AuditEvent → ℕ → Store bolt → AuditEvent
  stamped e now s = record e { seq = sequence s.audit + 1; ts = or_now e.ts now }

  pub open_store-IsNumbered : IsNumbered (open_store bolt)
  unfolding open_store IsNumbered
  open_store-IsNumbered = rw (entries-empty AuditEvent) tt

  append-entries :
      (e : AuditEvent) (now : ℕ) (s s' : Store bolt)
      → IsNumbered s
      → sequence s.audit + 1 < 2 ^ 64
      → append bolt e now s ≡ ok s'
      → (entries s'.audit ≡ entries s.audit ++ (itob (sequence s.audit + 1), stamped e now s) ∷ [])
        × (sequence s'.audit ≡ sequence s.audit + 1)
  unfolding append IsNumbered
  append-entries e now s s' n w h =
      let seq = sequence-advance s.audit in
      let (audit, written, e') =
        or_io-ok
          (put (itob (sequence (advance s.audit)))
            (record e { seq = sequence (advance s.audit); ts = or_now e.ts now }) (advance s.audit))
          (λ audit. record s { audit = audit }) s' h in
      let log_is = ap (λ (t : Store bolt). t.audit) e' in
      let at_next : put (itob (sequence s.audit + 1)) (stamped e now s) (advance s.audit)
          ≡ some audit =
        subst
          (λ (n : ℕ).
            put (itob n) (record e { seq = n; ts = or_now e.ts now }) (advance s.audit)
            ≡ some audit)
          seq written in
      let below : AllBelow (itob (sequence s.audit + 1)) (entries (advance s.audit)) =
        subst (AllBelow (itob (sequence s.audit + 1))) (sym (entries-advance s.audit))
          (Numbered-below (sequence s.audit) (entries s.audit) w n) in
      (
        ap entries (sym log_is)
            ∙ entries-put_last (itob (sequence s.audit + 1)) (stamped e now s) (advance s.audit)
                audit at_next below
            ∙ ap (λ rows. rows ++ (itob (sequence s.audit + 1), stamped e now s) ∷ [])
                (entries-advance s.audit),
        ap sequence (sym log_is)
            ∙ sequence-put (itob (sequence s.audit + 1)) (stamped e now s) (advance s.audit) audit
                at_next
            ∙ seq,
      )

  -- An audit event that is written gets the next number and the time, is added at the end of the log,
  -- which keeps all it had, and `RecentAudit` then shows it first: it returns the matching events,
  -- newest first, up to the limit. (The log is numbered as `Append` numbers it, and its length is
  -- below 2^64 - 1.) The log stays numbered in this way.
  pub recent_audit-append :
      (e : AuditEvent) (now : ℕ) (s s' : Store bolt) (target : Text) (limit : ℕ)
      → IsNumbered s
      → sequence s.audit + 1 < 2 ^ 64
      → append bolt e now s ≡ ok s'
      → (log s' ≡ log s ++ stamped e now s ∷ [])
        × (recent_audit bolt (some s') target limit
            ≡ take (audit_limit limit) (keep (matches target) (stamped e now s ∷ reverse (log s))))
        × IsNumbered s'
  unfolding IsNumbered recent_audit
  recent_audit-append e now s s' target limit n w h =
      let a = append-entries e now s s' n w h in
      let grown =
        ap (values (λ e. e)) a.0
        ∙ values-append (λ e. e) (entries s.audit) (itob (sequence s.audit + 1))
            (stamped e now s) in
      (
        grown,
        ap (λ (l : List AuditEvent). collect target (audit_limit limit) (reverse l)) grown
            ∙ ap (collect target (audit_limit limit))
                (reverse-append (log s) (stamped e now s ∷ []))
            ∙ collect-take target (audit_limit limit) (stamped e now s ∷ reverse (log s)),
        rw (a.0, a.1)
            (Numbered-append (sequence s.audit) (entries s.audit) (stamped e now s) n refl),
      )
