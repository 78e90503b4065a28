-- ===== src/Store/HitLaws.antt =====
-- relay/demostats.go: what AppendDemoHit leaves of the visitor log.
use relayent.Base.{
  ℕ, zero, suc, ◌+◌, ◌-◌, ◌≤◌, ◌<◌, Text, eq_refl, ltb, ◌≡◌, refl, sym, ap, ◌∙◌, true, false, List,
  [], ◌∷◌, ◌++◌, Option, some, length, drop, arith, Bool-cases, Option-cases, inl, inr,
}
use relayent.Bolt.{Bolt, BoltLaws, text_lt, without, AllBelow}
use relayent.Bolt.Rows.{text_lt-apart}
use relayent.Store.Records.{DemoHit}
use relayent.Store.Users.{ok, or_now, Store}
use relayent.Store.Audit.{itob}
use relayent.Store.Hits.{trim_first, trim_loop, append_capped}

-- The keys are in ascending order, as bbolt keeps them.
abbrev pub AllAbove : Text → List (Text × DemoHit) → Type 0
AllAbove k [] = Unit
AllAbove k ((j, h) ∷ rows) = (text_lt k j ≡ true) × AllAbove k rows

abbrev pub IsAscending : List (Text × DemoHit) → Type 0
IsAscending [] = Unit
IsAscending ((k, h) ∷ rows) = AllAbove k rows × IsAscending rows

without-above : (k : Text) (rows : List (Text × DemoHit)) → AllAbove k rows → without k rows ≡ rows
unfolding without
without-above k [] a = refl
without-above k ((j, h) ∷ rows) (l, a) =
    rw ((text_lt-apart k j l).1) (ap (◌∷◌ (j, h)) (without-above k rows a))

without-first :
    (k : Text) (h : DemoHit) (rows : List (Text × DemoHit))
    → AllAbove k rows
    → without k ((k, h) ∷ rows) ≡ rows
unfolding without
without-first k h rows a = rw (eq_refl k) (without-above k rows a)

AllAbove-snoc :
    (k j : Text) (h : DemoHit) (rows : List (Text × DemoHit))
    → AllAbove k rows
    → text_lt k j ≡ true
    → AllAbove k (rows ++ (j, h) ∷ [])
AllAbove-snoc k j h [] a l = (l, tt)
AllAbove-snoc k j h ((i, g) ∷ rows) (b, a) l = (b, AllAbove-snoc k j h rows a l)

IsAscending-snoc :
    (j : Text) (h : DemoHit) (rows : List (Text × DemoHit))
    → IsAscending rows
    → AllBelow j rows
    → IsAscending (rows ++ (j, h) ∷ [])
IsAscending-snoc j h [] s b = (tt, tt)
IsAscending-snoc j h ((k, g) ∷ rows) (a, s) (l, b) =
    (AllAbove-snoc k j h rows a l, IsAscending-snoc j h rows s b)

drop-nil : (n : ℕ) → drop {A = Text × DemoHit} n [] ≡ []
drop-nil zero = refl
drop-nil (suc n) = refl

module _ (bolt : Bolt) (laws : BoltLaws bolt) (cap : ℕ) where
  open bolt use {Bucket, put, delete, entries, sequence, advance}

  -- One round: the first entry goes.
  trim_first-lem :
      (again : Bucket DemoHit → Option (Bucket DemoHit)) (b c : Bucket DemoHit) (k : Text)
      (h : DemoHit) (rows : List (Text × DemoHit))
      → AllAbove k rows
      → entries b ≡ (k, h) ∷ rows
      → trim_first bolt again b ((k, h) ∷ rows) ≡ some c
      → (d : Bucket DemoHit) × (entries d ≡ rows) × (again d ≡ some c)
  trim_first-lem again b c k h rows a e t = elim (Option-cases (delete k b)) [
    | inl n ↦ ground arith
    | inr (d, f) ↦
        (d, laws.entries-delete k b d f ∙ ap (without k) e ∙ without-first k h rows a, ground arith)
  ]

  goes_on :
      (fuel : ℕ) (key_n : Bucket DemoHit → ℕ) (b c : Bucket DemoHit) (rows : List (Text × DemoHit))
      → entries b ≡ rows
      → ltb cap (key_n b) ≡ true
      → trim_loop bolt (suc fuel) key_n cap b ≡ some c
      → trim_first bolt (trim_loop bolt fuel key_n cap) b rows ≡ some c
  unfolding trim_loop
  goes_on fuel key_n b c rows e y t =
      ap (trim_first bolt (trim_loop bolt fuel key_n cap) b) (sym e) ∙ ground arith

  stops :
      (fuel : ℕ) (key_n : Bucket DemoHit → ℕ) (b c : Bucket DemoHit)
      → ltb cap (key_n b) ≡ false
      → trim_loop bolt (suc fuel) key_n cap b ≡ some c
      → b ≡ c
  unfolding trim_loop
  stops fuel key_n b c y t = ground arith

  -- Where the count is that of the entries, the oldest go until the cap is met.
  trim_loop-counted :
      (fuel : ℕ) (key_n : Bucket DemoHit → ℕ) (b c : Bucket DemoHit) (rows : List (Text × DemoHit))
      → ((d : Bucket DemoHit) → key_n d ≡ length (entries d))
      → entries b ≡ rows
      → IsAscending rows
      → length rows < fuel
      → trim_loop bolt fuel key_n cap b ≡ some c
      → entries c ≡ drop (length rows - cap) rows
  trim_loop-counted zero key_n b c rows n e s l t = elim l [ ]
  trim_loop-counted (suc fuel) key_n b c [] n e s l t =
      let count : key_n b ≡ 0 = n b ∙ ap length e in
      ap entries (sym (stops fuel key_n b c (ground arith) t)) ∙ e ∙ sym (drop-nil (0 - cap))
  trim_loop-counted (suc fuel) key_n b c ((k, h) ∷ rows) n e (a, s) l t =
      let count : key_n b ≡ suc (length rows) = n b ∙ ap length e in
      elim (Bool-cases (ltb cap (key_n b))) [
        | inl y ↦
            let (d, f, g) =
              trim_first-lem (trim_loop bolt fuel key_n cap) b c k h rows a e
                (goes_on fuel key_n b c ((k, h) ∷ rows) e y t) in
            trim_loop-counted fuel key_n d c rows n f s (omega arith) g
            ∙ ap (λ m. drop m ((k, h) ∷ rows)) (step (ground arith))
        | inr z ↦
            ap entries (sym (stops fuel key_n b c z t))
            ∙ e
            ∙ ap (λ m. drop m ((k, h) ∷ rows)) (rest (ground arith))
      ]
    where
      step : cap ≤ length rows → suc (length rows - cap) ≡ suc (length rows) - cap
      step q = omega arith

      rest : suc (length rows) ≤ cap → 0 ≡ suc (length rows) - cap
      rest q = omega arith

  -- Where the count does not follow the deletions, and is above the cap, all entries go.
  trim_loop-stale :
      (fuel : ℕ) (key_n : Bucket DemoHit → ℕ) (b c : Bucket DemoHit) (rows : List (Text × DemoHit))
      → ((d : Bucket DemoHit) → ltb cap (key_n d) ≡ true)
      → entries b ≡ rows
      → IsAscending rows
      → length rows < fuel
      → trim_loop bolt fuel key_n cap b ≡ some c
      → entries c ≡ []
  trim_loop-stale zero key_n b c rows n e s l t = elim l [ ]
  trim_loop-stale (suc fuel) key_n b c [] n e s l t =
      let q : b ≡ c = (let r = goes_on fuel key_n b c [] e (n b) t in cc) in ap entries (sym q) ∙ e
  trim_loop-stale (suc fuel) key_n b c ((k, h) ∷ rows) n e (a, s) l t =
      let (d, f, g) =
        trim_first-lem (trim_loop bolt fuel key_n cap) b c k h rows a e
          (goes_on fuel key_n b c ((k, h) ∷ rows) e (n b) t) in
      trim_loop-stale fuel key_n d c rows n f s (omega arith) g

abbrev pub stamped_hit : DemoHit → ℕ → DemoHit
stamped_hit h now = record h { ts = or_now h.ts now }

module _ (bolt : Bolt) (laws : BoltLaws bolt) (cap : ℕ) where
  open bolt use {Bucket, put, entries, sequence, advance}

  -- The keys of the log are ascending, and the next number's key is above them.
  abbrev pub IsHitLog : Store bolt → Type 0
  IsHitLog s =
      IsAscending (entries s.demo_hits)
      × AllBelow (itob (sequence s.demo_hits + 1)) (entries s.demo_hits)

  -- The entries with the new hit, before the trim.
  abbrev pub with_hit : Store bolt → DemoHit → ℕ → List (Text × DemoHit)
  with_hit s h now =
      entries s.demo_hits ++ (itob (sequence s.demo_hits + 1), stamped_hit h now) ∷ []

  put_hit :
      (b added : Bucket DemoHit) (h : DemoHit)
      → AllBelow (itob (sequence b + 1)) (entries b)
      → put (itob (sequence (advance b))) h (advance b) ≡ some added
      → entries added ≡ entries b ++ (itob (sequence b + 1), h) ∷ []
  put_hit b added h below p =
      let below' : AllBelow (itob (sequence (advance b))) (entries (advance b)) =
        rw (laws.sequence-advance b) (rw (laws.entries-advance b) below) in
      laws.entries-put_last (itob (sequence (advance b))) h (advance b) added p below'
      ∙ ap (λ (rows : List (Text × DemoHit)). rows ++ (itob (sequence (advance b)), h) ∷ [])
          (laws.entries-advance b)
      ∙ ap (λ n. entries b ++ (itob n, h) ∷ []) (laws.sequence-advance b)

  append-inversion :
      (key_n : Bucket DemoHit → Bucket DemoHit → ℕ) (h : DemoHit) (now : ℕ) (s t : Store bolt)
      → IsHitLog s
      → append_capped bolt cap key_n h now s ≡ ok t
      → (added : Bucket DemoHit) × (entries added ≡ with_hit s h now)
        × (trim_loop bolt (length (entries added) + 1) (key_n s.demo_hits) cap added
            ≡ some t.demo_hits)
  unfolding append_capped
  append-inversion key_n h now s t (asc, below) e =
      elim (Option-cases
        (put (itob (sequence (advance s.demo_hits))) (stamped_hit h now) (advance s.demo_hits))) [
          | inl n ↦ ground arith
          | inr (added, p) ↦
              elim (Option-cases
                (trim_loop bolt (length (entries added) + 1) (key_n s.demo_hits) cap added)) [
                  | inl n ↦ ground arith
                  | inr (trimmed, q) ↦
                      let r : record s { demo_hits = trimmed } ≡ t = ground arith in
                      (
                        added,
                        put_hit s.demo_hits added (stamped_hit h now) below p,
                        q ∙ ap (λ (u : Store bolt). some u.demo_hits) r,
                      )
                ]
        ]

  -- Where the count of the bucket's statistics is that of its entries, a visit that is recorded is the
  -- last entry of the log, and of the earlier ones the oldest are dropped until the cap is met.
  pub append_capped-trims :
      (key_n : Bucket DemoHit → Bucket DemoHit → ℕ) (h : DemoHit) (now : ℕ) (s t : Store bolt)
      → ((committed b : Bucket DemoHit) → key_n committed b ≡ length (entries b))
      → IsHitLog s
      → append_capped bolt cap key_n h now s ≡ ok t
      → entries t.demo_hits ≡ drop (length (with_hit s h now) - cap) (with_hit s h now)
  append_capped-trims key_n h now s t n log e =
      let (added, f, g) = append-inversion key_n h now s t log e in
      trim_loop-counted bolt laws cap (length (entries added) + 1) (key_n s.demo_hits) added
        t.demo_hits (with_hit s h now) (n s.demo_hits) f
        (IsAscending-snoc (itob (sequence s.demo_hits + 1)) (stamped_hit h now)
          (entries s.demo_hits) log.0 log.1)
        (omega (arith, ap length f)) g

  -- Where the statistics count the committed entries only, as bbolt's do in a transaction that writes,
  -- the next visit after the log has grown past the cap leaves none at all, not even its own.
  pub append_capped-wipes :
      (key_n : Bucket DemoHit → Bucket DemoHit → ℕ) (h : DemoHit) (now : ℕ) (s t : Store bolt)
      → ((committed b : Bucket DemoHit) → key_n committed b ≡ length (entries committed))
      → cap < length (entries s.demo_hits)
      → IsHitLog s
      → append_capped bolt cap key_n h now s ≡ ok t
      → entries t.demo_hits ≡ []
  append_capped-wipes key_n h now s t n full log e =
      let (added, f, g) = append-inversion key_n h now s t log e in
      trim_loop-stale bolt laws cap (length (entries added) + 1) (key_n s.demo_hits) added
        t.demo_hits (with_hit s h now) (λ d. above d (n s.demo_hits d)) f
        (IsAscending-snoc (itob (sequence s.demo_hits + 1)) (stamped_hit h now)
          (entries s.demo_hits) log.0 log.1)
        (omega (arith, ap length f)) g
    where
      above :
          (d : Bucket DemoHit)
          → key_n s.demo_hits d ≡ length (entries s.demo_hits)
          → ltb cap (key_n s.demo_hits d) ≡ true
      above d q = ground arith
