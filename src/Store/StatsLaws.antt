-- ===== src/Store/StatsLaws.antt =====
-- relay/demostats.go: the daily series is exact, and the top labels do not depend on the map's order.
use mathlib.Core.List.Perm
use mathlib.Core.List.{Perm, is_set, foldr}
use native.Mathlib.Nat.{ℕ_set}
use relayent.Base.{
  ℕ, zero, suc, ◌+◌, ◌*◌, ◌/◌, ◌≤◌, ◌<◌, Text, ◌==ℕ◌, if◌then◌else◌, ◌≡◌, refl, sym, ap, ◌∙◌, true,
  false, List, [], ◌∷◌, some, length, take, length-take-le, arith, Bool-cases, inl, inr, ◌⊎◌,
}
use relayent.Bolt.{Bolt, text_lt}
use relayent.Store.Records.{DemoHit}
use relayent.Store.Users.{Store, values}
use relayent.Store.Stats.{
  DemoBucket, goes_before, insert_bucket, sort_buckets, top_n, day_of, DayCount, days_from,
  visit_day, Tally, window, first_day, no_tally, tally_hit, is_before, tally_hits, roll_up,
  demo_stats,
}

-- The hits of a day
abbrev pub count_on : ℕ → List DemoHit → ℕ
count_on day [] = 0
count_on day (h ∷ hits) = (if h.ts / 86_400_000_000_000 ==ℕ day then 1 else 0) + count_on day hits

abbrev plus_visits : List DemoHit → List DayCount → List DayCount
plus_visits hits [] = []
plus_visits hits (d ∷ series) =
    record d { visits = d.visits + count_on d.date hits } ∷ plus_visits hits series

abbrev FromDay : ℕ → List DayCount → Type 0
FromDay first [] = Unit
FromDay first (d ∷ series) = (first ≤ d.date) × FromDay first series

plus_visits-nil : (series : List DayCount) → plus_visits [] series ≡ series
plus_visits-nil [] = refl
plus_visits-nil (d ∷ series) = ground (arith, plus_visits-nil series)

plus_visits-visit :
    (h : DemoHit) (hits : List DemoHit) (series : List DayCount)
    → plus_visits hits (visit_day (day_of h.ts) series) ≡ plus_visits (h ∷ hits) series
unfolding visit_day
plus_visits-visit h hits [] = refl
plus_visits-visit h hits (d ∷ series) = elim (Bool-cases (d.date ==ℕ day_of h.ts)) [
  | inl y ↦ rw y (ground (arith, plus_visits-visit h hits series))
  | inr n ↦ rw n (ground (arith, plus_visits-visit h hits series))
]

plus_visits-before :
    (first : ℕ) (h : DemoHit) (hits : List DemoHit) (series : List DayCount)
    → FromDay first series
    → h.ts < first * 86_400_000_000_000
    → plus_visits (h ∷ hits) series ≡ plus_visits hits series
plus_visits-before first h hits [] f b = refl
plus_visits-before first h hits (d ∷ series) f b =
    let other : (day_of h.ts ==ℕ d.date) ≡ false = ground (arith, f.0) in
    rw other (ground (arith, plus_visits-before first h hits series f.1 b))

visit_day-FromDay :
    (first day : ℕ) (series : List DayCount)
    → FromDay first series
    → FromDay first (visit_day day series)
unfolding visit_day
visit_day-FromDay first day [] f = tt
visit_day-FromDay first day (d ∷ series) f =
    (ground (arith, f.0), visit_day-FromDay first day series f.1)

abbrev next_tally : ℕ → ℕ → DemoHit → Tally → Tally
next_tally days now h t = if is_before days now h then t else tally_hit now h t

next_tally-series :
    (days now : ℕ) (h : DemoHit) (hits : List DemoHit) (t : Tally)
    → FromDay (first_day days now) t.series
    → FromDay (first_day days now) (next_tally days now h t).series
      × (plus_visits hits (next_tally days now h t).series ≡ plus_visits (h ∷ hits) t.series)
unfolding tally_hit
next_tally-series days now h hits t f = elim (Bool-cases (is_before days now h)) [
  | inl y ↦ rw y (f, sym (plus_visits-before (first_day days now) h hits t.series f (ground arith)))
  | inr n ↦ rw n (
    visit_day-FromDay (first_day days now) (day_of h.ts) t.series f,
    plus_visits-visit h hits t.series,
  )
]

tally_hits-series :
    (days now : ℕ) (hits : List DemoHit) (t : Tally)
    → FromDay (first_day days now) t.series
    → (tally_hits days now hits t).series ≡ plus_visits hits t.series
unfolding tally_hits
tally_hits-series days now [] t f = sym (plus_visits-nil t.series)
tally_hits-series days now (h ∷ hits) t f =
    let (g, e) = next_tally-series days now h hits t f in
    tally_hits-series days now hits (next_tally days now h t) g ∙ e

-- The days of the window, each with the number of hits of that day.
abbrev pub counted_days : ℕ → ℕ → List DemoHit → List DayCount
counted_days day zero hits = []
counted_days day (suc n) hits =
    record { date = day; visits = count_on day hits } ∷ counted_days (day + 1) n hits

plus_visits-days :
    (day n : ℕ) (hits : List DemoHit) → plus_visits hits (days_from day n) ≡ counted_days day n hits
plus_visits-days day zero hits = refl
plus_visits-days day (suc n) hits = ground (arith, plus_visits-days (day + 1) n hits)

days_from-FromDay : (first day n : ℕ) → first ≤ day → FromDay first (days_from day n)
days_from-FromDay first day zero h = tt
days_from-FromDay first day (suc n) h = (h, days_from-FromDay first (day + 1) n (omega arith))

-- The number of days for a request: 30 for none, and 365 at most.
abbrev pub Shown : ℕ → ℕ → Type 0
Shown days n =
    ((days ≡ 0) × (n ≡ 30))
    ⊎ (((1 ≤ days) × (days ≤ 365) × (n ≡ days)) ⊎ ((365 < days) × (n ≡ 365)))

window-Shown : (days n : ℕ) → Shown days n → window days ≡ n
window-Shown days n (inl (z, e)) = ground (arith, z, e)
window-Shown days n (inr (inl (l, u, e))) = ground (arith, l, u, e)
window-Shown days n (inr (inr (l, e))) = ground (arith, l, e)

Shown-pos : (days n : ℕ) → Shown days n → 1 ≤ n
Shown-pos days n (inl (z, e)) = omega (arith, e)
Shown-pos days n (inr (inl (l, u, e))) = omega (arith, l, e)
Shown-pos days n (inr (inr (l, e))) = omega (arith, e)

-- The series of the rollup is one entry for each of the days shown, of which today is the last, in order,
-- with the number of all hits in the log of that day: 30 days when none are asked for, and at most 365.
-- (The days shown do not begin before 1970.)
pub demo_stats-series :
    (bolt : Bolt) (days now n first : ℕ) (s : Store bolt)
    → Shown days n
    → first + n ≡ now / 86_400_000_000_000 + 1
    → (demo_stats bolt days now (some s)).series
      ≡ counted_days first n (values (λ h. h) (bolt.entries s.demo_hits))
unfolding demo_stats roll_up
demo_stats-series bolt days now n first s shown last =
    let wide : window days ≡ n = window-Shown days n shown in
    let start : first_day (window days) now ≡ first =
      rw wide (omega (arith, Shown-pos days n shown, last)) in
    tally_hits-series (window days) now (values (λ h. h) (bolt.entries s.demo_hits))
      (no_tally (window days) now)
      (days_from-FromDay (first_day (window days) now) (first_day (window days) now) (window days)
        (omega arith))
    ∙ plus_visits-days (first_day (window days) now) (window days)
        (values (λ h. h) (bolt.entries s.demo_hits))
    ∙ ap (λ d. counted_days d (window days) (values (λ h. h) (bolt.entries s.demo_hits))) start
    ∙ ap (λ k. counted_days first k (values (λ h. h) (bolt.entries s.demo_hits))) wide

-- The order of the sort

text_lt_irrefl : (s : Text) → text_lt s s ≡ false
unfolding text_lt
text_lt_irrefl [] = refl
text_lt_irrefl (c ∷ s) = ground (arith, text_lt_irrefl s)

text_lt_trans : (s t u : Text) → text_lt s t ≡ true → text_lt t u ≡ true → text_lt s u ≡ true
unfolding text_lt
text_lt_trans [] [] u h k = cc
text_lt_trans [] (d ∷ t) [] h k = cc
text_lt_trans [] (d ∷ t) (e ∷ u) h k = refl
text_lt_trans (c ∷ s) [] u h k = cc
text_lt_trans (c ∷ s) (d ∷ t) [] h k = cc
text_lt_trans (c ∷ s) (d ∷ t) (e ∷ u) h k = ground (arith, text_lt_trans s t u)

text_lt-connected : (s t : Text) → text_lt s t ≡ false → text_lt t s ≡ false → s ≡ t
unfolding text_lt
text_lt-connected [] [] h k = refl
text_lt-connected [] (d ∷ t) h k = cc
text_lt-connected (c ∷ s) [] h k = cc
text_lt-connected (c ∷ s) (d ∷ t) h k = ground (arith, text_lt-connected s t)

goes_before_trans :
    (a b c : DemoBucket) → goes_before a b ≡ true → goes_before b c ≡ true → goes_before a c ≡ true
unfolding goes_before
goes_before_trans a b c h k = ground (arith, text_lt_trans a.label b.label c.label)

goes_before-asym : (a b : DemoBucket) → goes_before a b ≡ true → goes_before b a ≡ false
unfolding goes_before
goes_before-asym a b h =
    ground (arith, text_lt_trans a.label b.label a.label, text_lt_irrefl a.label)

goes_before-connected :
    (a b : DemoBucket) → goes_before a b ≡ false → goes_before b a ≡ false → a ≡ b
unfolding goes_before
goes_before-connected a b h k = ground (arith, text_lt-connected a.label b.label)

insert_bucket_comm :
    (a b : DemoBucket) (bs : List DemoBucket)
    → insert_bucket a (insert_bucket b bs) ≡ insert_bucket b (insert_bucket a bs)
unfolding insert_bucket
insert_bucket_comm a b [] = ground (arith, goes_before-asym a b, goes_before-connected a b)
insert_bucket_comm a b (c ∷ bs) = ground (
  arith,
  insert_bucket_comm a b bs,
  goes_before-asym a b,
  goes_before-connected a b,
  goes_before_trans a b c,
  goes_before_trans b a c,
  goes_before-asym b a,
)

DemoBucket-set : IsSet DemoBucket
DemoBucket-set = hlevel (ℕ_set, is_set)

sort_buckets-foldr : (m : List DemoBucket) → sort_buckets m ≡ foldr insert_bucket [] m
unfolding sort_buckets
sort_buckets-foldr [] = refl
sort_buckets-foldr (b ∷ m) = ap (insert_bucket b) (sort_buckets-foldr m)

-- The top labels are the same for every order in which the map of counts may be ranged over, and there
-- are at most as many as were asked for.
pub top_n-perm :
    (m m' : List DemoBucket) (n : ℕ)
    → Perm m m'
    → (top_n m n ≡ top_n m' n) × (length (top_n m n) ≤ n)
unfolding top_n
top_n-perm m m' n p = (
  ap (take n) (
      sort_buckets-foldr m
      ∙ Perm.foldr-eq (is_set DemoBucket-set) insert_bucket insert_bucket_comm p []
      ∙ sym (sort_buckets-foldr m')),
  length-take-le n (sort_buckets m),
)
