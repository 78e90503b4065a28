-- ===== src/Store/Stats.antt =====
-- relay/demostats.go: DemoStats, the rollup of the visitor log.
use relayent.Base.{
  ℕ, zero, suc, ◌+◌, ◌-◌, ◌*◌, ◌/◌, Text, codes, ◌==◌, ◌==ℕ◌, ◌&&◌, ◌||◌, ltb, if◌then◌else◌, Bool,
  List, [], ◌∷◌, Option, none, some, length, take,
}
use relayent.Strings.{trim_space}
use relayent.Bolt.{Bolt, text_lt}
use relayent.Store.Records.{DemoHit}
use relayent.Store.Users.{Store, values}

-- DemoBucket; a map of counts is any list of them with distinct labels.
pub record DemoBucket : Type 0 where
  pub label : Text
  pub count : ℕ

-- bump
abbrev pub or_unknown : Text → Text
or_unknown key = if key == [] then codes "unknown" else key

unfoldable pub add_one : Text → List DemoBucket → List DemoBucket
add_one key [] = record { label = key; count = 1 } ∷ []
add_one key (b ∷ m) =
    if b.label == key then record b { count = b.count + 1 } ∷ m else b ∷ add_one key m

unfoldable pub bump : List DemoBucket → Text → List DemoBucket
unfolding add_one
bump m key = add_one (or_unknown (trim_space key)) m

-- orQ
unfoldable pub or_q : Text → Text
or_q country = if trim_space country == [] then codes "??" else country

-- topN: the order of the sort, and the sort by insertion
unfoldable pub goes_before : DemoBucket → DemoBucket → Bool
goes_before a b = ltb b.count a.count || (a.count ==ℕ b.count && text_lt a.label b.label)

unfoldable pub insert_bucket : DemoBucket → List DemoBucket → List DemoBucket
insert_bucket a [] = a ∷ []
insert_bucket a (b ∷ bs) = if goes_before a b then a ∷ b ∷ bs else b ∷ insert_bucket a bs

unfoldable pub sort_buckets : List DemoBucket → List DemoBucket
unfolding insert_bucket goes_before
sort_buckets [] = []
sort_buckets (b ∷ bs) = insert_bucket b (sort_buckets bs)

unfoldable pub top_n : List DemoBucket → ℕ → List DemoBucket
unfolding sort_buckets
top_n m n = take n (sort_buckets m)

-- demoTopN
abbrev pub demo_top_n : ℕ
demo_top_n = 10

-- A day of UTC, by its number; its text is another name for it.
abbrev pub day_of : ℕ → ℕ
day_of ts = ts / 86_400_000_000_000

-- DemoDayCount
pub record DayCount : Type 0 where
  pub date : ℕ
  pub visits : ℕ

abbrev pub days_from : ℕ → ℕ → List DayCount
days_from day zero = []
days_from day (suc n) = record { date = day; visits = 0 } ∷ days_from (day + 1) n

unfoldable pub visit_day : ℕ → List DayCount → List DayCount
visit_day day [] = []
visit_day day (d ∷ series) =
    (if d.date ==ℕ day then record d { visits = d.visits + 1 } else d) ∷ visit_day day series

-- The set of days with a visitor's hash
unfoldable pub has_pair : ℕ → Text → List (ℕ × Text) → Bool
has_pair day hash [] = Bool.false
has_pair day hash ((d, h) ∷ pairs) = d ==ℕ day && h == hash || has_pair day hash pairs

unfoldable pub add_pair : ℕ → Text → List (ℕ × Text) → List (ℕ × Text)
unfolding has_pair
add_pair day hash pairs =
    if hash == [] then pairs else if has_pair day hash pairs then pairs else (day, hash) ∷ pairs

-- The variables of the scan
pub record Tally : Type 0 where
  pub total : ℕ
  pub today : ℕ
  pub oldest : ℕ
  pub series : List DayCount
  pub uniques : List (ℕ × Text)
  pub country : List DemoBucket
  pub referrer : List DemoBucket
  pub device : List DemoBucket
  pub browser : List DemoBucket
  pub os : List DemoBucket
  pub source : List DemoBucket

abbrev pub bump_if : List DemoBucket → Text → List DemoBucket
bump_if m key = if key == [] then m else bump m key

-- The days that are asked for: 30 when it is not positive, and at most 365.
abbrev pub window : ℕ → ℕ
window days = if days ==ℕ 0 then 30 else if ltb 365 days then 365 else days

abbrev pub first_day : ℕ → ℕ → ℕ
first_day days now = day_of now - (days - 1)

abbrev pub no_tally : ℕ → ℕ → Tally
no_tally days now = record {
  total = 0;
  today = 0;
  oldest = 0;
  series = days_from (first_day days now) days;
  uniques = [];
  country = [];
  referrer = [];
  device = [];
  browser = [];
  os = [];
  source = [];
}

abbrev pub older : ℕ → ℕ → ℕ
older oldest ts = if oldest ==ℕ 0 || ltb ts oldest then ts else oldest

unfoldable pub tally_hit : ℕ → DemoHit → Tally → Tally
unfolding visit_day add_pair bump or_q
tally_hit now h t = record {
  total = t.total + 1;
  today = if day_of h.ts ==ℕ day_of now then t.today + 1 else t.today;
  oldest = older t.oldest h.ts;
  series = visit_day (day_of h.ts) t.series;
  uniques = add_pair (day_of h.ts) h.ip_hash t.uniques;
  country = bump t.country (or_q h.country);
  referrer = bump_if t.referrer h.referrer;
  device = bump t.device h.device;
  browser = bump t.browser h.browser;
  os = bump t.os h.os;
  source = bump_if t.source h.utm_source;
}

-- The scan of the whole bucket; a hit before the first day of the window is passed over.
abbrev pub is_before : ℕ → ℕ → DemoHit → Bool
is_before days now h = ltb h.ts (first_day days now * 86_400_000_000_000)

unfoldable pub tally_hits : ℕ → ℕ → List DemoHit → Tally → Tally
unfolding tally_hit
tally_hits days now [] t = t
tally_hits days now (h ∷ hits) t =
    tally_hits days now hits (if is_before days now h then t else tally_hit now h t)

-- DemoStatsResult
pub record DemoStats : Type 0 where
  pub days : ℕ
  pub total_hits : ℕ
  pub uniques : ℕ
  pub today : ℕ
  pub series : List DayCount
  pub countries : List DemoBucket
  pub referrers : List DemoBucket
  pub devices : List DemoBucket
  pub browsers : List DemoBucket
  pub oses : List DemoBucket
  pub sources : List DemoBucket
  pub oldest : ℕ

unfoldable pub roll_up : ℕ → Tally → DemoStats
unfolding top_n
roll_up days t = record {
  days = days;
  total_hits = t.total;
  uniques = length t.uniques;
  today = t.today;
  series = t.series;
  countries = top_n t.country demo_top_n;
  referrers = top_n t.referrer demo_top_n;
  devices = top_n t.device demo_top_n;
  browsers = top_n t.browser demo_top_n;
  oses = top_n t.os demo_top_n;
  sources = top_n t.source demo_top_n;
  oldest = t.oldest;
}

abbrev pub empty_stats : ℕ → DemoStats
empty_stats days = record {
  days = days;
  total_hits = 0;
  uniques = 0;
  today = 0;
  series = [];
  countries = [];
  referrers = [];
  devices = [];
  browsers = [];
  oses = [];
  sources = [];
  oldest = 0;
}

module _ (bolt : Bolt) where
  open bolt use {entries}

  -- DemoStats; a number of days that is not positive is given as 0.
  unfoldable pub demo_stats : ℕ → ℕ → Option (Store bolt) → DemoStats
  unfolding tally_hits roll_up
  demo_stats days now none = empty_stats (window days)
  demo_stats days now (some s) = roll_up (window days) (
      tally_hits (window days) now (values (λ h. h) (entries s.demo_hits))
        (no_tally (window days) now))
