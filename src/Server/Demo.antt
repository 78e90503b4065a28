-- ===== src/Server/Demo.antt =====
-- relay/demoapi.go: the visits that the demo reports, and the rollup for the console.
use relayent.Base.{
  ℕ, ◌-◌, Text, codes, ◌==◌, ◌&&◌, leb, if◌then◌else◌, [], ◌∷◌, ◌++◌, none, some, map,
}
use relayent.Strings.{trim_space, to_lower}
use relayent.Security.Sanitize.{cut_off}
use relayent.Bolt.{Bolt}
use relayent.Store.Records.{DemoHit, Principal}
use relayent.Store.Hits.{append_demo_hit}
use relayent.Store.Stats.{DemoStats, demo_stats, day_of}
use relayent.Server.Defs.{Externals, Decoded, decode_or, Response, write_json, no_body, Server}

-- demoHitIn
pub record DemoHitIn : Type 0 where
  pub ip : Text
  pub referrer : Text
  pub utm_source : Text
  pub utm_medium : Text
  pub utm_campaign : Text
  pub device : Text
  pub browser : Text
  pub os : Text

-- geoIP.Country, which is empty without a database or a hit; the date of a day; and the hexadecimal text
-- of the first 16 bytes of SHA-256.
pub record DemoExternals : Type 0 where
  pub country : Text → Text
  pub date : ℕ → Text
  pub short_digest : Text → Text

-- demoFieldMax
abbrev pub demo_field_max : ℕ
demo_field_max = 64

-- clampField
unfoldable pub clamp_field : Text → Text
clamp_field v = cut_off demo_field_max (to_lower (trim_space v))

-- strings.ToUpper of a country's code, which is ASCII
abbrev pub upper : ℕ → ℕ
upper c = if leb b'a' c && leb c b'z' then c - 32 else c

-- demoCountry
unfoldable pub demo_country : DemoExternals → Text → Text
demo_country d ip = if d.country ip == [] then codes "??" else map upper (d.country ip)

-- demoIPHash
unfoldable pub demo_ip_hash : DemoExternals → Text → ℕ → Text
demo_ip_hash d ip now =
    if trim_space ip == [] then [] else d.short_digest (d.date (day_of now) ++ b'|' ∷ trim_space ip)

unfoldable pub hit_of : DemoExternals → DemoHitIn → ℕ → DemoHit
unfolding clamp_field demo_country demo_ip_hash
hit_of d visit now = record {
  ts = now;
  country = demo_country d visit.ip;
  referrer = clamp_field visit.referrer;
  utm_source = clamp_field visit.utm_source;
  utm_medium = clamp_field visit.utm_medium;
  utm_campaign = clamp_field visit.utm_campaign;
  device = clamp_field visit.device;
  browser = clamp_field visit.browser;
  os = clamp_field visit.os;
  ip_hash = demo_ip_hash d visit.ip now;
}

module _ (bolt : Bolt) (d : DemoExternals)
    (key_n : bolt.Bucket DemoHit → bolt.Bucket DemoHit → ℕ) where
  -- demoIngest, which is routed with the scope demo-stats; an error of the store is dropped.
  unfoldable pub demo_ingest :
      Decoded DemoHitIn → ℕ → Principal → Server bolt → Response × Server bolt
  unfolding hit_of
  demo_ingest body now p s =
      decode_or body (λ r. (r, s))
        (λ visit. (
          write_json 204 no_body,
          record s { store = (append_demo_hit bolt key_n (hit_of d visit now) now s.store).1 },
        ))

abbrev pub days_of : Externals → Text → ℕ
days_of ext days = if days == [] then 0 else elim (ext.parse_number days) [ none ↦ 0 | some n ↦ n ]

-- adminDemoStats, which is routed with the scope admin-view
unfoldable pub admin_demo_stats : (bolt : Bolt) → Externals → Text → ℕ → Server bolt → DemoStats
admin_demo_stats bolt ext days now s = demo_stats bolt (days_of ext days) now s.store
