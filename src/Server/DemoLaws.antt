-- ===== src/Server/DemoLaws.antt =====
-- relay/demoapi.go: what a reported visit changes, and what is kept of it.
use relayent.Base.{
  ℕ, ◌+◌, ◌≤◌, Text, ltb, ◌≡◌, refl, Option, none, some, length, length-take-le, arith, Bool-cases,
  inl, inr,
}
use relayent.Strings.{trim_space, to_lower}
use relayent.Security.Sanitize.{cut_off}
use relayent.Bolt.{Bolt}
use relayent.Store.Records.{DemoHit, Principal}
use relayent.Store.Audit.{itob}
use relayent.Store.Users.{or_now, Store, Result, ok, err, ◌>>=◌, or_io, update_store, settle}
use relayent.Store.Hits.{append_capped, append_demo_hit, demo_hits_cap, trim_loop}
use relayent.Server.Defs.{Decoded, decoded, empty_body, invalid_json, Server}
use relayent.Server.Demo.{
  DemoHitIn, DemoExternals, clamp_field, demo_country, demo_ip_hash, hit_of, demo_ingest,
}

cut_off-le : (max : ℕ) (s : Text) → length (cut_off max s) ≤ max
cut_off-le max s = elim (Bool-cases (ltb max (length s))) [
  | inl y ↦ rw y (length-take-le max s)
  | inr n ↦ rw n (ground arith)
]

clamp_field-le : (v : Text) → length (clamp_field v) ≤ 64
unfolding clamp_field
clamp_field-le v = cut_off-le 64 (to_lower (trim_space v))

-- The labels of a recorded visit have at most 64 bytes, and the address goes into its hash and its
-- country only: an address with the same two, up to white space, leaves the same record.
pub hit_of-IsBounded :
    (d : DemoExternals) (visit : DemoHitIn) (ip : Text) (now : ℕ)
    → d.country ip ≡ d.country visit.ip
    → demo_ip_hash d ip now ≡ demo_ip_hash d visit.ip now
    → (length (hit_of d visit now).referrer ≤ 64)
      × (length (hit_of d visit now).utm_source ≤ 64)
      × (length (hit_of d visit now).utm_medium ≤ 64)
      × (length (hit_of d visit now).utm_campaign ≤ 64)
      × (length (hit_of d visit now).device ≤ 64)
      × (length (hit_of d visit now).browser ≤ 64)
      × (length (hit_of d visit now).os ≤ 64)
      × (hit_of d (record visit { ip = ip }) now ≡ hit_of d visit now)
unfolding hit_of demo_country
hit_of-IsBounded d visit ip now c h = (
  clamp_field-le visit.referrer,
  clamp_field-le visit.utm_source,
  clamp_field-le visit.utm_medium,
  clamp_field-le visit.utm_campaign,
  clamp_field-le visit.device,
  clamp_field-le visit.browser,
  clamp_field-le visit.os,
  rw c (rw h refl),
)

module _ (bolt : Bolt) (d : DemoExternals)
    (key_n : bolt.Bucket DemoHit → bolt.Bucket DemoHit → ℕ) where
  -- Everything of a store but the visitor log
  abbrev pub SameRecords : Store bolt → Store bolt → Type 0
  SameRecords s t =
      (t.users ≡ s.users)
      × (t.app_creds ≡ s.app_creds)
      × (t.enroll_tokens ≡ s.enroll_tokens)
      × (t.bindings ≡ s.bindings)
      × (t.audit ≡ s.audit)
      × (t.settings ≡ s.settings)

  abbrev pub SameStore : Option (Store bolt) → Option (Store bolt) → Type 0
  SameStore none none = Unit
  SameStore none (some t) = ⊥
  SameStore (some s) none = ⊥
  SameStore (some s) (some t) = SameRecords s t

  append_capped-SameRecords :
      (cap : ℕ) (h : DemoHit) (now : ℕ) (s t : Store bolt)
      → append_capped bolt cap key_n h now s ≡ ok t
      → SameRecords s t
  unfolding append_capped
  append_capped-SameRecords cap h now s t e =
      stored
        (bolt.put (itob (bolt.sequence (bolt.advance s.demo_hits)))
          (record h { ts = or_now h.ts now }) (bolt.advance s.demo_hits))
        e
    where
      trimmed :
          (o : Option (bolt.Bucket DemoHit))
          → (do hits ← or_io o; ok (record s { demo_hits = hits })) ≡ ok t
          → SameRecords s t
      trimmed none k = cc
      trimmed (some hits) k =
          let r : record s { demo_hits = hits } ≡ t = cc in
          rw (← r) (refl, refl, refl, refl, refl, refl)

      stored :
          (o : Option (bolt.Bucket DemoHit))
          → (do
            added ← or_io o
            hits ←
                or_io
                  (trim_loop bolt (length (bolt.entries added) + 1) (key_n s.demo_hits) cap added)
            ok (record s { demo_hits = hits }))
            ≡ ok t
          → SameRecords s t
      stored none k = cc
      stored (some added) k =
          trimmed (trim_loop bolt (length (bolt.entries added) + 1) (key_n s.demo_hits) cap added) k

  pub append_demo_hit-SameStore :
      (h : DemoHit) (now : ℕ) (o : Option (Store bolt))
      → SameStore o (append_demo_hit bolt key_n h now o).1
  unfolding append_demo_hit update_store
  append_demo_hit-SameStore h now none = tt
  append_demo_hit-SameStore h now (some s) =
      settled (append_capped bolt demo_hits_cap key_n h now s) refl
    where
      settled :
          (r : Result (Store bolt))
          → append_capped bolt demo_hits_cap key_n h now s ≡ r
          → SameStore (some s) (settle bolt s r).1
      settled (err x) e = (refl, refl, refl, refl, refl, refl)
      settled (ok t) e = append_capped-SameRecords demo_hits_cap h now s t e

  -- A visit is answered with 204 once its body is read, whatever the store does, and changes nothing of
  -- the server but the visitor log; a body that cannot be read is answered with 400 and changes nothing.
  pub demo_ingest-contained :
      (body : Decoded DemoHitIn) (now : ℕ) (p : Principal) (s : Server bolt)
      → ((demo_ingest bolt d key_n body now p s).0.status
          ≡ elim body [ decoded v ↦ 204 | empty_body ↦ 400 | invalid_json ↦ 400 ])
        × SameStore s.store (demo_ingest bolt d key_n body now p s).1.store
        × (record (demo_ingest bolt d key_n body now p s).1 { store = s.store } ≡ s)
  unfolding demo_ingest
  demo_ingest-contained (decoded visit) now p s =
      (refl, append_demo_hit-SameStore (hit_of d visit now) now s.store, refl)
  demo_ingest-contained empty_body now p s = (refl, same s.store, refl)
    where
      same : (o : Option (Store bolt)) → SameStore o o
      same none = tt
      same (some t) = (refl, refl, refl, refl, refl, refl)
  demo_ingest-contained invalid_json now p s = (refl, same s.store, refl)
    where
      same : (o : Option (Store bolt)) → SameStore o o
      same none = tt
      same (some t) = (refl, refl, refl, refl, refl, refl)
