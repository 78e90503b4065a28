-- ===== src/Server/Tame.antt =====
-- relay/main.go: servers whose app credentials carry scopes of the app vocabulary only.
use relayent.Base.{ℕ, if◌then◌else◌, Bool, true, false, Option, none, some}
use relayent.Bolt.{Bolt, BoltLaws}
use relayent.Store.Records.{AuditEvent}
use relayent.Store.Users.{Result, ok, err, StoreError, settle, update_store, Store}
use relayent.Store.Audit.{append}
use relayent.Server.Defs.{
  Externals, Decoded, decoded, empty_body, invalid_json, decode_or, Response, Server,
}
use relayent.Server.Auth.{settled}
use relayent.Server.Broker.{appended}
use relayent.Server.Admin.{write_store, written}
use relayent.Server.Scopes.{Tame, TameStore, TameResult, append-Tame}

module _ (bolt : Bolt) (laws : BoltLaws bolt) (ext : Externals) where
  abbrev pub TameServer : Server bolt → Type 0
  TameServer s = TameStore bolt laws s.store

  pub if-TameServer :
      (b : Bool) (x y : Response × Server bolt)
      → TameServer x.1
      → TameServer y.1
      → TameServer (if b then x else y).1
  if-TameServer true x y p q = p
  if-TameServer false x y p q = q

  pub decode-TameServer :
      {A : Type 0} (body : Decoded A) (s : Server bolt) (next : A → Response × Server bolt)
      → TameServer s
      → ((a : A) → TameServer (next a).1)
      → TameServer (decode_or body (λ r. (r, s)) next).1
  decode-TameServer empty_body s next t h = t
  decode-TameServer invalid_json s next t h = t
  decode-TameServer (decoded a) s next t h = h a

  pub settle-TameStore :
      (st : Store bolt) (res : Result (Store bolt))
      → Tame bolt laws st.app_creds
      → TameResult bolt laws res
      → TameStore bolt laws (settle bolt st res).1
  unfolding TameResult
  settle-TameStore st (ok st') t h = h
  settle-TameStore st (err e) t h = t

  pub settled-Tame :
      (st : Store bolt) (res : Result (Store bolt))
      → Tame bolt laws st.app_creds
      → TameResult bolt laws res
      → Tame bolt laws (settled bolt st res).app_creds
  unfolding TameResult
  settled-Tame st (ok st') t h = h
  settled-Tame st (err e) t h = t

  pub update_store-Tame :
      (f : Store bolt → Result (Store bolt)) (store : Option (Store bolt))
      → ((st : Store bolt) → Tame bolt laws st.app_creds → TameResult bolt laws (f st))
      → TameStore bolt laws store
      → TameStore bolt laws (update_store bolt f store).1
  unfolding update_store
  update_store-Tame f none h t = tt
  update_store-Tame f (some st) h t = settle-TameStore st (f st) t (h st t)

  pub written-Tame :
      (failed done : Response) (s : Server bolt) (o : Option StoreError × Option (Store bolt))
      → TameStore bolt laws o.1
      → TameServer (written bolt failed done s o).1
  written-Tame failed done s (none, store) t = t
  written-Tame failed done s (some e, store) t = t

  -- A write leaves a tame store tame if its function does.
  pub write_store-Tame :
      (f : Store bolt → Result (Store bolt)) (failed done : Response) (s : Server bolt)
      → ((st : Store bolt) → Tame bolt laws st.app_creds → TameResult bolt laws (f st))
      → TameServer s
      → TameServer (write_store bolt f failed done s).1
  write_store-Tame f failed done s h t =
      written-Tame failed done s (update_store bolt f s.store) (update_store-Tame f s.store h t)

  pub appended-Tame :
      (e : AuditEvent) (now : ℕ) (store : Option (Store bolt))
      → TameStore bolt laws store
      → TameStore bolt laws (appended bolt e now store)
  appended-Tame e now none t = tt
  appended-Tame e now (some st) t =
      settled-Tame st (append bolt e now st) t (append-Tame bolt laws st t e now)
