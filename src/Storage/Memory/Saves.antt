-- ===== src/Storage/Memory/Saves.antt =====
-- Saves to src/cks_runtime/storage/memory_storage.py and the check of the expected version.
use cks_runtime.Prelude.{
  String, false, Option, none, some, string_eq, ◌==◌, ◌≡◌, inl, inr, ap, ◌∙◌, sym, Bool-cases,
  ==_refl, if◌then◌else◌,
}
use cks_runtime.Core.{Core}
use cks_runtime.Dict.{put}
use cks_runtime.Result.{
  ok, raise, Error, raise_unique, ok_injective, ok-raise, concurrent_modification,
}
use cks_runtime.Session.{RuntimeSession}
use cks_runtime.Storage.Memory.{
  InMemoryStorage, latest_version_id, current_latest, same_id, save_session, load_session,
}
use cks_runtime.Dict.Laws.{get-put}

module _ {c : Core} where
  abbrev pub stored : InMemoryStorage c → RuntimeSession c → InMemoryStorage c
  stored self session = record self { sessions = put self.sessions session.session_id session }

  pub save-stored :
      (self after : InMemoryStorage c) (session : RuntimeSession c) (expected : Option String)
      → save_session self session expected ≡ ok after
      → stored self session ≡ after
  unfolding save_session
  save-stored self after session none h = ok_injective (stored self session) after h
  save-stored self after session (some e) h =
      elim (Bool-cases (same_id (current_latest self session.session_id) e)) [
        | inl agreed ↦ ok_injective (stored self session) after (
            sym (
              ap (λ b. if b then ok (stored self session) else raise concurrent_modification)
                agreed)
            ∙ h)
        | inr differs ↦ absurd (
            ok-raise after concurrent_modification (
              sym h
              ∙ ap (λ b. if b then ok (stored self session) else raise concurrent_modification)
                  differs))
      ]

  -- A save that succeeds changes what is loaded under the id of its session, and nothing else.
  pub load_session-save_session :
      (self after : InMemoryStorage c) (session : RuntimeSession c) (expected : Option String)
      → save_session self session expected ≡ ok after
      → (id : String)
      → load_session after id
        ≡ (if session.session_id == id then some session else load_session self id)
  unfolding load_session
  load_session-save_session self after session expected h id =
      rw (sym (save-stored self after session expected h))
        (get-put self.sessions session.session_id id session)

  stored-latest :
      (self : InMemoryStorage c) (session : RuntimeSession c) (id : String)
      → session.session_id ≡ id
      → current_latest (stored self session) id ≡ latest_version_id session
  unfolding current_latest
  stored-latest self session id same =
      rw (get-put self.sessions session.session_id id session, current_latest)
        (rw (sym same, ==_refl session.session_id))

  -- Of two writers that commit on the same version of a session, only one is saved: if the first one's
  -- save against the expected version succeeds and makes another version the latest one, then the
  -- second one's save against the same expected version is refused.
  pub save_session-race :
      (self after : InMemoryStorage c) (first second : RuntimeSession c) (expected new : String)
      → first.session_id ≡ second.session_id
      → save_session self first (some expected) ≡ ok after
      → latest_version_id first ≡ some new
      → new == expected ≡ false
      → save_session after second (some expected) ≡ raise concurrent_modification
  unfolding save_session
  save_session-race self after first second expected new same h latest other =
      let now : current_latest after second.session_id ≡ some new =
        ap (λ t. current_latest t second.session_id)
          (sym (save-stored self after first (some expected) h))
        ∙ stored-latest self first second.session_id same
        ∙ latest in
      ap (λ b. if b then ok (stored after second) else raise concurrent_modification)
        (ap (λ l. same_id l expected) now ∙ other)

  pub save_session-raise :
      (self : InMemoryStorage c) (session : RuntimeSession c) (expected : Option String) (e : Error)
      → save_session self session expected ≡ raise e
      → e ≡ concurrent_modification
  unfolding save_session
  save_session-raise self session none e h = absurd (ok-raise (stored self session) e h)
  save_session-raise self session (some id) e h =
      elim (Bool-cases (same_id (current_latest self session.session_id) id)) [
        | inl agreed ↦ absurd (
            ok-raise (stored self session) e (
              sym (
                ap (λ b. if b then ok (stored self session) else raise concurrent_modification)
                  agreed)
              ∙ h))
        | inr differs ↦
            raise_unique (save_session self session (some id)) e concurrent_modification h (
              ap (λ b. if b then ok (stored self session) else raise concurrent_modification)
                differs)
      ]
