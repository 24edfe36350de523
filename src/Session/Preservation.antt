-- ===== src/Session/Preservation.antt =====
-- app/services/session_service.py: every call of the service keeps the owners and the tombstones.
use enterprise_agent_securit.Prelude.{
  ℕ, String, ◌≡◌, refl, sym, ◌∙◌, ap, Option, none, some, List, Result, ok, err, Option-cases,
  Bool-cases, inl, inr, ◌==◌,
}
use mathlib.Core.Option.{none-ne-some, some-injective}
use enterprise_agent_securit.Dict
use enterprise_agent_securit.Dict.{
  put_cases, get-put, get-put_self, get-remove, get-remove_self, get-empty,
}
use enterprise_agent_securit.Authority.{Decision}
use enterprise_agent_securit.Session.{Session, SessionEvent, SessionError}
use enterprise_agent_securit.Session.Repository.{
  SessionRepository, create_session, bind_or_create_session, bind_existing, record_event,
  append_event, prune_events, update_event_final_decision, empty_repository, with_events,
}
use enterprise_agent_securit.Session.Service.{DetectionRetentionPolicy, prune_expired}
use enterprise_agent_securit.Session.Recording.{record_event_cases}
use enterprise_agent_securit.Session.Ownership.{
  IsSound, Keeps, Keeps-refl, written-Keeps, events-Keeps,
}

pub empty_repository-IsSound : IsSound empty_repository
unfolding empty_repository
empty_repository-IsSound = record {
  unique = tt;
  keyed = λ i x e. absurd (none-ne-some x (sym (get-empty i) ∙ e));
  exclusive = λ i t e. get-empty i;
}

module _ (s : SessionRepository) (h : IsSound s) where
  pub create_session-Keeps : (x : Session) → Keeps s (create_session x s).1
  unfolding create_session
  create_session-Keeps x = elim (Option-cases (Dict.get x.session_id s.tombstones)) [
    | inr (t, e) ↦ rw (e, create_session) (Keeps-refl s h)
    | inl e ↦ elim (Option-cases (Dict.get x.session_id s.sessions)) [
      | inr (y, e1) ↦ rw (e, e1, create_session) (Keeps-refl s h)
      | inl e1 ↦
          rw (e, e1, create_session)
            (written-Keeps x.session_id x s s.events s.session_sequences s.agent_sequences h refl e
              (λ y n. absurd (none-ne-some y (sym e1 ∙ n))))
    ]
  ]

  pub bind_or_create_session-Keeps :
      (i a : String) (now : ℕ) → Keeps s (bind_or_create_session i a now s).1
  unfolding bind_or_create_session bind_existing
  bind_or_create_session-Keeps i a now = elim (Option-cases (Dict.get i s.tombstones)) [
    | inr (t, e) ↦ rw (e, bind_or_create_session) (Keeps-refl s h)
    | inl e ↦ elim (Option-cases (Dict.get i s.sessions)) [
      | inl e1 ↦
          rw (e, e1, bind_or_create_session, bind_existing)
            (written-Keeps i _ s s.events s.session_sequences s.agent_sequences h refl e
              (λ y n. absurd (none-ne-some y (sym e1 ∙ n))))
      | inr (x, e1) ↦ elim (Bool-cases (x.agent_id == a)) [
        | inr e2 ↦ rw (e, e1, bind_or_create_session, bind_existing, e2) (Keeps-refl s h)
        | inl e2 ↦
            rw (e, e1, bind_or_create_session, bind_existing, e2)
              (written-Keeps i (record x { last_activity_at = now }) s s.events s.session_sequences
                s.agent_sequences h (h.keyed i x e1) e
                (λ y n. ap (λ z. z.agent_id) (some-injective y x (sym n ∙ e1))))
      ]
    ]
  ]

  append_event-Keeps :
      (e : SessionEvent) (x : Session)
      → Dict.get e.session_id s.tombstones ≡ none
      → Dict.get e.session_id s.sessions ≡ some x
      → Keeps s (append_event e x s).1
  unfolding append_event
  append_event-Keeps e x fresh active =
      written-Keeps e.session_id (record x { last_activity_at = e.timestamp }) s _ _ _ h
        (h.keyed e.session_id x active) fresh
        (λ y n. ap (λ z. z.agent_id) (some-injective y x (sym n ∙ active)))

  pub record_event-Keeps : (e : SessionEvent) → Keeps s (record_event e s).1
  record_event-Keeps e =
      record_event_cases (λ r. Keeps s r.1) e s (λ x. Keeps-refl s h)
        (λ x fresh active same. append_event-Keeps e x fresh active)

  pub prune_expired-Keeps :
      (policy : Option DetectionRetentionPolicy) (now : ℕ) → Keeps s (prune_expired policy now s).1
  unfolding prune_expired prune_events
  prune_expired-Keeps none now = Keeps-refl s h
  prune_expired-Keeps (some p) now = events-Keeps _ s h

  with_events-Keeps : (r : Result SessionError (List SessionEvent)) → Keeps s (with_events s r).1
  with_events-Keeps (ok es) = events-Keeps es s h
  with_events-Keeps (err x) = Keeps-refl s h

  pub update_event_final_decision-Keeps :
      (i : String) (n : ℕ) (d : Decision) → Keeps s (update_event_final_decision i n d s).1
  unfolding update_event_final_decision
  update_event_final_decision-Keeps i n d = elim (Option-cases (Dict.get i s.tombstones)) [
    | inr (t, e1) ↦ rw (e1, update_event_final_decision) (Keeps-refl s h)
    | inl e1 ↦ elim (Option-cases (Dict.get i s.sessions)) [
      | inl e2 ↦ rw (e1, e2, update_event_final_decision) (Keeps-refl s h)
      | inr (x, e2) ↦ rw (e1, e2, update_event_final_decision) (with_events-Keeps _)
    ]
  ]
