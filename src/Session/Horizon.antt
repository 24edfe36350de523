-- ===== src/Session/Horizon.antt =====
-- app/repositories/in_memory/session_repository.py: the events that a detection rule is given.
use enterprise_agent_securit.Prelude.{
  ℕ, ◌≡◌, ◌≤◌, ◌+◌, ◌-◌, refl, ap, ◌∙◌, Bool, true, some, List, [], ◌∷◌, Bool-cases, inl, inr,
  arith, filter, count, leb, All, ◌<◌, ◌⊎◌, eq_iff, opt_eq_iff,
}
use enterprise_agent_securit.Sorting.{sorted, IsSorted, sorted-IsSorted, count-sorted, sorted-All}
use enterprise_agent_securit.Session.{SessionEvent, HorizonQuery, AggregationScope}
use enterprise_agent_securit.Session.Repository.{
  SessionRepository, is_eligible, list_eligible_events, position, prune_events,
}
use enterprise_agent_securit.Session.Service.{
  DetectionRetentionPolicy, total_retention_seconds, prune_expired,
}

filter_again {ℓ} :
    {A : Type ℓ} (p q : A → Bool) (xs : List A)
    → ((x : A) → p x ≡ true → q x ≡ true)
    → filter p (filter q xs) ≡ filter p xs
filter_again p q [] h = refl
filter_again p q (x ∷ xs) h = elim (Bool-cases (q x)) [
  | inl e ↦ rw (e, filter_again p q xs h) refl
  | inr e ↦ elim (Bool-cases (p x)) [
    | inl e1 ↦ ground (arith, h x e1, e)
    | inr e1 ↦ rw (e, e1) (filter_again p q xs h)
  ]
]

recent_enough :
    (q : HorizonQuery) (cutoff : ℕ) (e : SessionEvent)
    → cutoff ≤ q.evaluation_time - q.window_seconds
    → is_eligible q e ≡ true
    → leb cutoff e.timestamp ≡ true
unfolding is_eligible
recent_enough q cutoff e h t = ground arith

-- Pruning takes no event from a rule that its window still covers: with a retention policy at least
-- as long as the window of a query, and a moment of pruning not after the moment that the query
-- evaluates, the query has the same events after the pruning.
pub prune_keeps_horizon :
    (p : DetectionRetentionPolicy) (now : ℕ) (q : HorizonQuery) (s : SessionRepository)
    → q.window_seconds ≤ total_retention_seconds p
    → now ≤ q.evaluation_time
    → list_eligible_events q (prune_expired (some p) now s).1 ≡ list_eligible_events q s
unfolding list_eligible_events prune_expired prune_events
prune_keeps_horizon p now q s window before = ap (sorted (position q.scope)) (
    filter_again (is_eligible q) (λ e. leb (now - total_retention_seconds p) e.timestamp) s.events
      (λ e. recent_enough q (now - total_retention_seconds p) e (omega (arith, window, before))))

-- What a query asks of an event: the agent, the session where the scope is one, a position after the
-- baseline, and a moment within the window that ends at the moment of evaluation.
pub record Eligible (q : HorizonQuery) (e : SessionEvent) : Type 0 where
  pub agent : e.agent_id ≡ q.agent_id
  pub session : (q.scope ≡ AggregationScope.agent) ⊎ (some e.session_id ≡ q.session_id)
  pub after_baseline : q.baseline_agent_sequence < e.agent_sequence
  pub not_old : q.evaluation_time ≤ e.timestamp + q.window_seconds
  pub not_later : e.timestamp ≤ q.evaluation_time

pub Eligible-sound : (q : HorizonQuery) (e : SessionEvent) → is_eligible q e ≡ true → Eligible q e
unfolding is_eligible
Eligible-sound q e h = record {
  agent = ground (arith, eq_iff e.agent_id q.agent_id);
  session = in_session q.scope refl;
  after_baseline = ground arith;
  not_old = ground arith;
  not_later = ground arith;
}
  where
    in_session :
        (scope : AggregationScope)
        → q.scope ≡ scope
        → (q.scope ≡ AggregationScope.agent) ⊎ (some e.session_id ≡ q.session_id)
    in_session AggregationScope.agent same = inl same
    in_session AggregationScope.session same =
        inr (ground (arith, opt_eq_iff (some e.session_id) q.session_id, same))

Eligible-complete : (q : HorizonQuery) (e : SessionEvent) → Eligible q e → is_eligible q e ≡ true
unfolding is_eligible
Eligible-complete q e h = ground (
  arith,
  eq_iff e.agent_id q.agent_id,
  opt_eq_iff (some e.session_id) q.session_id,
  h.agent,
  h.session,
  h.after_baseline,
  h.not_old,
  h.not_later,
)

filter-Eligible :
    (q : HorizonQuery) (es : List SessionEvent) → All (Eligible q) (filter (is_eligible q) es)
filter-Eligible q [] = tt
filter-Eligible q (e ∷ es) = elim (Bool-cases (is_eligible q e)) [
  | inl h ↦ rw (h) (Eligible-sound q e h, filter-Eligible q es)
  | inr h ↦ rw (h) (filter-Eligible q es)
]

count-within {ℓ} :
    {A : Type ℓ} (p q : A → Bool) (xs : List A)
    → ((x : A) → p x ≡ true → q x ≡ true)
    → count p (filter q xs) ≡ count p xs
count-within p q [] h = refl
count-within p q (x ∷ xs) h = elim (Bool-cases (q x)) [
  | inl e ↦ rw (e) (ground (arith, count-within p q xs h))
  | inr e ↦ elim (Bool-cases (p x)) [
    | inl e1 ↦ ground (arith, h x e1, e)
    | inr e1 ↦ rw (e, e1) (count-within p q xs h)
  ]
]

-- A query returns events in the order of the sequence of its scope, only events that have the agent,
-- the session, the position and the moment it asks for, and every recorded event that has them, as
-- often as it is recorded: any test that only such events pass is passed as often in the answer as in
-- the record.
pub list_eligible_events-Eligible :
    (q : HorizonQuery) (s : SessionRepository) (p : SessionEvent → Bool)
    → ((e : SessionEvent) → p e ≡ true → Eligible q e)
    → IsSorted (position q.scope) (list_eligible_events q s)
      × All (Eligible q) (list_eligible_events q s)
      × (count p (list_eligible_events q s) ≡ count p s.events)
unfolding list_eligible_events
list_eligible_events-Eligible q s p h = (
  sorted-IsSorted (position q.scope) (filter (is_eligible q) s.events),
  sorted-All (position q.scope) (Eligible q) (filter (is_eligible q) s.events)
      (filter-Eligible q s.events),
  count-sorted (position q.scope) p (filter (is_eligible q) s.events)
      ∙ count-within p (is_eligible q) s.events (λ e t. Eligible-complete q e (h e t)),
)
