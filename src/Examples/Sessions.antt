-- ===== src/Examples/Sessions.antt =====
-- app/services/session_service.py: a session that records events and is ended, and another that expires.
use enterprise_agent_securit.Prelude.{
  String, ◌≡◌, ◌≢◌, ◌⊎◌, refl, sym, ap, true, false, Bool, Option, none, some, List, [], ◌∷◌, arith,
  All, count, ok, err, Result, ◌&&◌, ◌==◌, eq_iff, false≢true,
}
use mathlib.Core.Option.{none-ne-some}
use enterprise_agent_securit.Dict
use enterprise_agent_securit.Sorting.{IsSorted}
use enterprise_agent_securit.Authority.{deny}
use enterprise_agent_securit.Session.{
  Session, SessionEvent, SessionError, session_terminal, validation_error, tombstone_refused,
  TerminalSessionTombstone, explicit_end, HorizonQuery, AggregationScope,
}
use enterprise_agent_securit.Session.Repository.{
  SessionRepository, empty_repository, bind_or_create_session, create_session, record_event,
  get_session, get_tombstone, list_eligible_events, position, is_eligible, terminalize_session,
  bind_existing, record_in, append_event, prune_events, current_session_sequence,
  current_agent_sequence,
}
use enterprise_agent_securit.Session.Service.{
  DetectionRetentionPolicy, end_session_commit, end_session_check, is_terminal, prune_expired,
  end_session, record_and_prune, prune_after,
}
use enterprise_agent_securit.Session.Operations.{
  Operation, bind, record_one, prune, end_one, expire, save, run, run_all, AllOrderly,
}
use enterprise_agent_securit.Session.Ownership.{owner}
use enterprise_agent_securit.Session.Finality.{
  ended_session_stays_ended, owner_is_kept, end_session_interleaved,
}
use enterprise_agent_securit.Session.Horizon.{
  Eligible, Eligible-sound, prune_keeps_horizon, list_eligible_events-Eligible,
}
use enterprise_agent_securit.Session.Sequences.{Earlier, positions_are_new}

abbrev event : SessionEvent
event = record {
  session_id = "s1";
  agent_id = "a1";
  tool_id = "browser";
  tool_version = none;
  decision = deny;
  sequence_number = 0;
  agent_sequence = 0;
  final_decision = none;
  timestamp = 20;
}

abbrev policy : DetectionRetentionPolicy
policy = record { retention_window_seconds = 60; late_arrival_grace_seconds = 30 }

-- a session with an event, before it is ended
abbrev opening : List Operation
opening = bind "s1" "a1" 10 ∷ record_one (some policy) event ∷ []

-- the active session, written directly with a later activity
abbrev touched : Session
touched = record { session_id = "s1"; agent_id = "a1"; started_at = 10; last_activity_at = 25 }

-- what follows
abbrev closing : List Operation
closing = save touched ∷ bind "s2" "a1" 30 ∷ end_one "s1" "a1" 40 ∷ expire 100 200 ∷ []

abbrev tombstone : TerminalSessionTombstone
tombstone = record {
  session_id = "s1";
  agent_id = "a1";
  terminated_at = 40;
  terminal_reason = explicit_end;
}

abbrev opened : SessionRepository
opened = run_all opening empty_repository

abbrev reopening : Session
reopening = record { session_id = "s1"; agent_id = "a2"; started_at = 300; last_activity_at = 300 }

-- a session that is written directly, and was not there
abbrev written : Session
written = record { session_id = "s9"; agent_id = "a1"; started_at = 50; last_activity_at = 50 }

abbrev written_later : List Operation
written_later = save written ∷ prune none 300 ∷ []

abbrev ended : SessionRepository
ended =
    run_all written_later (run_all (bind "s1" "a1" 10 ∷ end_one "s1" "a1" 40 ∷ []) empty_repository)

was_ended :
    get_tombstone "s1" (run_all (bind "s1" "a1" 10 ∷ end_one "s1" "a1" 40 ∷ []) empty_repository)
    ≡ some tombstone
unfolding get_tombstone owner end_session_check get_session Dict.get Dict.put Dict.remove run_all
    run end_session end_session_commit terminalize_session bind_or_create_session bind_existing
    record_and_prune record_event record_in append_event prune_after prune_expired prune_events
    current_session_sequence current_agent_sequence empty_repository
was_ended = refl

was_written :
    AllOrderly written_later
      (run_all (bind "s1" "a1" 10 ∷ end_one "s1" "a1" 40 ∷ []) empty_repository)
unfolding get_tombstone owner end_session_check get_session Dict.get Dict.put Dict.remove run_all
    run end_session end_session_commit terminalize_session bind_or_create_session bind_existing
    record_and_prune record_event record_in append_event prune_after prune_expired prune_events
    current_session_sequence current_agent_sequence empty_repository
was_written = ((refl, λ y e. absurd (none-ne-some y e)), (tt, tt))

ended_session_stays_ended_example :
    (get_tombstone "s1" ended ≡ some tombstone)
    × (get_session "s1" ended ≡ none)
    × (bind_or_create_session "s1" "a2" 300 ended ≡ (err (session_terminal "s1" "a1" "a2"), ended))
    × (create_session reopening ended ≡ (err (session_terminal "s1" "a1" "a2"), ended))
    × (record_event event ended ≡ (err (session_terminal "s1" "a1" "a1"), ended))
ended_session_stays_ended_example =
    ended_session_stays_ended (bind "s1" "a1" 10 ∷ end_one "s1" "a1" 40 ∷ []) written_later "s1"
      "a2" 300 tombstone reopening event (tt, (tt, tt)) was_written was_ended refl refl

abbrev owner_of : Option Session → String
owner_of none = ""
owner_of (some x) = x.agent_id

abbrev foreign_event : SessionEvent
foreign_event = record event { agent_id = "a2" }

abbrev closed : SessionRepository
closed = run_all closing opened

was_owned : owner "s1" opened ≡ some "a1"
unfolding get_tombstone owner end_session_check get_session Dict.get Dict.put Dict.remove run_all
    run end_session end_session_commit terminalize_session bind_or_create_session bind_existing
    record_and_prune record_event record_in append_event prune_after prune_expired prune_events
    current_session_sequence current_agent_sequence empty_repository
was_owned = refl

was_touched : AllOrderly closing opened
unfolding get_tombstone owner end_session_check get_session Dict.get Dict.put Dict.remove run_all
    run end_session end_session_commit terminalize_session bind_or_create_session bind_existing
    record_and_prune record_event record_in append_event prune_after prune_expired prune_events
    current_session_sequence current_agent_sequence empty_repository
was_touched = ((refl, λ y e. ap owner_of (sym e)), (tt, (tt, (tt, tt))))

another_agent : ◌≢◌ {A = String} "a1" "a2"
another_agent e = false≢true ((eq_iff "a1" "a2").1 e)

owner_is_kept_example :
    (owner "s1" closed ≡ some "a1")
    × ((x : SessionError) × (bind_or_create_session "s1" "a2" 50 closed ≡ (err x, closed)))
    × ((x : SessionError) × (record_event foreign_event closed ≡ (err x, closed)))
owner_is_kept_example =
    owner_is_kept opening closing "s1" "a1" "a2" 50 foreign_event (tt, (tt, tt)) was_touched
      was_owned another_agent refl refl

abbrev expired_first : List Operation
expired_first = bind "s2" "a1" 30 ∷ expire 5 60 ∷ []

abbrev committed : Result SessionError (Unit {0}) × SessionRepository
committed = end_session_commit "s1" "a1" 70 (run_all expired_first opened)

was_checked : end_session_check "s1" "a1" opened ≡ none
unfolding get_tombstone owner end_session_check get_session Dict.get Dict.put Dict.remove run_all
    run end_session end_session_commit terminalize_session bind_or_create_session bind_existing
    record_and_prune record_event record_in append_event prune_after prune_expired prune_events
    current_session_sequence current_agent_sequence empty_repository
was_checked = refl

end_session_interleaved_example :
    ((tombstone_refused "s1" "a1" ≡ true)
      × (committed.0 ≡ err validation_error)
      × (committed.1 ≡ run_all expired_first opened))
    ⊎ ((tombstone_refused "s1" "a1" ≡ false)
        × (committed.0 ≡ ok tt)
        × (is_terminal "s1" committed.1 ≡ true)
        × (owner "s1" committed.1 ≡ some "a1")
        × (get_session "s1" committed.1 ≡ none))
end_session_interleaved_example =
    end_session_interleaved opening expired_first "s1" "a1" 70 (tt, (tt, tt)) (tt, (tt, tt))
      was_checked

abbrev query : HorizonQuery
query = record {
  agent_id = "a1";
  scope = AggregationScope.session;
  session_id = some "s1";
  window_seconds = 60;
  evaluation_time = 100;
  baseline_agent_sequence = 0;
}

abbrev recorded : List Operation
recorded =
    bind "s1" "a1" 10
    ∷ record_one none event
    ∷ record_one none (record event { timestamp = 50 })
    ∷ record_one none (record event { timestamp = 60 })
    ∷ []

abbrev history : SessionRepository
history = run_all recorded empty_repository

prune_keeps_horizon_example :
    list_eligible_events query (prune_expired (some policy) 100 history).1
    ≡ list_eligible_events query history
prune_keeps_horizon_example =
    prune_keeps_horizon policy 100 query history (omega arith) (omega arith)

abbrev next_event : SessionEvent
next_event = record event { timestamp = 60; sequence_number = 4; agent_sequence = 4 }

was_recorded :
    (record_event
      (record event { timestamp = 60 })
      (run_all (prune (some policy) 150 ∷ []) history)).0
    ≡ ok next_event
unfolding get_tombstone owner end_session_check get_session Dict.get Dict.put Dict.remove run_all
    run end_session end_session_commit terminalize_session bind_or_create_session bind_existing
    record_and_prune record_event record_in append_event prune_after prune_expired prune_events
    current_session_sequence current_agent_sequence empty_repository
was_recorded = refl

positions_are_new_example : All (Earlier next_event) history.events
positions_are_new_example =
    positions_are_new recorded (prune (some policy) 150 ∷ []) (record event { timestamp = 60 })
      next_event was_recorded

-- the denied attempts in the browser
abbrev is_browser_denial : SessionEvent → Bool
is_browser_denial e = is_eligible query e && e.tool_id == "browser"

every_denial_is_Eligible : (e : SessionEvent) → is_browser_denial e ≡ true → Eligible query e
every_denial_is_Eligible e h = Eligible-sound query e (ground (arith, h))

list_eligible_events-Eligible_example :
    IsSorted (position AggregationScope.session) (list_eligible_events query history)
    × All (Eligible query) (list_eligible_events query history)
    × (count is_browser_denial (list_eligible_events query history)
        ≡ count is_browser_denial history.events)
list_eligible_events-Eligible_example =
    list_eligible_events-Eligible query history is_browser_denial every_denial_is_Eligible
