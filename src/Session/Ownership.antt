-- ===== src/Session/Ownership.antt =====
-- app/repositories/in_memory/session_repository.py: what a step keeps of the sessions and the
-- tombstones, and that the writes of the repository keep it.
use enterprise_agent_securit.Prelude.{
  ℕ, String, ◌≡◌, refl, sym, ◌∙◌, ap, false, Option, none, some, List, Option-cases, Bool-cases,
  inl, inr, eq_iff, ◌==◌,
}
use mathlib.Core.Option.{none-ne-some, some-injective}
use enterprise_agent_securit.Dict
use enterprise_agent_securit.Dict.{
  put_cases, get-put, get-put_self, get-remove, get-remove_self, get-empty,
}
use enterprise_agent_securit.Dict.Unique.{IsUnique, put-IsUnique, remove-IsUnique}
use enterprise_agent_securit.Session.{Session, SessionEvent, TerminalSessionTombstone}
use enterprise_agent_securit.Session.Repository.{SessionRepository, terminalize_session}

-- the agent of a session that is active or has ended
abbrev pub agent_in : Option TerminalSessionTombstone → Option Session → Option String
agent_in (some t) x = some t.agent_id
agent_in none (some x) = some x.agent_id
agent_in none none = none

unfoldable pub owner : String → SessionRepository → Option String
owner i s = agent_in (Dict.get i s.tombstones) (Dict.get i s.sessions)

-- The sessions are stored under their identifiers, and no identifier is both active and ended.
pub record IsSound (s : SessionRepository) : Type 0 where
  pub unique : IsUnique s.sessions
  pub keyed : (i : String) (x : Session) → Dict.get i s.sessions ≡ some x → x.session_id ≡ i
  pub exclusive :
      (i : String) (t : TerminalSessionTombstone)
      → Dict.get i s.tombstones ≡ some t
      → Dict.get i s.sessions ≡ none

-- What a step keeps: the owner of every session and every tombstone.
pub record Keeps (s after : SessionRepository) : Type 0 where
  pub sound : IsSound after
  pub owners : (i : String) (a : String) → owner i s ≡ some a → owner i after ≡ some a
  pub tombstones :
      (i : String) (t : TerminalSessionTombstone)
      → Dict.get i s.tombstones ≡ some t
      → Dict.get i after.tombstones ≡ some t

pub Keeps-refl : (s : SessionRepository) → IsSound s → Keeps s s
Keeps-refl s h = record { sound = h; owners = λ i a e. e; tombstones = λ i t e. e }

pub Keeps-trans :
    (s s1 s2 : SessionRepository) → Keeps s s1 → (IsSound s1 → Keeps s1 s2) → Keeps s s2
Keeps-trans s s1 s2 h k =
    let h2 = k h.sound in
    record {
      sound = h2.sound;
      owners = λ i a e. h2.owners i a (h.owners i a e);
      tombstones = λ i t e. h2.tombstones i t (h.tombstones i t e);
    }

-- a session is opened, or changed by its own agent
pub written-Keeps :
    (i : String) (x : Session) (s : SessionRepository) (events : List SessionEvent)
    (session_sequences agent_sequences : Dict.Dict ℕ)
    → IsSound s
    → x.session_id ≡ i
    → Dict.get i s.tombstones ≡ none
    → ((y : Session) → Dict.get i s.sessions ≡ some y → y.agent_id ≡ x.agent_id)
    → Keeps s (record {
      sessions = Dict.put i x s.sessions;
      tombstones = s.tombstones;
      events = events;
      session_sequences = session_sequences;
      agent_sequences = agent_sequences;
    })
unfolding owner
written-Keeps i x s events ss sq h named fresh same = record {
  sound = record {
    unique = put-IsUnique i x s.sessions h.unique;
    keyed = λ j y e.
        put_cases (y.session_id ≡ j) i j x y s.sessions e
          (λ same eq. ap (λ z. z.session_id) (sym eq) ∙ named ∙ same)
          (λ apart old. h.keyed j y old);
    exclusive = λ j t e. rw (get-put i j x s.sessions, apart j t e) (h.exclusive j t e);
  };
  owners = owners_kept;
  tombstones = λ j t e. e;
}
  where
    apart :
        (j : String) (t : TerminalSessionTombstone)
        → Dict.get j s.tombstones ≡ some t
        → (i == j) ≡ false
    apart j t e = elim (Bool-cases (i == j)) [
      | inl same ↦
          absurd (
            none-ne-some t
              (sym fresh ∙ ap (λ k. Dict.get k s.tombstones) ((eq_iff i j).0 same) ∙ e))
      | inr e1 ↦ e1
    ]

    owners_kept :
        (j : String) (a : String)
        → owner j s ≡ some a
        → agent_in (Dict.get j s.tombstones) (Dict.get j (Dict.put i x s.sessions)) ≡ some a
    owners_kept j a e = elim (Bool-cases (i == j)) [
      | inr e1 ↦ rw (get-put i j x s.sessions, e1) e
      | inl e1 ↦
          let eq = (eq_iff i j).0 e1 in
          elim (Option-cases (Dict.get i s.sessions)) [
            | inl n ↦
                let e2 : ◌≡◌ {A = Option String} none (some a) = rw (sym eq, fresh, n) at e in
                absurd (none-ne-some a e2)
            | inr (y, n) ↦
                let e2 : some y.agent_id ≡ some a = rw (sym eq, fresh, n) at e in
                rw (get-put i j x s.sessions, e1, sym eq, fresh) (ap some (sym (same y n)) ∙ e2)
          ]
    ]

-- an active session is ended, with a tombstone of its agent
ended-Keeps :
    (i : String) (x : Session) (t : TerminalSessionTombstone) (s : SessionRepository)
    → IsSound s
    → Dict.get i s.sessions ≡ some x
    → Dict.get i s.tombstones ≡ none
    → x.agent_id ≡ t.agent_id
    → Keeps s
        (record s { sessions = Dict.remove i s.sessions; tombstones = Dict.put i t s.tombstones })
unfolding owner
ended-Keeps i x t s h active fresh same = record {
  sound = record {
    unique = remove-IsUnique i s.sessions h.unique;
    keyed = λ j y e. elim (Bool-cases (i == j)) [
      | inl e1 ↦
          let e2 : ◌≡◌ {A = Option Session} none (some y) =
            rw (get-remove i j s.sessions, e1) at e in
          absurd (none-ne-some y e2)
      | inr e1 ↦
          let e2 : Dict.get j s.sessions ≡ some y = rw (get-remove i j s.sessions, e1) at e in
          h.keyed j y e2
    ];
    exclusive = λ j u e. elim (Bool-cases (i == j)) [
      | inl e1 ↦ rw (get-remove i j s.sessions, e1) refl
      | inr e1 ↦
          let e2 : Dict.get j s.tombstones ≡ some u = rw (get-put i j t s.tombstones, e1) at e in
          rw (get-remove i j s.sessions, e1) (h.exclusive j u e2)
    ];
  };
  owners = λ j a e. elim (Bool-cases (i == j)) [
    | inl e1 ↦
        let eq = (eq_iff i j).0 e1 in
        let e2 : some x.agent_id ≡ some a = rw (sym eq, fresh, active) at e in
        rw (get-put i j t s.tombstones, e1) (ap some (sym same) ∙ e2)
    | inr e1 ↦ rw (get-put i j t s.tombstones, get-remove i j s.sessions, e1) e
  ];
  tombstones = λ j u e. elim (Bool-cases (i == j)) [
    | inl e1 ↦
        absurd
          (none-ne-some u (sym fresh ∙ ap (λ k. Dict.get k s.tombstones) ((eq_iff i j).0 e1) ∙ e))
    | inr e1 ↦ rw (get-put i j t s.tombstones, e1) e
  ];
}

-- only the events change
pub events-Keeps :
    (events : List SessionEvent) (s : SessionRepository)
    → IsSound s
    → Keeps s (record s { events = events })
unfolding owner
events-Keeps events s h = record {
  sound = record { unique = h.unique; keyed = h.keyed; exclusive = h.exclusive };
  owners = λ i a e. e;
  tombstones = λ i t e. e;
}

pub terminalize_session-Keeps :
    (i : String) (t : TerminalSessionTombstone) (s : SessionRepository)
    → IsSound s
    → owner i s ≡ some t.agent_id
    → Keeps s (terminalize_session i t s).1
unfolding terminalize_session owner
terminalize_session-Keeps i t s h e = elim (Option-cases (Dict.get i s.sessions)) [
  | inl n ↦ rw (n, terminalize_session) (Keeps-refl s h)
  | inr (x, n) ↦ elim (Option-cases (Dict.get i s.tombstones)) [
    | inr (u, m) ↦ rw (n, m, terminalize_session) (Keeps-refl s h)
    | inl m ↦
        let e2 : some x.agent_id ≡ some t.agent_id = rw (n, m) at e in
        rw (n, m, terminalize_session)
          (ended-Keeps i x t s h n m (some-injective x.agent_id t.agent_id e2))
  ]
]
