-- ===== src/Registry/Resolution.antt =====
-- app/registry/tool_registry.py: the calls of the registry, and the versions of a family
-- after any of them.
use enterprise_agent_securit.Prelude.{
  String, ◌≡◌, refl, sym, ◌∙◌, Bool, false, Option, none, some, List, [], ◌∷◌, eq_iff, ◌==◌, All,
  Bool-cases, Option-cases, inl, inr, if◌then◌else◌,
}
use enterprise_agent_securit.Dict
use enterprise_agent_securit.Dict.{Dict, get-put, get-remove, get-empty}
use enterprise_agent_securit.Text.{strip, is_blank}
use enterprise_agent_securit.Registry.{
  ToolDescriptor, ToolRegistry, versions_of, versions_or_empty, add_descriptor, register,
  register_factory, metadata_is_invalid, put_versions, unregister, exists_tool, clear,
}

pub data Operation : Type 0 where
  register_tool : ToolDescriptor → Operation
  register_made : String → Bool → ToolDescriptor → Operation
  unregister_tool : String → Option String → Operation
  clear_all : Operation

unfoldable pub run : Operation → ToolRegistry → ToolRegistry
run (register_tool d) s = (register d s).1
run (register_made tool_id sampled d) s = (register_factory tool_id sampled d s).1
run (unregister_tool tool_id version) s = (unregister tool_id version s).1
run clear_all s = clear s

unfoldable pub run_all : List Operation → ToolRegistry → ToolRegistry
run_all [] s = s
run_all (op ∷ ops) s = run_all ops (run op s)

-- the version that a call registers has no white space around it
abbrev pub IsTrimmed : Operation → Type 0
IsTrimmed (register_tool d) = strip d.version ≡ d.version
IsTrimmed (register_made tool_id sampled d) = strip d.version ≡ d.version
IsTrimmed (unregister_tool tool_id version) = Unit
IsTrimmed clear_all = Unit

-- every entry has the version of its descriptor, without white space around it
abbrev pub IsKeyed : Dict ToolDescriptor → Type 0
IsKeyed vs = All (λ e. (strip e.0 ≡ e.0) × (e.1.version ≡ e.0)) vs

put-IsKeyed :
    (k : String) (d : ToolDescriptor) (vs : Dict ToolDescriptor)
    → strip k ≡ k
    → d.version ≡ k
    → IsKeyed vs
    → IsKeyed (Dict.put k d vs)
unfolding Dict.put
put-IsKeyed k d [] t e h = ((t, e), tt)
put-IsKeyed k d ((j, x) ∷ vs) t e h = elim (Bool-cases (j == k)) [
  | inl same ↦ rw (same) ((h.0.0, e ∙ sym ((eq_iff j k).0 same)), h.1)
  | inr apart ↦ rw (apart) (h.0, put-IsKeyed k d vs t e h.1)
]

remove-IsKeyed : (k : String) (vs : Dict ToolDescriptor) → IsKeyed vs → IsKeyed (Dict.remove k vs)
unfolding Dict.remove
remove-IsKeyed k [] h = tt
remove-IsKeyed k ((j, x) ∷ vs) h = elim (Bool-cases (j == k)) [
  | inl same ↦ rw (same) (remove-IsKeyed k vs h.1)
  | inr apart ↦ rw (apart) (h.0, remove-IsKeyed k vs h.1)
]

-- the versions of every family
abbrev pub Families : Dict (Dict ToolDescriptor) → Type 0
Families m = (t : String) → IsKeyed (versions_or_empty (Dict.get t m))

put-Families :
    (t : String) (vs : Dict ToolDescriptor) (m : Dict (Dict ToolDescriptor))
    → IsKeyed vs
    → Families m
    → Families (Dict.put t vs m)
put-Families t vs m k h u = elim (Bool-cases (t == u)) [
  | inl same ↦ rw (get-put t u vs m, same) k
  | inr apart ↦ rw (get-put t u vs m, apart) (h u)
]

remove-Families :
    (t : String) (m : Dict (Dict ToolDescriptor)) → Families m → Families (Dict.remove t m)
remove-Families t m h u = elim (Bool-cases (t == u)) [
  | inl same ↦ rw (get-remove t u m, same) tt
  | inr apart ↦ rw (get-remove t u m, apart) (h u)
]

add_descriptor-Families :
    (t : String) (d : ToolDescriptor) (s : ToolRegistry)
    → strip d.version ≡ d.version
    → Families s.descriptors
    → Families (add_descriptor t d s).1.descriptors
unfolding add_descriptor versions_of
add_descriptor-Families t d s e h =
    elim (Option-cases (Dict.get d.version (versions_or_empty (Dict.get t s.descriptors)))) [
      | inr (x, n) ↦ rw (n) h
      | inl n ↦ rw (n) (
          put-Families t (Dict.put d.version d (versions_or_empty (Dict.get t s.descriptors)))
            s.descriptors
            (put-IsKeyed d.version d (versions_or_empty (Dict.get t s.descriptors)) e refl (h t)) h)
    ]

put_versions-Families :
    (t : String) (vs : Dict ToolDescriptor) (s : ToolRegistry)
    → IsKeyed vs
    → Families s.descriptors
    → Families (put_versions t vs s).descriptors
unfolding put_versions
put_versions-Families t [] s k h = remove-Families t s.descriptors h
put_versions-Families t (v ∷ vs) s k h = put-Families t (v ∷ vs) s.descriptors k h

register-Families :
    (d : ToolDescriptor) (s : ToolRegistry)
    → strip d.version ≡ d.version
    → Families s.descriptors
    → Families (register d s).1.descriptors
unfolding register
register-Families d s e h u = elim (Bool-cases (metadata_is_invalid d)) [
  | inl n ↦ rw (n) (h u)
  | inr n ↦ rw (n) (add_descriptor-Families d.tool_id d s e h u)
]

register_factory-Families :
    (t : String) (sampled : Bool) (d : ToolDescriptor) (s : ToolRegistry)
    → strip d.version ≡ d.version
    → Families s.descriptors
    → Families (register_factory t sampled d s).1.descriptors
unfolding register_factory
register_factory-Families t sampled d s e h u = elim (Bool-cases (is_blank t)) [
  | inl n ↦ rw (n) (h u)
  | inr n ↦ elim (Bool-cases (if sampled then metadata_is_invalid d else false)) [
    | inl m ↦ rw (n, m) (h u)
    | inr m ↦ rw (n, m) (add_descriptor-Families t d s e h u)
  ]
]

unregister-Families :
    (t : String) (version : Option String) (s : ToolRegistry)
    → Families s.descriptors
    → Families (unregister t version s).1.descriptors
unfolding unregister versions_of
unregister-Families t none s h u = elim (Bool-cases (exists_tool t s)) [
  | inl n ↦ rw (n) (remove-Families t s.descriptors h u)
  | inr n ↦ rw (n) (h u)
]
unregister-Families t (some version) s h u =
    elim (Option-cases (Dict.get version (versions_or_empty (Dict.get t s.descriptors)))) [
      | inl n ↦ rw (n) (h u)
      | inr (x, n) ↦ rw (n) (
          put_versions-Families t
            (Dict.remove version (versions_or_empty (Dict.get t s.descriptors))) s
            (remove-IsKeyed version (versions_or_empty (Dict.get t s.descriptors)) (h t)) h u)
    ]

pub clear-Families : (s : ToolRegistry) → Families (clear s).descriptors
unfolding clear
clear-Families s u = rw (get-empty {V = Dict ToolDescriptor} u) tt

run-Families :
    (op : Operation) (s : ToolRegistry)
    → IsTrimmed op
    → Families s.descriptors
    → Families (run op s).descriptors
unfolding run
run-Families (register_tool d) s e h = register-Families d s e h
run-Families (register_made t sampled d) s e h = register_factory-Families t sampled d s e h
run-Families (unregister_tool t version) s e h = unregister-Families t version s h
run-Families clear_all s e h = clear-Families s

pub run_all-Families :
    (ops : List Operation) (s : ToolRegistry)
    → All IsTrimmed ops
    → Families s.descriptors
    → Families (run_all ops s).descriptors
unfolding run_all
run_all-Families [] s e h = h
run_all-Families (op ∷ ops) s e h = run_all-Families ops (run op s) e.1 (run-Families op s e.0 h)
