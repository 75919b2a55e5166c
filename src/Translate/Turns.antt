-- ===== src/Translate/Turns.antt =====
-- The turns of a transcript, and the events that they were made of.
use text.Mathlib.TextLemmas.{append-eq-nil_iff}
use silicon_omni.Prelude.{
  String, true, ◌≡◌, ◌≢◌, refl, sym, ap, ◌∙◌, ◌↔◌, List, [], ◌∷◌, ◌++◌, map, str_eq, eq_iff,
  if◌then◌else◌, append_assoc, append-nil, arith, Bool-cases, inl, inr,
}
use silicon_omni.Json.{Value}
use silicon_omni.Events.{Event}
use silicon_omni.Translate.{
  Role, same_role, Turn, with_line, role_of, say, render, transcript_loop, transcript, flatten,
  with_header,
}

-- What one role says in a row: a text and those that follow it.
pub record Group : Type 0 where
  pub role : Role
  pub first : String
  pub rest : List String

-- The texts of a group, a line break between any two.
abbrev pub lines : String → List String → String
lines text [] = text
lines text (next ∷ texts) = lines (with_line text next) texts

abbrev pub turn_of : Group → Turn
turn_of g = record { role = g.role; text = lines g.first g.rest }

abbrev pub piece : Role → String → Role × String
piece role text = (role, text)

abbrev pub pieces : Group → List (Role × String)
pieces g = map (piece g.role) (g.first ∷ g.rest)

abbrev pub ungroup : List Group → List (Role × String)
ungroup [] = []
ungroup (g ∷ gs) = pieces g ++ ungroup gs

-- No two neighbours have the same role.
abbrev pub IsAlternating : List Group → Type 0
IsAlternating [] = Unit
IsAlternating (g ∷ []) = Unit
IsAlternating (g ∷ h ∷ gs) = (g.role ≢ h.role) × IsAlternating (h ∷ gs)

same_role_iff : (r s : Role) → (same_role r s ≡ true) ↔ (r ≡ s)
same_role_iff r s = ground arith

add : Role → String → List Group → List Group
add role text [] = record { role = role; first = text; rest = [] } ∷ []
add role text (g ∷ []) =
    if same_role g.role role
    then record g { rest = g.rest ++ (text ∷ []) } ∷ []
    else g ∷ record { role = role; first = text; rest = [] } ∷ []
add role text (g ∷ h ∷ gs) = g ∷ add role text (h ∷ gs)

lines-append :
    (text line : String) (texts : List String)
    → lines text (texts ++ (line ∷ [])) ≡ with_line (lines text texts) line
lines-append text line [] = refl
lines-append text line (t ∷ texts) = lines-append (with_line text t) line texts

say-add :
    (role : Role) (text : String) (gs : List Group)
    → say role text (map turn_of gs) ≡ map turn_of (add role text gs)
unfolding say add
say-add role text [] = refl
say-add role text (g ∷ []) = ground (arith, lines-append g.first text g.rest)
say-add role text (g ∷ h ∷ gs) = ap (λ (r : List Turn). turn_of g ∷ r) (say-add role text (h ∷ gs))

pieces-snoc :
    (role : Role) (texts : List String) (line : String)
    → map (piece role) (texts ++ (line ∷ [])) ≡ map (piece role) texts ++ ((role, line) ∷ [])
pieces-snoc role [] line = refl
pieces-snoc role (t ∷ texts) line =
    ap (λ (r : List (Role × String)). (role, t) ∷ r) (pieces-snoc role texts line)

ungroup-add :
    (role : Role) (text : String) (gs : List Group)
    → ungroup (add role text gs) ≡ ungroup gs ++ ((role, text) ∷ [])
unfolding add
ungroup-add role text [] = refl
ungroup-add role text (g ∷ []) = ground (
  arith,
  same_role_iff g.role role,
  pieces-snoc g.role g.rest text,
  append-nil (pieces g),
  append-nil (pieces (record g { rest = g.rest ++ (text ∷ []) })),
)
ungroup-add role text (g ∷ h ∷ gs) =
    ap (λ (r : List (Role × String)). pieces g ++ r) (ungroup-add role text (h ∷ gs))
    ∙ sym (append_assoc (pieces g) (ungroup (h ∷ gs)) ((role, text) ∷ []))

-- The role of the first group is never changed.
add-IsAlternating :
    (role : Role) (text : String) (gs : List Group)
    → IsAlternating gs
    → IsAlternating (add role text gs)
unfolding add
add-IsAlternating role text [] h = tt
add-IsAlternating role text (g ∷ []) h = ground (arith, same_role_iff g.role role)
add-IsAlternating role text (g ∷ k ∷ []) h = ground (arith, same_role_iff k.role role)
add-IsAlternating role text (g ∷ k ∷ l ∷ gs) h = (h.0, add-IsAlternating role text (k ∷ l ∷ gs) h.1)

headed-nil_iff :
    (header : String) (gs : List Group)
    → (with_header header (map turn_of gs) ≡ "") ↔ (ungroup gs ≡ [])
headed-nil_iff header [] = (λ _. refl, λ _. refl)
headed-nil_iff header (g ∷ gs) = (
  λ e.
      let (headed, _) = append-eq-nil_iff.0 e in
      let (_, broken) = append-eq-nil_iff.0 headed in absurd (ground (arith, eq_iff "\n\n" "")),
  λ e. absurd (ground arith),
)

module _ (print : Value → String) (trim : String → String) where
  -- What the events say, in order: the texts that are not empty, with their roles.
  abbrev pub spoken : List Event → List (Role × String)
  spoken [] = []
  spoken (e ∷ events) =
      let rest = spoken events in
      if str_eq (render print trim e) "" then rest else (role_of e, render print trim e) ∷ rest

  transcript_loop_groups :
      (events : List Event) (gs : List Group)
      → IsAlternating gs
      → (next : List Group) × (transcript_loop print trim (map turn_of gs) events
          ≡ map turn_of next)
        × (ungroup next ≡ ungroup gs ++ spoken events)
        × IsAlternating next
  unfolding transcript_loop
  transcript_loop_groups [] gs h = (gs, refl, sym (append-nil (ungroup gs)), h)
  transcript_loop_groups (e ∷ events) gs h =
      let text = render print trim e in
      elim (Bool-cases (str_eq text "")) [
        | inl empty ↦ rw empty (transcript_loop_groups events gs h)
        | inr full ↦
            let gs' = add (role_of e) text gs in
            let (next, told, kept, alternating) =
              transcript_loop_groups events gs' (add-IsAlternating (role_of e) text gs h) in
            rw full (
              next,
              rw (say-add (role_of e) text gs) told,
              kept
                  ∙ ap (λ (r : List (Role × String)). r ++ spoken events)
                      (ungroup-add (role_of e) text gs)
                  ∙ append_assoc (ungroup gs) ((role_of e, text) ∷ []) (spoken events),
              alternating,
            )
      ]

  -- A transcript is made of groups: each turn is the lines of one group, the groups in order are
  -- exactly the texts that the events say with their roles, and neighbours have different roles.
  pub transcript-groups :
      (events : List Event)
      → (gs : List Group) × (transcript print trim events ≡ map turn_of gs)
        × (ungroup gs ≡ spoken events)
        × IsAlternating gs
  unfolding transcript
  transcript-groups events = transcript_loop_groups events [] tt

  -- The seed message is empty exactly if the events say nothing.
  pub flatten-nil_iff :
      (events : List Event) (header : String)
      → (flatten print trim events header ≡ "") ↔ (spoken events ≡ [])
  unfolding flatten
  flatten-nil_iff events header =
      let (gs, told, kept, alternating) = transcript-groups events in
      rw (told, flatten) (rw (sym kept) (headed-nil_iff header gs))
