-- ===== src/Daemon/Live/Reap.antt =====
-- What the two passes of the reaper do to one session.
use silicon_omni.Prelude.{
  ℕ, suc, String, ◌≡◌, refl, ap, ◌∙◌, Bool, false, some, List, [], ◌∷◌, str_eq, eq_iff, arith, inl,
  inr, Bool-cases, Option-cases, ◌⊎◌,
}
use silicon_omni.Daemon.Live.{
  Live, Sessions, find, remove, stop_locked_if, reap_all, reap, eligible, candidates,
}

find-remove :
    (name other : String) (sessions : Sessions)
    → str_eq other name ≡ false
    → find name (remove other sessions) ≡ find name sessions
unfolding find remove
find-remove name other [] h = refl
find-remove name other ((n, live) ∷ sessions) h =
    ground
      (arith, find-remove name other sessions h, eq_iff n other, eq_iff n name, eq_iff other name)

find-stop_locked_if :
    (test : Live → Bool) (name other : String) (sessions : Sessions) (live : Live)
    → find name sessions ≡ some live
    → test live ≡ false
    → find name (stop_locked_if test other sessions).0 ≡ some live
unfolding stop_locked_if
find-stop_locked_if test name other sessions live h busy = elim (Bool-cases (str_eq other name)) [
  | inl e ↦
      let same : find other sessions ≡ some live =
        ap (λ n. find n sessions) ((eq_iff other name).0 e) ∙ h in
      rw (same, stop_locked_if) (rw (busy, stop_locked_if) h)
  | inr e ↦ elim (Option-cases (find other sessions)) [
    | inl missing ↦ rw (missing, stop_locked_if) h
    | inr (l, there) ↦
        rw (there, stop_locked_if)
          (elim (Bool-cases (test l)) [
            | inl t ↦ rw t (find-remove name other sessions e ∙ h)
            | inr t ↦ rw t h
          ])
  ]
]

module _ (later : ℕ → ℕ) (meanwhile : ℕ → Sessions → Sessions) (grace : ℕ) (name : String) where
  -- Before each look, whatever other threads do to the sessions leaves this one among them, and
  -- neither stopped nor cold.
  abbrev pub IsUsed : Type 0
  IsUsed =
      (n : ℕ) (sessions : Sessions) (live : Live)
      → find name sessions ≡ some live
      → (seen : Live) × (find name (meanwhile n sessions) ≡ some seen)
        × (eligible (later n) grace seen ≡ false)

  -- The session is as it was, or in a state that was neither stopped nor cold at a look.
  abbrev pub IsLeft : Live → Live → Type 0
  IsLeft live left = (left ≡ live) ⊎ ((n : ℕ) × (eligible (later n) grace left ≡ false))

  find-reap_all :
      IsUsed
      → (n : ℕ) (names : List String) (sessions : Sessions) (live : Live)
      → find name sessions ≡ some live
      → (left : Live) × (find name (reap_all later meanwhile grace n names sessions).0 ≡ some left)
        × IsLeft live left
  unfolding reap_all
  find-reap_all used n [] sessions live h = (live, h, inl refl)
  find-reap_all used n (other ∷ names) sessions live h =
      let (seen, there, busy) = used n sessions live h in
      let test = eligible (later n) grace in
      let left = (stop_locked_if test other (meanwhile n sessions)).0 in
      let (l, kept, how) =
        find-reap_all used (suc n) names left seen
          (find-stop_locked_if test name other (meanwhile n sessions) seen there busy) in
      elim how [
        | inl same ↦ (l, kept, inr (n, ap test same ∙ busy))
        | inr used_then ↦ (l, kept, inr used_then)
      ]

  -- Whatever the first pass of `reap` found: a session that other threads use before each look of
  -- the second pass, so that it is neither stopped nor cold then, is there in the end, as it was
  -- or in a state that was neither stopped nor cold at a look; whatever they do to the other
  -- sessions.
  pub find-reap :
      (now : ℕ) (sessions : Sessions) (live : Live)
      → IsUsed
      → find name sessions ≡ some live
      → (left : Live) × (find name (reap now later meanwhile grace sessions).0 ≡ some left)
        × IsLeft live left
  unfolding reap
  find-reap now sessions live used h =
      find-reap_all used 0 (candidates now grace sessions) sessions live h
