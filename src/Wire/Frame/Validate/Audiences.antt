-- ===== src/Wire/Frame/Validate/Audiences.antt =====
-- What `Audience.Validate` lets pass.
use capri_hub.Common.{
  ℕ, not, ◌==◌, ◌≡◌, ◌≢◌, ◌↔◌, ◌<◌, refl, Bool, true, false, ◌&&◌, none, List, [], ◌∷◌, All, ltb,
  ◌==◌, guard-none, length, arith,
}
use capri_hub.Common.Int.{is_neg}
use capri_hub.Common.Words.{Bytes}
use capri_hub.Common.Text.{bytes_lt, bytes_lt_trans}
use capri_hub.Wire.Frame.{Audience}
use capri_hub.Wire.Frame.Validate.{no_text, check_sessions, check_all_sessions, validate_audience}

abbrev pub Before : Bytes → Bytes → Type 0
Before s t = bytes_lt s t ≡ true

-- Each session is before all that follow it.
abbrev pub Ascending : List Bytes → Type 0
Ascending [] = Unit {0}
Ascending (s ∷ ss) = All (Before s) ss × Ascending ss

abbrev pub NonEmpty : Bytes → Type 0
NonEmpty s = s ≢ []

pub record IsAudience (a : Audience) : Type 0 where
  pub gen : 0 < a.gen
  pub watchers : is_neg a.watchers ≡ false
  pub narrow : a.all ≡ true → a.sessions ≡ []
  pub named : All NonEmpty a.sessions
  pub ascending : Ascending a.sessions

pub passed_test : (b : Bool) → not b ≡ false → b ≡ true
passed_test true h = refl
passed_test false h = cc

above_0 : (n : ℕ) → (n == 0) ≡ false → 0 < n
above_0 n h = ground arith

pub no_text-NonEmpty : (s : Bytes) → no_text s ≡ false → NonEmpty s
no_text-NonEmpty [] h = cc
no_text-NonEmpty (b ∷ bs) h = λ e. cc

NonEmpty-no_text : (s : Bytes) → NonEmpty s → no_text s ≡ false
NonEmpty-no_text [] h = absurd (h refl)
NonEmpty-no_text (b ∷ bs) h = refl

Before-All : (s t : Bytes) (ss : List Bytes) → Before s t → All (Before t) ss → All (Before s) ss
Before-All s t [] h a = tt
Before-All s t (u ∷ ss) h a = (bytes_lt_trans s t u h a.0, Before-All s t ss h a.1)

sessions_pass :
    (s : Bytes) (ss : List Bytes)
    → check_sessions s ss ≡ none
    → All NonEmpty ss × Ascending (s ∷ ss)
unfolding check_sessions
sessions_pass s [] h = (tt, (tt, tt))
sessions_pass s (t ∷ ss) h =
    let (text, rest) = guard-none _ _ _ h in
    let (before, rest') = guard-none _ _ _ rest in
    let ih = sessions_pass t ss rest' in
    let lt : Before s t = passed_test (bytes_lt s t) before in
    ((no_text-NonEmpty t text, ih.0), ((lt, Before-All s t ss lt ih.1.0), ih.1))

pass_sessions :
    (s : Bytes) (ss : List Bytes)
    → All NonEmpty ss
    → Ascending (s ∷ ss)
    → check_sessions s ss ≡ none
unfolding check_sessions
pass_sessions s [] n a = refl
pass_sessions s (t ∷ ss) n a = rw (NonEmpty-no_text t n.0, a.0.0) (pass_sessions t ss n.1 a.1)

passed_sessions : (ss : List Bytes) → check_all_sessions ss ≡ none → All NonEmpty ss × Ascending ss
unfolding check_all_sessions
passed_sessions [] h = (tt, tt)
passed_sessions (s ∷ ss) h =
    let (text, rest) = guard-none _ _ _ h in
    let passed = sessions_pass s ss rest in ((no_text-NonEmpty s text, passed.0), passed.1)

pass_of_sorted : (ss : List Bytes) → All NonEmpty ss → Ascending ss → check_all_sessions ss ≡ none
unfolding check_all_sessions
pass_of_sorted [] n a = refl
pass_of_sorted (s ∷ ss) n a = rw (NonEmpty-no_text s n.0) (pass_sessions s ss n.1 a)

narrow_of_test :
    (every : Bool) (ss : List Bytes) → (every && ltb 0 (length ss)) ≡ false → every ≡ true → ss ≡ []
narrow_of_test every [] h e = refl
narrow_of_test every (s ∷ ss) h e = ground arith

test_of_narrow :
    (every : Bool) (ss : List Bytes)
    → (every ≡ true → ss ≡ [])
    → (every && ltb 0 (length ss)) ≡ false
test_of_narrow true ss h = rw (h refl) refl
test_of_narrow false ss h = refl

-- `Audience.Validate` passes exactly an audience with a generation, a watcher count that is not
-- negative, no sessions where it is for all, and sessions that are non-empty, sorted and distinct.
pub validate_audience-none : (a : Audience) → (validate_audience a ≡ none) ↔ IsAudience a
unfolding validate_audience
validate_audience-none a = (
  (λ h.
      let (gen, h₁) = guard-none _ _ _ h in
      let (watchers, h₂) = guard-none _ _ _ h₁ in
      let (narrow, h₃) = guard-none _ _ _ h₂ in
      let passed = passed_sessions a.sessions h₃ in
      let positive = above_0 a.gen gen in
      record {
        gen = positive;
        watchers = watchers;
        narrow = narrow_of_test a.all a.sessions narrow;
        named = passed.0;
        ascending = passed.1;
      }),
  (λ w.
      let gen : (a.gen == 0) ≡ false = (let g = w.gen in ground arith) in
      rw (gen, w.watchers, test_of_narrow a.all a.sessions w.narrow)
        (pass_of_sorted a.sessions w.named w.ascending)),
)
