-- ===== src/Host/Health/Reports.antt =====
-- src/health.rs: `run_probe`, the loop of one probe, over the list of its samples, and the errors of
-- `Outgoing::send` of src/lib.rs, which the loop drops.
use mathlib.Core.Bool.{false≢true}
use shellfleet_agent.Common.{
  ℕ, ◌+◌, ◌%◌, ◌^◌, min, ◌≡◌, ◌∙◌, inl, inr, refl, sym, ap, subst, Bool, true, false, List, [], ◌∷◌,
  Option, none, some, if◌then◌else◌, Text, Bytes, as_bytes, Result, ok, err, Bool-cases, arith,
}
use shellfleet_agent.Host.Health.Probe.{HealthProbeState, green, red, Detail, Sample}

-- What the bounded queue says of a message.
pub data OutgoingSendError : Type 0 where
  full closed : OutgoingSendError

-- A sample, how long it took, when it was reported, and what `send` would answer then.
pub record Moment : Type 0 where
  pub sample : Sample
  pub elapsed_ms : ℕ
  pub at : ℕ
  pub send : Result OutgoingSendError (Unit {0})

pub record HealthProbeResult : Type 0 where
  pub id : Text
  pub state : HealthProbeState
  pub latency_ms : ℕ
  pub detail : Detail
  pub at : ℕ

unfoldable pub same_state : HealthProbeState → HealthProbeState → Bool
same_state green green = true
same_state red red = true
same_state _ _ = false

-- `last_state == Some(state)`
unfoldable pub is_last : Option HealthProbeState → HealthProbeState → Bool
is_last none state = false
is_last (some last) state = same_state last state

unfoldable pub wrapping_sum : ℕ → Bytes → ℕ
wrapping_sum a [] = a
wrapping_sum a (b ∷ rest) = wrapping_sum ((a + b) % 2 ^ 64) rest

-- The delay before the first sample, in milliseconds.
unfoldable pub jitter_ms : Text → ℕ
jitter_ms id = wrapping_sum 0 (as_bytes id) % 5000

unfoldable pub report_of : Text → Moment → HealthProbeResult
report_of id m = record {
  id = id;
  state = m.sample.0;
  latency_ms = min m.elapsed_ms 4294967295;
  detail = m.sample.1;
  at = m.at;
}

-- A report that was sent, and what `send` answered.
abbrev pub Attempt : Type 0
Attempt = HealthProbeResult × Result OutgoingSendError (Unit {0})

-- The sends of the loop, from the last state that one was made for, whatever it answered.
unfoldable pub run_probe : Text → Option HealthProbeState → List Moment → List Attempt
run_probe id last [] = []
run_probe id last (m ∷ rest) =
    let changed = run_probe id (some m.sample.0) rest in
    let unchanged = run_probe id last rest in
    if is_last last m.sample.0 then unchanged else (report_of id m, m.send) ∷ changed

-- The reports that the queue took.
abbrev pub received : List Attempt → List HealthProbeResult
received [] = []
received ((r, ok _) ∷ rest) = r ∷ received rest
received ((r, err _) ∷ rest) = received rest

-- The state that a reader of the reports takes the probe to be in.
abbrev pub view : Option HealthProbeState → List HealthProbeResult → Option HealthProbeState
view last [] = last
view last (r ∷ rest) = view (some r.state) rest

-- The state of the last send, and whether it was taken.
abbrev tried : Option HealthProbeState → List Attempt → Option HealthProbeState
tried last [] = last
tried last (a ∷ rest) = tried (some a.0.state) rest

abbrev pub last_taken : Bool → List Attempt → Bool
last_taken taken [] = taken
last_taken taken ((r, ok _) ∷ rest) = last_taken true rest
last_taken taken ((r, err _) ∷ rest) = last_taken false rest

-- The state of the last sample.
abbrev pub newest : Option HealthProbeState → List Moment → Option HealthProbeState
newest last [] = last
newest last (m ∷ rest) = newest (some m.sample.0) rest

-- Each report that is sent tells of another state than the one before.
abbrev pub Alternate : Option HealthProbeState → List Attempt → Type 0
Alternate last [] = Unit
Alternate last (a ∷ rest) = (¬ (last ≡ some a.0.state)) × Alternate (some a.0.state) rest

is_last_eq :
    (last : Option HealthProbeState) (state : HealthProbeState)
    → is_last last state ≡ true
    → last ≡ some state
unfolding is_last same_state
is_last_eq none state h = cc
is_last_eq (some green) green h = refl
is_last_eq (some red) red h = refl
is_last_eq (some green) red h = cc
is_last_eq (some red) green h = cc

is_last_refl : (state : HealthProbeState) → is_last (some state) state ≡ true
unfolding is_last same_state
is_last_refl green = refl
is_last_refl red = refl

is_last_other :
    (last : Option HealthProbeState) (state : HealthProbeState)
    → is_last last state ≡ false
    → ¬ (last ≡ some state)
is_last_other last state h e = false≢true (sym h ∙ ap (λ o. is_last o state) e ∙ is_last_refl state)

module _ (id : Text) (m : Moment) (rest : List Moment) (last : Option HealthProbeState) where
  run_probe-unchanged :
      is_last last m.sample.0 ≡ true → run_probe id last (m ∷ rest) ≡ run_probe id last rest
  unfolding run_probe
  run_probe-unchanged h = ground (arith, h)

  run_probe-changed :
      is_last last m.sample.0 ≡ false
      → run_probe id last (m ∷ rest)
        ≡ (report_of id m, m.send) ∷ run_probe id (some m.sample.0) rest
  unfolding run_probe
  run_probe-changed h = ground (arith, h)

-- What the loop sends: a report of the newest state last, and none that repeats the one before.
run_probe-tried :
    (id : Text) (last : Option HealthProbeState) (ms : List Moment)
    → (tried last (run_probe id last ms) ≡ newest last ms) × Alternate last (run_probe id last ms)
unfolding run_probe report_of
run_probe-tried id last [] = (refl, tt)
run_probe-tried id last (m ∷ rest) = elim (Bool-cases (is_last last m.sample.0)) [
  | inl e ↦
      let (seen, alternate) = run_probe-tried id last rest in
      let q = run_probe-unchanged id m rest last e in
      (
        ap (tried last) q ∙ seen ∙ ap (λ s. newest s rest) (is_last_eq last m.sample.0 e),
        subst (Alternate last) (sym q) alternate,
      )
  | inr e ↦
      let (seen, alternate) = run_probe-tried id (some m.sample.0) rest in
      let q = run_probe-changed id m rest last e in
      (
        ap (tried last) q ∙ seen,
        subst (Alternate last) (sym q) (is_last_other last m.sample.0 e, alternate),
      )
]

-- Where the last send is taken, the receiver's view is the state of that send.
view-tried :
    (sends : List Attempt) (taken : Bool) (v w : Option HealthProbeState)
    → ((taken ≡ true) → v ≡ w)
    → last_taken taken sends ≡ true
    → view v (received sends) ≡ tried w sends
view-tried [] taken v w same h = same h
view-tried ((r, ok _) ∷ rest) taken v w same h =
    view-tried rest true (some r.state) (some r.state) (λ _. refl) h
view-tried ((r, err _) ∷ rest) taken v w same h = view-tried rest false v (some r.state) (λ e. cc) h

-- When the queue has taken the last report that the loop sent, if it has sent any, whoever reads what
-- the queue has taken finds the probe in the state of its newest sample, whatever reports were lost
-- before; and no report that is sent repeats the state of the one before.
pub run_probe-view :
    (id : Text) (last : Option HealthProbeState) (ms : List Moment)
    → last_taken true (run_probe id last ms) ≡ true
    → (view last (received (run_probe id last ms)) ≡ newest last ms)
      × Alternate last (run_probe id last ms)
run_probe-view id last ms h =
    let (seen, alternate) = run_probe-tried id last ms in
    (view-tried (run_probe id last ms) true last last (λ _. refl) h ∙ seen, alternate)
