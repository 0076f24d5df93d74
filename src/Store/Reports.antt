-- ===== src/Store/Reports.antt =====
-- Reports on one assignment, one after another (`UpdateAssignmentStatus`, internal/store/assignments.go).
use k3_control_plane.Base.{
  String, Bool, true, false, ◌≡◌, ◌≢◌, refl, sym, ap, ◌∙◌, Option, none, some, List, [], ◌∷◌,
  Bool-cases, Option-cases, inl, inr, arith, eq_iff, if◌then◌else◌,
}
use k3_control_plane.Base.Assoc
use k3_control_plane.Api.{Time, Assignment}
use k3_control_plane.Api.Phases.{Phase, running, phase_eq, is_terminal_phase}
use k3_control_plane.Store.{MemoryStore, apply_status, first_start, update_assignment_status}
use k3_control_plane.Store.Status.{
  update_terminal, get-update_assignment_status, update_assignment_status_frame, update_missing,
}

pub record Report : Type 0 where
  pub phase : Phase
  pub message : String
  pub time : Time

-- The calls of the method, one for each report.
unfoldable pub report_all : MemoryStore → String → List Report → MemoryStore
report_all s id [] = s
report_all s id (r ∷ rest) =
    report_all (update_assignment_status s id r.phase r.message r.time).0 id rest

-- The reports up to the first one that ends the assignment, with that one.
abbrev pub up_to_end : List Report → List Report
up_to_end [] = []
up_to_end (r ∷ rest) =
    let later = up_to_end rest in if is_terminal_phase r.phase then r ∷ [] else r ∷ later

abbrev pub last_phase : Phase → List Report → Phase
last_phase phase [] = phase
last_phase phase (r ∷ rest) = last_phase r.phase rest

abbrev pub last_message : String → List Report → String
last_message message [] = message
last_message message (r ∷ rest) = last_message r.message rest

-- The time of the first report of a phase that the test takes, unless a time is known.
abbrev pub first_time : (Phase → Bool) → Option Time → List Report → Option Time
first_time test (some t) rest = some t
first_time test none [] = none
first_time test none (r ∷ rest) =
    let later = first_time test none rest in if test r.phase then some r.time else later

-- What the reports make of an assignment.
abbrev pub after_reports : Assignment → List Report → Assignment
after_reports a rs = record a {
  phase = last_phase a.phase rs;
  status_message = last_message a.status_message rs;
  started_at = first_time (λ phase. phase_eq phase running) a.started_at rs;
  finished_at = first_time is_terminal_phase a.finished_at rs;
}

report_all-terminal :
    (s : MemoryStore) (id : String) (rs : List Report) {a : Assignment}
    → Assoc.get id s.assignments ≡ some a
    → is_terminal_phase a.phase ≡ true
    → report_all s id rs ≡ s
unfolding report_all
report_all-terminal s id [] g t = refl
report_all-terminal s id (r ∷ rest) g t =
    rw (update_terminal s id r.phase r.message r.time g t) (report_all-terminal s id rest g t)

started_step :
    (test : Phase → Bool) (known : Option Time) (r : Report) (rest : List Report)
    → first_time test (first_time test known (r ∷ [])) rest ≡ first_time test known (r ∷ rest)
started_step test (some t) r [] = refl
started_step test (some t) r (r' ∷ rest) = refl
started_step test none r rest = elim (Bool-cases (test r.phase)) [
  | inl e ↦ rw e refl
  | inr e ↦ rw e refl
]

no_time : (test : Phase → Bool) (known : Option Time) → first_time test known [] ≡ known
no_time test none = refl
no_time test (some t) = refl

no_reports : (a : Assignment) → after_reports a [] ≡ a
no_reports a i = record a {
  started_at = no_time (λ phase. phase_eq phase running) a.started_at i;
  finished_at = no_time is_terminal_phase a.finished_at i;
}

reports_step :
    (a : Assignment) (r : Report) (rest : List Report)
    → after_reports (after_reports a (r ∷ [])) rest ≡ after_reports a (r ∷ rest)
reports_step a r rest i = record a {
  phase = last_phase r.phase rest;
  status_message = last_message r.message rest;
  started_at = started_step (λ phase. phase_eq phase running) a.started_at r rest i;
  finished_at = started_step is_terminal_phase a.finished_at r rest i;
}

start_step :
    (known : Option Time) (r : Report)
    → first_start r.phase known r.time ≡ first_time (λ phase. phase_eq phase running) known (r ∷ [])
unfolding first_start
start_step (some t) r = refl
start_step none r = refl

one_report :
    (a : Assignment) (r : Report)
    → is_terminal_phase a.phase ≡ false
    → a.finished_at ≡ none
    → (apply_status a r.phase r.message r.time).0 ≡ after_reports a (r ∷ [])
unfolding apply_status
one_report a r active unfinished = rw (active, start_step a.started_at r, unfinished) refl

other_report :
    (s : MemoryStore) (id j : String) (r : Report)
    → id ≢ j
    → Assoc.get j (update_assignment_status s id r.phase r.message r.time).0.assignments
      ≡ Assoc.get j s.assignments
other_report s id j r apart = elim (Option-cases (Assoc.get id s.assignments)) [
  | inl g ↦
      ap (λ (out : MemoryStore × Option Assignment). Assoc.get j out.0.assignments)
        (update_missing s id r.phase r.message r.time g)
  | inr (a, g) ↦
      ground (arith, eq_iff id j, get-update_assignment_status s id j r.phase r.message r.time g)
]

-- Everything of the store but the assignment with an ID.
pub record SameBut (id : String) (s t : MemoryStore) : Type 0 where
  pub others : (j : String) → id ≢ j → Assoc.get j t.assignments ≡ Assoc.get j s.assignments
  pub nodes : t.nodes ≡ s.nodes
  pub services : t.services ≡ s.services
  pub jobs : t.jobs ≡ s.jobs

report_all-SameBut :
    (s : MemoryStore) (id : String) (rs : List Report) → SameBut id s (report_all s id rs)
unfolding report_all
report_all-SameBut s id [] = record {
  others = λ j apart. refl;
  nodes = refl;
  services = refl;
  jobs = refl;
}
report_all-SameBut s id (r ∷ rest) =
    let s' = (update_assignment_status s id r.phase r.message r.time).0 in
    let h = report_all-SameBut s' id rest in
    let (n, v, j) = update_assignment_status_frame s id r.phase r.message r.time in
    record {
      others = λ k apart. h.others k apart ∙ other_report s id k r apart;
      nodes = h.nodes ∙ n;
      services = h.services ∙ v;
      jobs = h.jobs ∙ j;
    }

module _ (id : String) where
  -- The assignment after one report, and that no other has changed.
  first_report :
      (s : MemoryStore) (a : Assignment) (r : Report)
      → Assoc.get id s.assignments ≡ some a
      → is_terminal_phase a.phase ≡ false
      → a.finished_at ≡ none
      → Assoc.get id (update_assignment_status s id r.phase r.message r.time).0.assignments
        ≡ some (after_reports a (r ∷ []))
  first_report s a r g active unfinished =
      get-update_assignment_status s id id r.phase r.message r.time g
      ∙ rw ((eq_iff id id).1 refl) (ap some (one_report a r active unfinished))

  report_all-get :
      (s : MemoryStore) (a : Assignment) (rs : List Report)
      → Assoc.get id s.assignments ≡ some a
      → is_terminal_phase a.phase ≡ false
      → a.finished_at ≡ none
      → Assoc.get id (report_all s id rs).assignments ≡ some (after_reports a (up_to_end rs))
  unfolding report_all
  report_all-get s a [] g active unfinished = g ∙ ap some (sym (no_reports a))
  report_all-get s a (r ∷ rest) g active unfinished =
      let s' = (update_assignment_status s id r.phase r.message r.time).0 in
      let g' = first_report s a r g active unfinished in
      elim (Bool-cases (is_terminal_phase r.phase)) [
        | inl e ↦ rw e (
            ap (λ (t : MemoryStore). Assoc.get id t.assignments)
              (report_all-terminal s' id rest g' e)
            ∙ g')
        | inr e ↦ rw e (
            report_all-get s' (after_reports a (r ∷ [])) rest g' e (rw (unfinished, e) refl)
            ∙ ap some (reports_step a r (up_to_end rest)))
      ]

-- Any sequence of reports on an assignment that is not terminal leaves it with the phase and the
-- message of the last report that counts, where those count that come up to the first with a
-- terminal phase; it was started when one of them first reported it running, unless it had been
-- started before, and finished when the terminal phase was reported. Nothing else in the store
-- changes. The assignment had no time of the end before.
pub report_all-History :
    (s : MemoryStore) (id : String) (a : Assignment) (rs : List Report)
    → Assoc.get id s.assignments ≡ some a
    → is_terminal_phase a.phase ≡ false
    → a.finished_at ≡ none
    → (Assoc.get id (report_all s id rs).assignments ≡ some (after_reports a (up_to_end rs)))
      × SameBut id s (report_all s id rs)
report_all-History s id a rs g active unfinished =
    (report_all-get id s a rs g active unfinished, report_all-SameBut s id rs)
