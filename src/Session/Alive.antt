-- ===== src/Session/Alive.antt =====
-- What `session_report` of benchmark_session.py says of a session, by whether its worker lives.
use replaybook.Prelude.{
  ◌≡◌, refl, sym, ap, ◌∙◌, subst, inl, inr, String, Bool, true, false, ◌&&◌, some, [], arith,
  Bool-cases, Option-cases, if◌then◌else◌,
}
use replaybook.Prelude.Eq.{◌==◌, string_eq}
use replaybook.Prelude.Result.{ok, >>=-eq-ok, ok-injective}
use replaybook.Json.{Value, null, bool, int, float, str, arr, obj, Fields}
use replaybook.Json.Floats.{Floats}
use replaybook.Json.Access.{index, eq_str}
use replaybook.Matrix.Summary.{summarize_runs}
use replaybook.Session.{
  MatrixDir, MatrixReport, SessionDir, SessionReport, is_terminal, is_ended, reported, status_of,
  session_state, read_object, managed_report,
}
use replaybook.Session.Complete.{IsComplete, matrix_report-IsComplete}

named_terminal :
    (F : Type 0) (name s : String)
    → (s == name) ≡ true
    → is_terminal {F = F} (str name) ≡ ok true
    → is_terminal {F = F} (str s) ≡ ok true
named_terminal F name s e h =
    subst (λ t. is_terminal {F = F} (str t) ≡ ok true) (sym (((string_eq).beq_iff s name).0 e)) h

module _ {F : Type 0} ⦃fl : Floats F⦄ where
  -- The state that a report shows: a live worker's is that of status.json, a dead worker's is
  -- terminal.
  pub record IsShown (alive : Bool) (state shown : Value F) : Type 0 where
    pub live : alive ≡ true → shown ≡ state
    pub dead : alive ≡ false → is_terminal shown ≡ ok true

  finished-terminal : (state : Value F) → is_ended state ≡ true → is_terminal state ≡ ok true
  finished-terminal (str s) h = elim (Bool-cases (s == "completed")) [
    | inl e ↦ named_terminal F "completed" s e refl
    | inr n ↦ named_terminal F "incomplete" s (ground (arith, h, n)) refl
  ]
  finished-terminal null h = absurd cc
  finished-terminal (bool b) h = absurd cc
  finished-terminal (int z) h = absurd cc
  finished-terminal (float x) h = absurd cc
  finished-terminal (arr vs) h = absurd cc
  finished-terminal (obj fs) h = absurd cc

  running-state : (state : Value F) → eq_str state "running" ≡ true → str "running" ≡ state
  running-state (str s) h = ap str (sym (((string_eq).beq_iff s "running").0 h))
  running-state null h = absurd cc
  running-state (bool b) h = absurd cc
  running-state (int z) h = absurd cc
  running-state (float x) h = absurd cc
  running-state (arr vs) h = absurd cc
  running-state (obj fs) h = absurd cc

  dead_state :
      (state : Value F)
      → is_terminal (if is_ended state then state else str "interrupted") ≡ ok true
  dead_state state = elim (Bool-cases (is_ended state)) [
    | inl good ↦ rw good (finished-terminal state good)
    | inr bad ↦ rw bad refl
  ]

  session_state-IsShown :
      (alive : Bool) (state : Value F) (report r : MatrixReport F)
      → session_state alive state report ≡ ok r
      → IsShown alive state r.state
  unfolding session_state
  session_state-IsShown true state report r h = elim (Bool-cases (eq_str state "running")) [
    | inl good ↦
        let e = ap (λ r. r.state) (ok-injective (rw (session_state, good) at h)) in
        record { live = λ _. sym e ∙ running-state state good; dead = λ k. absurd cc }
    | inr bad ↦
        let (terminal, _, k) = >>=-eq-ok (is_terminal state) _ (rw (session_state, bad) at h) in
        record {
          live = λ _. elim (Bool-cases terminal) [
            | inl t ↦ sym (ap (λ r. r.state) (ok-injective (rw t at k)))
            | inr t ↦ sym (ap (λ r. r.state) (ok-injective (rw t at k)))
          ];
          dead = λ k. absurd cc;
        }
  ]
  session_state-IsShown false state report r h =
      let (terminal, e, k) = >>=-eq-ok (is_terminal state) _ h in
      record {
        live = λ k. absurd cc;
        dead = λ _. elim (Bool-cases terminal) [
          | inl t ↦
              subst (λ s. is_terminal s ≡ ok true) (ap (λ r. r.state) (ok-injective (rw t at k)))
                (e ∙ ap ok t)
          | inr t ↦
              subst (λ s. is_terminal s ≡ ok true) (ap (λ r. r.state) (ok-injective (rw t at k)))
                (dead_state report.state)
        ];
      }

  -- The report of a managed session shows the state of status.json while its worker lives, and a
  -- terminal state once the worker is gone.
  pub managed_report-IsShown :
      (dir : SessionDir F) (r : SessionReport F)
      → managed_report dir ≡ ok r
      → (status : Fields F) × (state : Value F) × (status_of dir.status ≡ ok status)
        × (index "state" status ≡ ok state)
        × IsShown dir.alive state r.report.state
  unfolding managed_report
  managed_report-IsShown dir r h =
      let (spec, _, h) = >>=-eq-ok (read_object dir.session) _ h in
      let (status, reads, h) = >>=-eq-ok (status_of dir.status) _ h in
      let (state, found, h) = >>=-eq-ok (index "state" status) _ h in
      let (report, _, h) = >>=-eq-ok (reported dir (dir.alive && eq_str state "running")) _ h in
      let (final, shows, h) = >>=-eq-ok (session_state dir.alive state report) _ h in
      let (profile, _, h) = >>=-eq-ok (index "profile" spec) _ h in
      (
        status,
        state,
        reads,
        found,
        subst (λ r. IsShown dir.alive state r.report.state) (ok-injective h)
            (session_state-IsShown dir.alive state report final shows),
      )

  reported-IsComplete :
      (dir : SessionDir F) (report : MatrixReport F)
      → reported dir false ≡ ok report
      → eq_str report.state "completed" ≡ true
      → (m : MatrixDir F) × (dir.matrix ≡ some m) × IsComplete m
  reported-IsComplete dir report h k = elim (Option-cases dir.matrix) [
    | inl nothing ↦
        let (totals, _, e) = >>=-eq-ok (summarize_runs []) _ (rw (reported, nothing) at h) in
        let state = ap (λ r. r.state) (ok-injective e) in absurd (cc (rw (sym state) at k))
    | inr (m, found) ↦
        (m, found, (matrix_report-IsComplete m report (rw (reported, found) at h)).0 k)
  ]

  interrupted-completed :
      (state : Value F)
      → eq_str (if is_ended state then state else str "interrupted") "completed" ≡ true
      → eq_str state "completed" ≡ true
  interrupted-completed state h = elim (Bool-cases (is_ended state)) [
    | inl good ↦ rw good at h
    | inr bad ↦ absurd (cc (rw bad at h))
  ]

  dead_report-completed :
      (state : Value F) (report r : MatrixReport F)
      → is_terminal state ≡ ok false
      → session_state false state report ≡ ok r
      → eq_str r.state "completed" ≡ true
      → eq_str report.state "completed" ≡ true
  unfolding session_state
  dead_report-completed state report r ongoing h k =
      interrupted-completed report.state
        (ap (λ r. eq_str r.state "completed") (ok-injective (rw (session_state, ongoing) at h)) ∙ k)

  -- A session whose worker is gone and whose status.json names no terminal state is reported as
  -- completed only where its matrix is complete.
  pub managed_report-IsComplete :
      (dir : SessionDir F) (r : SessionReport F) (status : Fields F) (state : Value F)
      → managed_report dir ≡ ok r
      → dir.alive ≡ false
      → status_of dir.status ≡ ok status
      → index "state" status ≡ ok state
      → is_terminal state ≡ ok false
      → eq_str r.report.state "completed" ≡ true
      → (m : MatrixDir F) × (dir.matrix ≡ some m) × IsComplete m
  unfolding managed_report
  managed_report-IsComplete dir r status state h dead reads found ongoing completed =
      let (spec, _, h) = >>=-eq-ok (read_object dir.session) _ h in
      let (status', reads', h) = >>=-eq-ok (status_of dir.status) _ h in
      let (state', found', h) = >>=-eq-ok (index "state" status') _ h in
      let (report, reports, h) =
        >>=-eq-ok (reported dir (dir.alive && eq_str state' "running")) _ h in
      let (final, shows, h) = >>=-eq-ok (session_state dir.alive state' report) _ h in
      let (profile, _, h) = >>=-eq-ok (index "profile" spec) _ h in
      let same_status : status' ≡ status = ok-injective (sym reads' ∙ reads) in
      let same_state : state' ≡ state =
        ok-injective (sym found' ∙ ap (index "state") same_status ∙ found) in
      let ongoing' : is_terminal state' ≡ ok false = ap is_terminal same_state ∙ ongoing in
      let reports' : reported dir false ≡ ok report =
        subst (λ a. reported dir (a && eq_str state' "running") ≡ ok report) dead reports in
      let shows' : session_state false state' report ≡ ok final =
        subst (λ a. session_state a state' report ≡ ok final) dead shows in
      let said =
        dead_report-completed state' report final ongoing' shows'
          (ap (λ r. eq_str r.report.state "completed") (ok-injective h) ∙ completed) in
      reported-IsComplete dir report reports' said
