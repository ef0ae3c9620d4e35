-- ===== src/Phase/Replay.antt =====
-- What `run_replay_http` of scenario_phase.py has done when it returns.
use replaybook.Prelude.{
  ℕ, zero, suc, ◌≡◌, refl, sym, ap, subst, inl, inr, ◌⊎◌, String, true, ◌||◌, none, some, List, [],
  ◌∷◌, is_nil, arith, Bool-cases, Option-cases, All, All-imp,
}
use replaybook.Prelude.Eq.{◌==◌, string_eq, elem, eq_self}
use replaybook.Prelude.Text.{◌<>◌}
use replaybook.Prelude.Order.{join}
use replaybook.Phase.Concurrent.{is_done, failure-verdict}
use replaybook.Prelude.Result.{ok, >>=-eq-ok, ok-injective, Result-cases, map_result}
use replaybook.Json.{Fields}
use replaybook.Json.Floats.{Floats}
use replaybook.Json.Access.{get, is_null}
use replaybook.Phase.{Response, Request, World, done}
use replaybook.Phase.Values.{string_value, number_value, matches}
use replaybook.Phase.Steps.{
  response_of, concurrent_batch, replies, split_results, is_past, replay_loop, Replayed, left_over,
  broke, spent, owned_ids, initial_delay, replay_clock, replay_end, replay_ids, run_replay_http,
}
use replaybook.Phase.Split.{
  Split, hit, miss, split_results-Split, id_request, concurrent_batch-requests,
}

ids_left : Replayed → List String
ids_left (left_over ids) = ids
ids_left _ = []

left_over-injective : {a b : List String} → left_over a ≡ left_over b → a ≡ b
unfolding ids_left
left_over-injective h = ap ids_left h

module _ {F W : Type 0} ⦃fl : Floats F⦄ (world : World F W) (base_url phase : String) where
  -- The worlds that follow one world: requests, readings of the clock and sleeps.
  pub data Follows : W → W → Type 0 where
    same : {w : W} → Follows w w
    served :
        {w v : W} (requests : List (Request F)) → Follows (world.served requests w) v → Follows w v
    ticked : {w v : W} → Follows (world.ticked w) v → Follows w v
    slept : {w v : W} (seconds : F) → Follows (world.slept seconds w) v → Follows w v

  -- Behind the world, a request for the id has got a response that matches.
  pub record IsRecovered (step : Fields F) (w : W) (id : String) : Type 0 where
    pub template : String
    pub read : string_value step "path" none ≡ ok template
    pub request : Request F
    pub sent : id_request world base_url phase step template id ≡ ok request
    pub place : ℕ
    pub time : W
    pub later : Follows w time
    pub matched : matches (response_of (world.reply place request time)) step ≡ ok true

  IsRecovered-before :
      (step : Fields F) (w v : W) (f : (u : W) → Follows v u → Follows w u) (id : String)
      → IsRecovered step v id
      → IsRecovered step w id
  IsRecovered-before step w v f id r = record {
    template = r.template;
    read = r.read;
    request = r.request;
    sent = r.sent;
    place = r.place;
    time = r.time;
    later = f r.time r.later;
    matched = r.matched;
  }

  -- The id is among those left over, or has been recovered.
  abbrev Accounted : Fields F → W → List String → String → Type 0
  Accounted step w bad id = (elem id bad ≡ true) ⊎ IsRecovered step w id

  Accounted-more :
      (step : Fields F) (w : W) (bad : List String) (b id : String)
      → Accounted step w bad id
      → Accounted step w (b ∷ bad) id
  Accounted-more step w bad b id (inl h) = inl (ground (arith, h))
  Accounted-more step w bad b id (inr r) = inr r

  round-cons :
      (step : Fields F) (w : W) (id : String) (response : Response) (ids : List String)
      (results : List (String × Response)) (good bad : List String)
      → Split world base_url phase step ((id, response) ∷ results) good bad
      → ((g b : List String)
          → Split world base_url phase step results g b
          → All (Accounted step w b) ids)
      → (matches response step ≡ ok true → IsRecovered step w id)
      → All (Accounted step w bad) (id ∷ ids)
  round-cons step w id response ids results (good) bad (hit e more) rest recovered =
      (inr (recovered e), rest _ bad more)
  round-cons step w id response ids results good (b ∷ bad) (miss e more) rest recovered = (
    inl (ground (arith, eq_self id)),
    All-imp (Accounted step w bad) (Accounted step w (b ∷ bad)) (Accounted-more step w bad b) ids
        (rest good bad more),
  )

  -- A round: every id is left over or recovered.
  round-Accounted :
      (step : Fields F) (w : W) (template : String)
      → string_value step "path" none ≡ ok template
      → (i : ℕ) (ids : List String) (requests : List (Request F)) (good bad : List String)
      → map_result (id_request world base_url phase step template) ids ≡ ok requests
      → Split world base_url phase step (replies world base_url phase i ids requests w) good bad
      → All (Accounted step w bad) ids
  unfolding replies
  round-Accounted step w template read i [] requests good bad sends split = tt
  round-Accounted step w template read i (id ∷ ids) requests good bad sends split =
      let (r, e, h) = >>=-eq-ok (id_request world base_url phase step template id) _ sends in
      let (rs, k, h) =
        >>=-eq-ok (map_result (id_request world base_url phase step template) ids) _ h in
      let results = replies world base_url phase (suc i) ids rs w in
      let response = response_of (world.reply i r w) in
      round-cons step w id response ids results good bad
        (subst
          (λ l.
            Split world base_url phase step (replies world base_url phase i (id ∷ ids) l w) good
              bad)
          (sym (ok-injective h)) split)
        (λ g b more. round-Accounted step w template read (suc i) ids rs g b k more)
        (λ m. record {
          template = template;
          read = read;
          request = r;
          sent = e;
          place = i;
          time = w;
          later = same;
          matched = m;
        })

  All-elem :
      (P : String → Type 0) (id : String) (ids : List String)
      → All P ids
      → elem id ids ≡ true
      → P id
  All-elem P id [] h k = absurd cc
  All-elem P id (x ∷ ids) h k = elim (Bool-cases (x == id)) [
    | inl e ↦ subst P (((string_eq).beq_iff x id).0 e) h.0
    | inr n ↦ All-elem P id ids h.1 (ground (arith, k, n))
  ]

  -- What a further round from a later world does for the ids that are left over.
  Accounted-later :
      (step : Fields F) (w v : W) (bad rest : List String)
      → ((u : W) → Follows v u → Follows w u)
      → All (Accounted step v rest) bad
      → (id : String) → Accounted step w bad id
      → Accounted step w rest id
  Accounted-later step w v bad rest f more id (inr r) = inr r
  Accounted-later step w v bad rest f more id (inl h) =
      elim (All-elem (Accounted step v rest) id bad more h) [
        | inl k ↦ inl k
        | inr r ↦ inr (IsRecovered-before step w v f id r)
      ]

  replay_loop-Accounted :
      (fuel : ℕ) (step : Fields F) (deadline interval : F) (ids rest : List String) (w : W)
      → (replay_loop world base_url phase fuel step deadline interval ids w).0 ≡ left_over rest
      → All (Accounted step w rest) ids
  unfolding replay_loop
  replay_loop-Accounted fuel step deadline interval [] rest w h = tt
  replay_loop-Accounted zero step deadline interval (id ∷ ids) rest w h = absurd cc
  replay_loop-Accounted (suc fuel) step deadline interval (id ∷ ids) rest w h =
      elim (Result-cases (concurrent_batch world base_url phase step (id ∷ ids))) [
        | inl (e, fails) ↦ absurd (cc (rw (replay_loop, fails) at h))
        | inr (requests, sends) ↦
            let results = replies world base_url phase 0 (id ∷ ids) requests w in
            elim (Result-cases (split_results world base_url phase step results)) [
              | inl (e, fails) ↦ absurd (cc (rw (replay_loop, sends, fails) at h))
              | inr ((good, bad), splits) ↦
                  let (template, read, e) =
                    concurrent_batch-requests world base_url phase step (id ∷ ids) requests sends in
                  let now =
                    round-Accounted step w template read 0 (id ∷ ids) requests good bad e
                      (split_results-Split world base_url phase step results (good, bad) splits) in
                  elim (Bool-cases
                    (is_nil bad || is_past deadline (world.monotonic (world.served requests w)))) [
                      | inl ends ↦
                          subst (λ l. All (Accounted step w l) (id ∷ ids))
                            (left_over-injective (rw (replay_loop, sends, splits, ends) at h)) now
                      | inr goes ↦
                          let later =
                            world.slept interval (world.ticked (world.served requests w)) in
                          All-imp (Accounted step w bad) (Accounted step w rest)
                            (Accounted-later step w later bad rest
                              (λ u follows. served requests (ticked (slept interval follows)))
                              (replay_loop-Accounted fuel step deadline interval bad rest later
                                (rw (replay_loop, sends, splits, goes) at h)))
                            (id ∷ ids) now
                    ]
            ]
      ]

  replay_end-done :
      (step : Fields F) (r : Replayed)
      → is_done (replay_end world base_url phase step r) ≡ true
      → r ≡ left_over []
  replay_end-done step (left_over []) h = refl
  replay_end-done step (left_over (id ∷ ids)) h =
      let message = phase <> " could not recover controller-owned IDs: " <> join (id ∷ ids) in
      let f = failure-verdict step message in absurd cc
  replay_end-done step (broke e) h = absurd cc
  replay_end-done step spent h = absurd cc

  initial_delay-Follows :
      (step : Fields F) (w later : W)
      → initial_delay world base_url phase step w ≡ ok later
      → (u : W) → Follows later u
      → Follows w u
  unfolding initial_delay
  initial_delay-Follows step w later h u f =
      elim (Bool-cases (is_null (get "initial_delay_seconds" step))) [
        | inl nothing ↦
            let e : w ≡ later = ok-injective (rw (initial_delay, nothing) at h) in
            subst (λ v. Follows v u) (sym e) f
        | inr given ↦
            let (seconds, _, k) =
              >>=-eq-ok (number_value step "initial_delay_seconds" 1) _
                (rw (initial_delay, given) at h) in
            slept seconds (subst (λ v. Follows v u) (sym (ok-injective k)) f)
      ]

  nothing_left :
      (step : Fields F) (w later : W) (id : String)
      → initial_delay world base_url phase step w ≡ ok later
      → Accounted step (world.ticked later) [] id
      → IsRecovered step w id
  nothing_left step w later id sleeps (inl h) = absurd cc
  nothing_left step w later id sleeps (inr r) =
      IsRecovered-before step w (world.ticked later)
        (λ u f. initial_delay-Follows step w later sleeps u (ticked f)) id r

  replay_ids-IsRecovered :
      (fuel : ℕ) (step state : Fields F) (ids : List String) (w : W)
      → is_done (replay_ids world base_url phase fuel step state ids w).outcome ≡ true
      → All (IsRecovered step w) ids
  unfolding replay_ids
  replay_ids-IsRecovered fuel step state ids w h =
      elim (Result-cases (initial_delay world base_url phase step w)) [
        | inl (e, fails) ↦ absurd (cc (rw (replay_ids, fails) at h))
        | inr (later, sleeps) ↦ elim (Result-cases (replay_clock world base_url phase step later)) [
          | inl (e, fails) ↦ absurd (cc (rw (replay_ids, sleeps, fails) at h))
          | inr ((deadline, interval), times) ↦
              let ended = replay_end-done step _ (rw (replay_ids, sleeps, times) at h) in
              All-imp (Accounted step (world.ticked later) []) (IsRecovered step w)
                (λ id l. nothing_left step w later id sleeps l) ids
                (replay_loop-Accounted fuel step deadline interval ids [] (world.ticked later)
                  ended)
        ]
      ]

  -- A replay that returns has had, behind its start, a matching response for each of the ids that the
  -- state holds under `ids_from`.
  pub run_replay_http-IsRecovered :
      (fuel : ℕ) (step state : Fields F) (w : W)
      → (run_replay_http world base_url phase fuel step state w).outcome ≡ done
      → (key : String) × (ids : List String) × (string_value step "ids_from" none ≡ ok key)
        × (owned_ids (get key state) ≡ some ids)
        × All (IsRecovered step w) ids
  unfolding run_replay_http
  run_replay_http-IsRecovered fuel step state w h =
      elim (Result-cases (string_value step "ids_from" none)) [
        | inl (e, fails) ↦ absurd (cc (rw (run_replay_http, fails) at (ap is_done h)))
        | inr (key, named) ↦ elim (Option-cases (owned_ids (get key state))) [
          | inl nothing ↦
              let f =
                failure-verdict step
                  (phase <> " phase is missing controller-owned IDs in " <> key) in
              absurd (cc (rw (run_replay_http, named, nothing) at (ap is_done h)))
          | inr (ids, owned) ↦ (
            key,
            ids,
            named,
            owned,
            replay_ids-IsRecovered fuel step state ids w
                (rw (run_replay_http, named, owned) at (ap is_done h)),
          )
        ]
      ]
