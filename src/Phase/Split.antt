-- ===== src/Phase/Split.antt =====
-- The split of the results of concurrent requests in scenario_phase.py into ids with and without a
-- match, and the requests of a batch.
use replaybook.Prelude.{
  ℕ, suc, ◌≡◌, refl, ap, subst, inl, inr, String, true, false, not, none, some, List, [], ◌∷◌, map,
  length, arith, Bool-cases,
}
use replaybook.Prelude.Int.{is_positive}
use replaybook.Prelude.Interleave.{Interleave, done, left, right}
use replaybook.Prelude.Result.{
  Result, ok, ◌>>=◌, >>=-eq-ok, ok-injective, raise_if-ok, map_result, length-map_result,
}
use replaybook.Json.{Fields}
use replaybook.Json.Floats.{Floats}
use replaybook.Phase.{Response, Request, World}
use replaybook.Phase.Values.{string_value, integer_value, format_value, matches}
use replaybook.Phase.Steps.{
  default_concurrency, request_of, concurrent_batch, replies, split_results,
}

module _ {F W : Type 0} ⦃fl : Floats F⦄ (world : World F W) (base_url phase : String) where
  -- Each result is a hit, whose response matches, or a miss, whose response does not.
  pub data Split (step : Fields F)
      : List (String × Response) → List String → List String → Type 0 where
    none_left : Split step [] [] []
    hit :
        {results : List (String × Response)} {good bad : List String} {id : String}
        {response : Response}
        → matches response step ≡ ok true
        → Split step results good bad
        → Split step ((id, response) ∷ results) (id ∷ good) bad
    miss :
        {results : List (String × Response)} {good bad : List String} {id : String}
        {response : Response}
        → matches response step ≡ ok false
        → Split step results good bad
        → Split step ((id, response) ∷ results) good (id ∷ bad)

  pub split_results-Split :
      (step : Fields F) (results : List (String × Response)) (parts : List String × List String)
      → split_results world base_url phase step results ≡ ok parts
      → Split step results parts.0 parts.1
  unfolding split_results
  split_results-Split step [] parts h =
      subst (λ p. Split step [] p.0 p.1) (ok-injective h) none_left
  split_results-Split step ((id, response) ∷ results) parts h =
      let (matched, e, h) = >>=-eq-ok (matches response step) _ h in
      let (rest, k, h) = >>=-eq-ok (split_results world base_url phase step results) _ h in
      let more = split_results-Split step results rest k in
      subst (λ p. Split step ((id, response) ∷ results) p.0 p.1) (ok-injective h)
        (elim (Bool-cases matched) [
          | inl good ↦ rw good (hit (subst (λ b. matches response step ≡ ok b) good e) more)
          | inr bad ↦ rw bad (miss (subst (λ b. matches response step ≡ ok b) bad e) more)
        ])

  pub Split-Interleave :
      {step : Fields F} {results : List (String × Response)} {good bad : List String}
      → Split step results good bad
      → Interleave good bad (map (λ p. p.0) results)
  Split-Interleave none_left = done
  Split-Interleave (hit {id = id} e rest) = left id (Split-Interleave rest)
  Split-Interleave (miss {id = id} e rest) = right id (Split-Interleave rest)

  -- The replies stand for the ids, in order.
  pub replies-ids :
      (i : ℕ) (ids : List String) (requests : List (Request F)) (w : W)
      → length requests ≡ length ids
      → map (λ p. p.0) (replies world base_url phase i ids requests w) ≡ ids
  unfolding replies
  replies-ids i [] requests w h = refl
  replies-ids i (id ∷ ids) [] w h = absurd (omega (arith, h))
  replies-ids i (id ∷ ids) (r ∷ requests) w h =
      ap (λ l. id ∷ l) (replies-ids (suc i) ids requests w (omega (arith, h)))

  -- The request for an id, from the template of its path.
  abbrev pub id_request : Fields F → String → String → Result (Request F)
  id_request step template id =
      format_value template phase id >>= λ path. request_of world base_url phase step path

  pub concurrent_batch-requests :
      (step : Fields F) (ids : List String) (requests : List (Request F))
      → concurrent_batch world base_url phase step ids ≡ ok requests
      → (template : String) × (string_value step "path" none ≡ ok template)
        × (map_result (id_request step template) ids ≡ ok requests)
  unfolding concurrent_batch
  concurrent_batch-requests step ids requests h =
      let (template, e, h) = >>=-eq-ok (string_value step "path" none) _ h in
      let (concurrency, _, h) =
        >>=-eq-ok (integer_value step "concurrency" (some (default_concurrency ids))) _ h in
      let (_, h) = (raise_if-ok (not (is_positive concurrency)) _ _).0 h in (template, e, h)

  pub length-concurrent_batch :
      (step : Fields F) (ids : List String) (requests : List (Request F))
      → concurrent_batch world base_url phase step ids ≡ ok requests
      → length requests ≡ length ids
  length-concurrent_batch step ids requests h =
      let (template, _, e) = concurrent_batch-requests step ids requests h in
      length-map_result (id_request step template) ids requests e
