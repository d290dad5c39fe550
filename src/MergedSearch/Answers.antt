-- ===== src/MergedSearch/Answers.antt =====
-- What the response of a search is, as a function of how each provider's task ended.
use ps4_uk_stream.Prelude.{
  ◌↔◌, ℕ, String, ◌≡◌, refl, sym, ap, ◌∙◌, inl, inr, Bool, true, false, Option, none, some, List,
  [], ◌∷◌, ◌++◌, is_some, any, Bool-cases, nat_eq, string_eq,
}
use ps4_uk_stream.Prelude.Dict
use ps4_uk_stream.Prelude.Dict.{Dict, DistinctKeys}
use ps4_uk_stream.Prelude.Membership.{contains}
use ps4_uk_stream.Health.{HealthTracker}
use ps4_uk_stream.Models.{MediaForm, MediaStyle, SearchResult}
use ps4_uk_stream.Merge.{TitleRules}
use ps4_uk_stream.MergedSearch.{
  Provider, ProviderFailure, SearchResponse, Ended, Collected, collect_done, collect_pending, sweep,
  emit_failures, as_list, all_timed_out, respond,
}
use ps4_uk_stream.MergedSearch.Order.{
  failure_of, cut_off, Same, results-collect_done, failures-collect_done, results-collect_pending,
  failures-collect_pending, sweep-Same, emit_results-Same, emit_failures-Same, all_timed_out-Same,
  result_of,
}

-- What the loops over `done` and `pending` leave of a new tracker
abbrev pub collected : ℕ → HealthTracker → List (String × Ended) → List String → Collected
collected now tracker done pending =
    collect_pending now pending
      (collect_done now done (record { results = []; failures = []; tracker = tracker }))

-- The failure of a provider by how its task ended
abbrev pub expected_failure :
    List (String × Ended) → List String → Provider → Option ProviderFailure
expected_failure done pending prov =
    cut_off prov.id (contains prov.id pending) (failure_of prov.id (Dict.get prov.id done) none)

abbrev pub expected_failures :
    List (String × Ended) → List String → List Provider → List ProviderFailure
expected_failures done pending [] = []
expected_failures done pending (prov ∷ providers) =
    as_list (expected_failure done pending prov) ++ expected_failures done pending providers

failures_collected :
    (now : ℕ) (tracker : HealthTracker) (done : List (String × Ended)) (pending : List String)
    (p : String)
    → DistinctKeys done
    → Dict.get p (collected now tracker done pending).failures
      ≡ cut_off p (contains p pending) (failure_of p (Dict.get p done) none)
failures_collected now tracker done pending p h =
    let c : Collected = record { results = []; failures = []; tracker = tracker } in
    failures-collect_pending now p pending (collect_done now done c)
    ∙ ap (cut_off p (contains p pending))
        (failures-collect_done now p done c h ∙ unfold Dict.get in refl)

results_collected :
    (now : ℕ) (tracker : HealthTracker) (done : List (String × Ended)) (pending : List String)
    (p : String)
    → DistinctKeys done
    → Dict.get p (collected now tracker done pending).results ≡ result_of (Dict.get p done) none
results_collected now tracker done pending p h =
    let c : Collected = record { results = []; failures = []; tracker = tracker } in
    ap (Dict.get p) (results-collect_pending now pending (collect_done now done c))
    ∙ results-collect_done now p done c h
    ∙ unfold Dict.get in refl

emitted :
    (now : ℕ) (tracker : HealthTracker) (done : List (String × Ended)) (pending : List String)
    (providers : List Provider)
    → DistinctKeys done
    → emit_failures providers (collected now tracker done pending).failures
      ≡ expected_failures done pending providers
unfolding emit_failures
emitted now tracker done pending [] h = refl
emitted now tracker done pending (prov ∷ providers) h =
    rw (failures_collected now tracker done pending prov.id h) (
      ap (λ xs. as_list (expected_failure done pending prov) ++ xs)
        (emitted now tracker done pending providers h))

module _ (rules : TitleRules) (providers : List Provider)
    (gate : String → List SearchResult → Option (List SearchResult)) (q : String)
    (form : Option MediaForm) (style_filter : Option (List MediaStyle)) (now : ℕ)
    (tracker : HealthTracker) where
  abbrev pub response_to : List (String × Ended) → List String → Option SearchResponse
  response_to done pending =
      respond rules providers gate q form style_filter done (collected now tracker done pending)

  -- Two fan-outs, each with at most one finished task of a provider, in which each provider's task ended
  -- alike get the same response, in whatever order the finished and the cut off ones are walked.
  pub respond-order :
      (done done' : List (String × Ended)) (pending pending' : List String)
      → DistinctKeys done
      → DistinctKeys done'
      → Same done done'
      → ((p : String) → contains p pending ≡ contains p pending')
      → response_to done pending ≡ response_to done' pending'
  unfolding respond
  respond-order done done' pending pending' h h' same cut =
      let c = collected now tracker done pending in
      let c' = collected now tracker done' pending' in
      let failed : Same c.failures c'.failures = λ p.
        failures_collected now tracker done pending p h
        ∙ rw (same p, cut p) (sym (failures_collected now tracker done' pending' p h')) in
      let listed : Same c.results c'.results = λ p.
        results_collected now tracker done pending p h
        ∙ rw (same p) (sym (results_collected now tracker done' pending' p h')) in
      rw
        (
          emit_failures-Same providers c.failures c'.failures failed,
          emit_results-Same providers (sweep gate providers c.results)
              (sweep gate providers c'.results)
              (sweep-Same gate providers c.results c'.results listed),
          all_timed_out-Same done done' (emit_failures providers c'.failures) same,
        )
        refl

  -- With at most one finished task of a provider, a response names the failures of the registered
  -- providers in the order of the registry: a finished task's own, and `timeout` for each task that the
  -- budget cut off.
  pub respond-failures :
      (done : List (String × Ended)) (pending : List String) (resp : SearchResponse)
      → DistinctKeys done
      → response_to done pending ≡ some resp
      → resp.failures ≡ expected_failures done pending providers
  unfolding respond
  respond-failures done pending resp h e =
      let c = collected now tracker done pending in
      let failures = emit_failures providers c.failures in
      elim (Bool-cases (all_timed_out done failures)) [
        | inl dead ↦ absurd (cc (rw dead at e))
        | inr alive ↦
            let made = rw alive at e in cc (made, emitted now tracker done pending providers h)
      ]

  cut_off-some : (p : String) (b : Bool) → is_some (cut_off p b none) ≡ b
  cut_off-some p true = refl
  cut_off-some p false = refl

  any_expected :
      (pending : List String) (ps : List Provider)
      → all_timed_out [] (expected_failures [] pending ps)
        ≡ any (λ prov. contains prov.id pending) ps
  unfolding Dict.get
  any_expected pending [] = refl
  any_expected pending (prov ∷ ps) = elim (Bool-cases (contains prov.id pending)) [
    | inl cut ↦ rw cut refl
    | inr not_cut ↦ rw not_cut (any_expected pending ps)
  ]

  -- With at most one finished task of a provider, the 502 leaves exactly if no task finished and that of
  -- a registered provider was cut off.
  pub respond-none_iff :
      (done : List (String × Ended)) (pending : List String)
      → DistinctKeys done
      → (response_to done pending ≡ none)
        ↔ ((done ≡ []) × (any (λ prov. contains prov.id pending) providers ≡ true))
  unfolding respond
  respond-none_iff [] pending h =
      let dead =
        ap (all_timed_out []) (emitted now tracker [] pending providers h)
        ∙ any_expected pending providers in
      elim (Bool-cases (any (λ prov. contains prov.id pending) providers)) [
        | inl cut ↦ (λ e. (refl, cut), λ p. rw (dead, cut) refl)
        | inr none_cut ↦
            (λ e. absurd (cc (rw (dead, none_cut) at e)), λ p. absurd (cc (none_cut, p.1)))
      ]
  respond-none_iff (d ∷ done) pending h = (λ e. absurd (cc e), λ p. absurd (cc (p.0)))
