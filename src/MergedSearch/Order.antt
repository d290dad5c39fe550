-- ===== src/MergedSearch/Order.antt =====
-- The response does not depend on the order in which the providers' tasks end.
use ps4_uk_stream.Prelude.{
  ℕ, String, ◌≡◌, refl, sym, ap, ◌∙◌, inl, inr, Bool, true, false, Option, none, some, List, [],
  ◌∷◌, ◌++◌, arith, if◌then◌else◌, Bool-cases, Option-cases, ◌==◌, ==_iff, ==_refl, nat_eq,
  string_eq,
}
use ps4_uk_stream.Prelude.Dict
use ps4_uk_stream.Prelude.Dict.{Dict, DistinctKeys, get-put}
use ps4_uk_stream.Prelude.Membership.{contains}
use ps4_uk_stream.Models.{SearchResult}
use ps4_uk_stream.MergedSearch.{
  Provider, ProviderFailure, Ended, Collected, failure, collect_one, collect_done, collect_pending,
  gate_one, sweep, emit_results, emit_failures, or_none, as_list, all_timed_out, found, timed_out,
  unreachable, escaped, cancelled,
}

-- What a provider's task leaves of results and of a failure
abbrev pub result_of : Option Ended → Option (List SearchResult) → Option (List SearchResult)
result_of none o = o
result_of (some (found results)) o = some results
result_of (some timed_out) o = o
result_of (some unreachable) o = o
result_of (some escaped) o = o
result_of (some cancelled) o = o

abbrev pub failure_of : String → Option Ended → Option ProviderFailure → Option ProviderFailure
failure_of p none o = o
failure_of p (some (found results)) o = o
failure_of p (some timed_out) o = some (failure p "timeout")
failure_of p (some unreachable) o = some (failure p "upstream_unreachable")
failure_of p (some escaped) o = some (failure p "internal")
failure_of p (some cancelled) o = o

abbrev at_one : String → String → Ended → Option Ended
at_one p pid ended = if pid == p then some ended else none

results-collect_one :
    (now : ℕ) (p pid : String) (ended : Ended) (c : Collected)
    → Dict.get p (collect_one now pid ended c).results
      ≡ result_of (at_one p pid ended) (Dict.get p c.results)
unfolding collect_one
results-collect_one now p pid (found results) c = get-put pid p results c.results ∙ ground arith
results-collect_one now p pid timed_out c = ground arith
results-collect_one now p pid unreachable c = ground arith
results-collect_one now p pid escaped c = ground arith
results-collect_one now p pid cancelled c = ground arith

failures-collect_one :
    (now : ℕ) (p pid : String) (ended : Ended) (c : Collected)
    → Dict.get p (collect_one now pid ended c).failures
      ≡ failure_of p (at_one p pid ended) (Dict.get p c.failures)
unfolding collect_one
failures-collect_one now p pid (found results) c = ground arith
failures-collect_one now p pid timed_out c =
    get-put pid p (failure pid "timeout") c.failures ∙ ground (arith, ==_iff pid p)
failures-collect_one now p pid unreachable c =
    get-put pid p (failure pid "upstream_unreachable") c.failures ∙ ground (arith, ==_iff pid p)
failures-collect_one now p pid escaped c =
    get-put pid p (failure pid "internal") c.failures ∙ ground (arith, ==_iff pid p)
failures-collect_one now p pid cancelled c = ground arith

pub results-collect_done :
    (now : ℕ) (p : String) (done : List (String × Ended)) (c : Collected)
    → DistinctKeys done
    → Dict.get p (collect_done now done c).results
      ≡ result_of (Dict.get p done) (Dict.get p c.results)
unfolding collect_done Dict.get
results-collect_done now p [] c h = refl
results-collect_done now p ((pid, ended) ∷ done) c h =
    results-collect_done now p done (collect_one now pid ended c) h.1
    ∙ ap (result_of (Dict.get p done)) (results-collect_one now p pid ended c)
    ∙ elim (Bool-cases (pid == p)) [
      | inl hit ↦
          let gone : Dict.get p done ≡ none = rw ((==_iff pid p).0 hit) at (h.0) in
          rw (hit, gone) refl
      | inr miss ↦ rw miss refl
    ]

pub failures-collect_done :
    (now : ℕ) (p : String) (done : List (String × Ended)) (c : Collected)
    → DistinctKeys done
    → Dict.get p (collect_done now done c).failures
      ≡ failure_of p (Dict.get p done) (Dict.get p c.failures)
unfolding collect_done Dict.get
failures-collect_done now p [] c h = refl
failures-collect_done now p ((pid, ended) ∷ done) c h =
    failures-collect_done now p done (collect_one now pid ended c) h.1
    ∙ ap (failure_of p (Dict.get p done)) (failures-collect_one now p pid ended c)
    ∙ elim (Bool-cases (pid == p)) [
      | inl hit ↦
          let gone : Dict.get p done ≡ none = rw ((==_iff pid p).0 hit) at (h.0) in
          rw (hit, gone) refl
      | inr miss ↦ rw miss refl
    ]

pub results-collect_pending :
    (now : ℕ) (pending : List String) (c : Collected)
    → (collect_pending now pending c).results ≡ c.results
unfolding collect_pending
results-collect_pending now [] c = refl
results-collect_pending now (pid ∷ pending) c = results-collect_pending now pending _

-- A failure of the whole budget, where the task was still pending
abbrev pub cut_off : String → Bool → Option ProviderFailure → Option ProviderFailure
cut_off p true o = some (failure p "timeout")
cut_off p false o = o

pub failures-collect_pending :
    (now : ℕ) (p : String) (pending : List String) (c : Collected)
    → Dict.get p (collect_pending now pending c).failures
      ≡ cut_off p (contains p pending) (Dict.get p c.failures)
unfolding collect_pending contains
failures-collect_pending now p [] c = refl
failures-collect_pending now p (pid ∷ pending) c =
    failures-collect_pending now p pending _
    ∙ ap (cut_off p (contains p pending)) (get-put pid p (failure pid "timeout") c.failures)
    ∙ ground (arith, ==_iff pid p)

-- Two dicts that answer alike
abbrev pub Same {ℓ} : {V : Type ℓ} → Dict String V → Dict String V → Type ℓ
Same a b = (p : String) → Dict.get p a ≡ Dict.get p b

put-Same {ℓ} :
    {V : Type ℓ} (k : String) (v : V) (a b : Dict String V)
    → Same a b
    → Same (Dict.put k v a) (Dict.put k v b)
put-Same k v a b h p = get-put k p v a ∙ rw (h p) (sym (get-put k p v b))

module _ (gate : String → List SearchResult → Option (List SearchResult)) where
  gate_one-Same :
      (pid : String) (o : Option (List SearchResult)) (a b : Dict String (List SearchResult))
      → Same a b
      → Same (gate_one gate pid o a) (gate_one gate pid o b)
  gate_one-Same pid none a b h = h
  gate_one-Same pid (some items) a b h = elim (Option-cases (gate pid items)) [
    | inl late ↦ rw late h
    | inr (checked, in_time) ↦ rw in_time (put-Same pid checked a b h)
  ]

  pub sweep-Same :
      (providers : List Provider) (a b : Dict String (List SearchResult))
      → Same a b
      → Same (sweep gate providers a) (sweep gate providers b)
  unfolding sweep
  sweep-Same [] a b h = h
  sweep-Same (prov ∷ providers) a b h = elim (Bool-cases prov.can_gate) [
    | inl can ↦ rw can (
        sweep-Same providers (gate_one gate prov.id (Dict.get prov.id a) a)
          (gate_one gate prov.id (Dict.get prov.id b) b)
          (rw (h prov.id) (gate_one-Same prov.id (Dict.get prov.id b) a b h)))
    | inr cannot ↦ rw cannot (sweep-Same providers a b h)
  ]

pub emit_results-Same :
    (providers : List Provider) (a b : Dict String (List SearchResult))
    → Same a b
    → emit_results providers a ≡ emit_results providers b
unfolding emit_results
emit_results-Same [] a b h = refl
emit_results-Same (prov ∷ providers) a b h =
    rw (h prov.id)
      (ap (λ xs. or_none (Dict.get prov.id b) ++ xs) (emit_results-Same providers a b h))

pub emit_failures-Same :
    (providers : List Provider) (a b : Dict String ProviderFailure)
    → Same a b
    → emit_failures providers a ≡ emit_failures providers b
unfolding emit_failures
emit_failures-Same [] a b h = refl
emit_failures-Same (prov ∷ providers) a b h =
    rw (h prov.id)
      (ap (λ xs. as_list (Dict.get prov.id b) ++ xs) (emit_failures-Same providers a b h))

pub all_timed_out-Same :
    (a b : List (String × Ended)) (failures : List ProviderFailure)
    → Same a b
    → all_timed_out a failures ≡ all_timed_out b failures
unfolding Dict.get
all_timed_out-Same [] [] failures h = refl
all_timed_out-Same [] ((p, e) ∷ b) failures h = absurd (cc (h p, ==_refl p))
all_timed_out-Same ((p, e) ∷ a) [] failures h = absurd (cc (h p, ==_refl p))
all_timed_out-Same ((p, e) ∷ a) ((q, f) ∷ b) failures h = refl
