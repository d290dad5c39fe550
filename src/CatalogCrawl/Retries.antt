-- ===== src/CatalogCrawl/Retries.antt =====
-- The passes of `crawl_index` treat each provider on its own: it is walked again until it answers.
use ps4_uk_stream.Prelude.{
  ◌+◌, ℕ, zero, suc, max, String, ◌≡◌, refl, sym, ap, ◌∙◌, inl, inr, Bool, true, false, ◌&&◌,
  Option, none, some, List, [], ◌∷◌, map, arith, if◌then◌else◌, Bool-cases, ◌==◌, ==_iff, ==_refl,
  nat_eq, string_eq, keep,
}
use ps4_uk_stream.Prelude.Dict
use ps4_uk_stream.Prelude.Dict.{Dict}
use ps4_uk_stream.Prelude.Membership.{contains}
use ps4_uk_stream.Models.{Section}
use ps4_uk_stream.CatalogCrawl.{
  if_asked, crawl_known, World, ProviderCrawlStats, crawl_provider, to_retry, retry, stat_or,
  passes, crawl_index,
}

module _ (world : World) (page_limit : ℕ) where
  -- What stands for a provider in the end, if so many passes are left and `attempts` walks are done: the
  -- walk at hand, unless it is to be retried, and then what the next walk leads to.
  unfoldable pub settled : ℕ → ℕ → ProviderCrawlStats → ProviderCrawlStats
  unfolding crawl_provider
  settled zero attempts stat = stat
  settled (suc left) attempts stat =
      let again =
        settled left (attempts + 1)
          (crawl_provider world page_limit stat.provider (attempts + 1)) in
      if to_retry world page_limit stat then again else stat

  provider-crawl_known :
      (p : String) (attempts : ℕ) (known : Option (List Section))
      → (crawl_known world page_limit p attempts known).provider ≡ p
  unfolding crawl_known
  provider-crawl_known p attempts none = refl
  provider-crawl_known p attempts (some []) = refl
  provider-crawl_known p attempts (some (s ∷ ss)) = refl

  provider-crawl_provider :
      (p : String) (attempts : ℕ) → (crawl_provider world page_limit p attempts).provider ≡ p
  unfolding crawl_provider
  provider-crawl_provider p attempts = provider-crawl_known p attempts (world.sections_of p)

  get-retry :
      (attempts : ℕ) (p : String) (ids : List String)
      → Dict.get p (retry world page_limit attempts ids)
        ≡ (if contains p ids then some (crawl_provider world page_limit p attempts) else none)
  unfolding retry contains Dict.get
  get-retry attempts p [] = refl
  get-retry attempts p (q ∷ ids) = elim (Bool-cases (q == p)) [
    | inl hit ↦
        rw hit (ap (λ r. some (crawl_provider world page_limit r attempts)) ((==_iff q p).0 hit))
    | inr miss ↦ rw miss (get-retry attempts p ids)
  ]

  abbrev Names : (String → ProviderCrawlStats) → Type 0
  Names stat_of = (p : String) → (stat_of p).provider ≡ p

  -- The ids that a pass asks again
  abbrev asked : (String → ProviderCrawlStats) → List String → List String
  asked stat_of ids =
      map (λ stat. stat.provider) (keep (to_retry world page_limit) (map stat_of ids))

  contains-asked :
      (stat_of : String → ProviderCrawlStats) (p : String) (ids : List String)
      → Names stat_of
      → contains p (asked stat_of ids) ≡ (contains p ids && to_retry world page_limit (stat_of p))
  unfolding contains
  contains-asked stat_of p [] n = refl
  contains-asked stat_of p (q ∷ ids) n = elim (Bool-cases (to_retry world page_limit (stat_of q))) [
    | inl again ↦ rw again (
        rw (n q) (elim (Bool-cases (q == p)) [
          | inl hit ↦
              let same : to_retry world page_limit (stat_of p) ≡ true =
                rw ((==_iff q p).0 hit) at again in
              rw (hit, same) refl
          | inr miss ↦ rw miss (contains-asked stat_of p ids n)
        ]))
    | inr settled_now ↦ rw settled_now (elim (Bool-cases (q == p)) [
      | inl hit ↦
          let same : to_retry world page_limit (stat_of p) ≡ false =
            rw ((==_iff q p).0 hit) at settled_now in
          rw (hit, same) (contains-asked stat_of p ids n ∙ rw same (and_false (contains p ids)))
      | inr miss ↦ rw miss (contains-asked stat_of p ids n)
    ])
  ]
    where
      and_false : (b : Bool) → (b && false) ≡ false
      and_false true = refl
      and_false false = refl

  map_ext :
      (f g : String → ProviderCrawlStats) (ids : List String)
      → ((p : String) → contains p ids ≡ true → f p ≡ g p)
      → map f ids ≡ map g ids
  unfolding contains
  map_ext f g [] h = refl
  map_ext f g (p ∷ ids) h =
      let first : f p ≡ g p = h p (rw (==_refl p) refl) in
      let rest : map f ids ≡ map g ids = map_ext f g ids (λ q m.
        h q (elim (Bool-cases (p == q)) [ inl hit ↦ rw hit refl | inr miss ↦ rw miss m ])) in
      cc (first, rest)

  -- What a pass makes of a provider's stats
  abbrev after_pass : ℕ → List String → (String → ProviderCrawlStats) → String → ProviderCrawlStats
  after_pass attempts ids stat_of p =
      if contains p (asked stat_of ids)
      then crawl_provider world page_limit p attempts
      else stat_of p

  after_pass-Names :
      (attempts : ℕ) (ids : List String) (stat_of : String → ProviderCrawlStats)
      → Names stat_of
      → Names (after_pass attempts ids stat_of)
  after_pass-Names attempts ids stat_of n p = elim (Bool-cases (contains p (asked stat_of ids))) [
    | inl again ↦ rw again (provider-crawl_provider p attempts)
    | inr kept ↦ rw kept (n p)
  ]

  pass_lem :
      (attempts : ℕ) (ids rest : List String) (stat_of : String → ProviderCrawlStats)
      → Names stat_of
      → map
          (λ stat.
            stat_or world page_limit stat
              (Dict.get stat.provider (retry world page_limit attempts (asked stat_of ids))))
          (map stat_of rest)
        ≡ map (after_pass attempts ids stat_of) rest
  pass_lem attempts ids [] stat_of n = refl
  pass_lem attempts ids (p ∷ rest) stat_of n =
      let first : stat_or world page_limit (stat_of p)
            (Dict.get (stat_of p).provider (retry world page_limit attempts (asked stat_of ids)))
          ≡ after_pass attempts ids stat_of p =
        ap
          (λ q.
            stat_or world page_limit (stat_of p)
              (Dict.get q (retry world page_limit attempts (asked stat_of ids))))
          (n p)
        ∙ ap (stat_or world page_limit (stat_of p)) (get-retry attempts p (asked stat_of ids))
        ∙ split_or (contains p (asked stat_of ids)) (stat_of p)
            (crawl_provider world page_limit p attempts) in
      cc (first, pass_lem attempts ids rest stat_of n)
    where
      split_or :
          (b : Bool) (stat again : ProviderCrawlStats)
          → stat_or world page_limit stat (if b then some again else none)
            ≡ (if b then again else stat)
      split_or true stat again = refl
      split_or false stat again = refl

  none_asked :
      (stat_of : String → ProviderCrawlStats) (ids : List String)
      → asked stat_of ids ≡ []
      → Names stat_of
      → (p : String) → contains p ids ≡ true
      → to_retry world page_limit (stat_of p) ≡ false
  none_asked stat_of ids e n p m =
      let no_one : contains p (asked stat_of ids) ≡ false = rw e (unfold contains in refl) in
      ground (arith, contains-asked stat_of p ids n, no_one)

  settled_stays :
      (left attempts : ℕ) (stat : ProviderCrawlStats)
      → to_retry world page_limit stat ≡ false
      → settled left attempts stat ≡ stat
  unfolding settled
  settled_stays zero attempts stat h = refl
  settled_stays (suc left) attempts stat h = rw h refl

  settled_step :
      (left attempts : ℕ) (ids : List String) (stat_of : String → ProviderCrawlStats)
      → Names stat_of
      → (p : String) → contains p ids ≡ true
      → settled left (attempts + 1) (after_pass (attempts + 1) ids stat_of p)
        ≡ settled (suc left) attempts (stat_of p)
  unfolding settled
  settled_step left attempts ids stat_of n p m =
      elim (Bool-cases (to_retry world page_limit (stat_of p))) [
        | inl again ↦
            let named : contains p (asked stat_of ids) ≡ true =
              contains-asked stat_of p ids n ∙ rw (m, again) refl in
            rw (named, again)
              (ap
                (λ q.
                  settled left (attempts + 1) (crawl_provider world page_limit q (attempts + 1)))
                (sym (n p)))
        | inr done ↦
            let unnamed : contains p (asked stat_of ids) ≡ false =
              contains-asked stat_of p ids n ∙ rw (m, done) refl in
            rw (unnamed, done) (settled_stays left (attempts + 1) (stat_of p) done)
      ]

  -- What a pass leads to, by whether it asks anyone
  asked_or_not :
      (left attempts : ℕ) (ids : List String) (stat_of : String → ProviderCrawlStats)
      → Names stat_of
      → passes world page_limit left
          (attempts + 1)
          (map (after_pass (attempts + 1) ids stat_of) ids)
        ≡ map (λ p. settled left (attempts + 1) (after_pass (attempts + 1) ids stat_of p)) ids
      → (retry_ids : List String) → asked stat_of ids ≡ retry_ids
      → if_asked world page_limit retry_ids
          (passes world page_limit left (attempts + 1) (
            map
              (λ stat. stat_or world page_limit stat (
                Dict.get stat.provider (retry world page_limit (attempts + 1) (asked stat_of ids))))
              (map stat_of ids)))
          (map stat_of ids)
        ≡ map (λ p. settled (suc left) attempts (stat_of p)) ids
  asked_or_not left attempts ids stat_of n ih [] e =
      map_ext stat_of (λ p. settled (suc left) attempts (stat_of p)) ids
        (λ p m.
          sym (settled_stays (suc left) attempts (stat_of p) (none_asked stat_of ids e n p m)))
  asked_or_not left attempts ids stat_of n ih (i ∷ is) e =
      ap (passes world page_limit left (attempts + 1)) (pass_lem (attempts + 1) ids ids stat_of n)
      ∙ ih
      ∙ map_ext (λ p. settled left (attempts + 1) (after_pass (attempts + 1) ids stat_of p))
          (λ p. settled (suc left) attempts (stat_of p)) ids
          (settled_step left attempts ids stat_of n)

  passes_step :
      (left attempts : ℕ) (ids : List String) (stat_of : String → ProviderCrawlStats)
      → Names stat_of
      → passes world page_limit left
          (attempts + 1)
          (map (after_pass (attempts + 1) ids stat_of) ids)
        ≡ map (λ p. settled left (attempts + 1) (after_pass (attempts + 1) ids stat_of p)) ids
      → passes world page_limit (suc left) attempts (map stat_of ids)
        ≡ map (λ p. settled (suc left) attempts (stat_of p)) ids
  unfolding passes
  passes_step left attempts ids stat_of n ih =
      asked_or_not left attempts ids stat_of n ih (asked stat_of ids) refl

  passes-settled :
      (left attempts : ℕ) (ids : List String) (stat_of : String → ProviderCrawlStats)
      → Names stat_of
      → passes world page_limit left attempts (map stat_of ids)
        ≡ map (λ p. settled left attempts (stat_of p)) ids
  passes-settled zero attempts ids stat_of n = unfold passes settled in refl
  passes-settled (suc left) attempts ids stat_of n = passes_step left attempts ids stat_of n (
      passes-settled left (attempts + 1) ids (after_pass (attempts + 1) ids stat_of)
        (after_pass-Names (attempts + 1) ids stat_of n))

-- A crawl answers, for each provider id in order, what becomes of it alone: the stats of its first walk,
-- unless that fetched no page of the sections it has; then those of the next walk, up to `retry_passes`
-- more. So no provider that answered is walked again, and an outage of one changes no other's stats.
pub crawl_index-settled :
    (world : World) (provider_ids : List String) (pages retry_passes : ℕ)
    → (crawl_index world provider_ids pages retry_passes).providers
      ≡ map
          (λ p. settled world (max 1 pages) retry_passes 1 (crawl_provider world (max 1 pages) p 1))
          provider_ids
unfolding crawl_index
crawl_index-settled world provider_ids pages retry_passes =
    passes-settled world (max 1 pages) retry_passes 1 provider_ids
      (λ p. crawl_provider world (max 1 pages) p 1)
      (λ p. provider-crawl_provider world (max 1 pages) p 1)
