-- ===== src/CatalogCrawl.antt =====
-- backend/cs_uk_api/catalog_index.py: the crawler, `_crawl_provider` and `crawl_index`, and the batches of
-- rows that `CatalogIndex.upsert` writes. What a provider answers for a page, and whether SQLite takes a
-- batch, are arguments, told by the pass of the crawl, the provider, the section and the page. The pauses
-- and the texts of errors are left out.
pub mod Walks
pub mod Retries
use ps4_uk_stream.Prelude.{
  ◌+◌, ℕ, zero, suc, max, String, Bool, true, false, not, ◌&&◌, ◌||◌, Option, none, some, List, [],
  ◌∷◌, ◌++◌, map, ltb, if◌then◌else◌, nat_eq, string_eq, keep, length, ◌==◌,
}
use ps4_uk_stream.Prelude.Dict
use ps4_uk_stream.Prelude.Dict.{Dict}
use ps4_uk_stream.Prelude.Texts.{join}
use ps4_uk_stream.Models.{SearchResult, Section}
use ps4_uk_stream.Filters.{section_matches}

-- What `provider.browse` does: it raises, or answers items and whether there is a next page.
pub data Page : Type 0 where
  failed : Page
  answered : List SearchResult → Bool → Page

-- What is told of one failure
pub data CrawlError : Type 0 where
  unknown_provider no_sections : CrawlError
  browse_error index_error : String → ℕ → CrawlError

pub record ProviderCrawlStats : Type 0 where
  pub provider : String
  pub sections : ℕ
  pub pages : ℕ
  pub seen : ℕ
  pub indexed : ℕ
  pub errors : List CrawlError
  pub attempts : ℕ

pub record CrawlStats : Type 0 where
  pub providers : List ProviderCrawlStats
  pub total_seen : ℕ
  pub total_indexed : ℕ

-- `provider.ok`
abbrev pub is_ok : ProviderCrawlStats → Bool
is_ok stat = ltb 0 stat.pages

unfoldable pub failed_providers : CrawlStats → List String
failed_providers stats =
    map (λ stat. stat.provider) (keep (λ stat. not (is_ok stat)) stats.providers)

-- `PROVIDER_RETRY_PASSES`
abbrev pub provider_retry_passes : ℕ
provider_retry_passes = 2

-- The local variables of a walk, with the batches that it wrote
pub record Walk : Type 0 where
  pub pages : ℕ
  pub seen : ℕ
  pub indexed : ℕ
  pub errors : List CrawlError
  pub written : List (Dict String SearchResult)

-- `title_norm`: the first alias, else the words of the title
abbrev pub norm_or : List String → List String → String
norm_or [] words = join " " words
norm_or (alias ∷ aliases) words = alias

module _ (title_aliases : String → List String) (title_words : String → List String) where
  -- `result.id` and `result.title` are there, and so is `title_norm`.
  abbrev pub is_indexable : SearchResult → Bool
  is_indexable result =
      not (result.id == "" || result.title == "")
      && not (norm_or (title_aliases result.title) (title_words result.title) == "")

  -- `rows`: one row for an id, made of the last result that has it
  unfoldable pub upsert_rows :
      Dict String SearchResult → List SearchResult → Dict String SearchResult
  upsert_rows rows [] = rows
  upsert_rows rows (result ∷ results) =
      upsert_rows (if is_indexable result then Dict.put result.id result rows else rows) results

  module _ (browse : String → ℕ → Page) (index_takes : String → ℕ → Bool) where
    -- `index.upsert(items, now=stamp)`: an empty batch writes nothing.
    unfoldable pub upsert_page :
        String → ℕ → List SearchResult → Dict String SearchResult → Walk → Walk × Bool
    upsert_page section_id page items [] w = (w, true)
    upsert_page section_id page items (row ∷ rows) w =
        if index_takes section_id page
        then (
          record w {
            indexed = w.indexed + length (row ∷ rows);
            written = w.written ++ (row ∷ rows) ∷ [];
          },
          true,
        )
        else (record w { errors = w.errors ++ index_error section_id page ∷ [] }, false)

    -- The items that match the section, counted and indexed
    unfoldable pub index_page : Section → ℕ → List SearchResult → Walk → Walk × Bool
    unfolding upsert_page upsert_rows
    index_page section page items w =
        let matching = keep (λ item. section_matches item section) items in
        upsert_page section.id page matching (upsert_rows [] matching)
          (record w { seen = w.seen + length matching })

    -- One page; the flag says whether the loop goes on.
    unfoldable pub visit : Section → ℕ → Page → Walk → Walk × Bool
    unfolding index_page
    visit section page failed w =
        (record w { errors = w.errors ++ browse_error section.id page ∷ [] }, false)
    visit section page (answered [] has_next) w = (record w { pages = w.pages + 1 }, false)
    visit section page (answered (item ∷ items) has_next) w =
        let (w', taken) =
          index_page section page (item ∷ items) (record w { pages = w.pages + 1 }) in
        (w', taken && has_next)

    -- `for page in range(1, page_limit + 1)`, from a page on
    unfoldable pub walk_pages : ℕ → ℕ → Section → Walk → Walk
    unfolding visit
    walk_pages zero page section w = w
    walk_pages (suc left) page section w =
        let (w', go_on) = visit section page (browse section.id page) w in
        let others = walk_pages left (page + 1) section w' in if go_on then others else w'

    unfoldable pub walk_sections : ℕ → List Section → Walk → Walk
    unfolding walk_pages
    walk_sections page_limit [] w = w
    walk_sections page_limit (section ∷ sections) w =
        walk_sections page_limit sections (walk_pages page_limit 1 section w)

abbrev pub new_walk : Walk
new_walk = record { pages = 0; seen = 0; indexed = 0; errors = []; written = [] }

abbrev pub no_walk : String → CrawlError → ℕ → ProviderCrawlStats
no_walk provider error attempts = record {
  provider = provider;
  sections = 0;
  pages = 0;
  seen = 0;
  indexed = 0;
  errors = error ∷ [];
  attempts = attempts;
}

abbrev pub stats_of_walk : String → ℕ → ℕ → Walk → ProviderCrawlStats
stats_of_walk provider sections attempts w = record {
  provider = provider;
  sections = sections;
  pages = w.pages;
  seen = w.seen;
  indexed = w.indexed;
  errors = w.errors;
  attempts = attempts;
}

-- What a crawl works with: the providers' sections, and what they and SQLite answer in each pass
pub record World : Type 0 where
  pub title_aliases : String → List String
  pub title_words : String → List String
  pub sections_of : String → Option (List Section)
  pub browse : ℕ → String → String → ℕ → Page
  pub index_takes : ℕ → String → String → ℕ → Bool

module _ (world : World) (page_limit : ℕ) where
  open world use {title_aliases, title_words, sections_of, browse, index_takes}

  abbrev pub walk_of : String → ℕ → List Section → Walk
  walk_of provider_id attempts sections =
      walk_sections title_aliases title_words (browse attempts provider_id)
        (index_takes attempts provider_id) page_limit sections new_walk

  -- `_crawl_provider`, with what `PROVIDERS` has for the id
  unfoldable pub crawl_known : String → ℕ → Option (List Section) → ProviderCrawlStats
  unfolding walk_sections
  crawl_known provider_id attempts none = no_walk provider_id unknown_provider attempts
  crawl_known provider_id attempts (some []) = no_walk provider_id no_sections attempts
  crawl_known provider_id attempts (some (s ∷ ss)) =
      stats_of_walk provider_id (length (s ∷ ss)) attempts (walk_of provider_id attempts (s ∷ ss))

  unfoldable pub crawl_provider : String → ℕ → ProviderCrawlStats
  unfolding crawl_known
  crawl_provider provider_id attempts = crawl_known provider_id attempts (sections_of provider_id)

  -- `not stat.ok and stat.sections > 0`
  abbrev pub to_retry : ProviderCrawlStats → Bool
  to_retry stat = not (is_ok stat) && ltb 0 stat.sections

  -- The dict `retried` of one pass
  unfoldable pub retry : ℕ → List String → Dict String ProviderCrawlStats
  unfolding crawl_provider
  retry attempts [] = []
  retry attempts (provider_id ∷ ids) =
      (provider_id, crawl_provider provider_id attempts) ∷ retry attempts ids

  -- `retried.get(stat.provider, stat)`
  abbrev pub stat_or : ProviderCrawlStats → Option ProviderCrawlStats → ProviderCrawlStats
  stat_or stat none = stat
  stat_or stat (some again) = again

  -- `if not retry_ids: break`
  abbrev pub if_asked :
      List String → List ProviderCrawlStats → List ProviderCrawlStats → List ProviderCrawlStats
  if_asked [] others stats = stats
  if_asked (id ∷ ids) others stats = others

  -- The loop over the passes: so many are left, after `attempts` walks
  unfoldable pub passes : ℕ → ℕ → List ProviderCrawlStats → List ProviderCrawlStats
  unfolding retry
  passes zero attempts stats = stats
  passes (suc left) attempts stats =
      let retry_ids = map (λ stat. stat.provider) (keep to_retry stats) in
      let retried = retry (attempts + 1) retry_ids in
      let others =
        passes left (attempts + 1)
          (map (λ stat. stat_or stat (Dict.get stat.provider retried)) stats) in
      if_asked retry_ids others stats

  abbrev pub total : (ProviderCrawlStats → ℕ) → List ProviderCrawlStats → ℕ
  total f [] = 0
  total f (stat ∷ stats) = f stat + total f stats

  abbrev pub summed : List ProviderCrawlStats → CrawlStats
  summed stats = record {
    providers = stats;
    total_seen = total (λ stat. stat.seen) stats;
    total_indexed = total (λ stat. stat.indexed) stats;
  }

-- `crawl_index`, with `page_limit = max(1, pages)`
unfoldable pub crawl_index : World → List String → ℕ → ℕ → CrawlStats
unfolding passes crawl_provider
crawl_index world provider_ids pages retry_passes =
    let page_limit = max 1 pages in
    summed world page_limit (
      passes world page_limit retry_passes 1
        (map (λ provider_id. crawl_provider world page_limit provider_id 1) provider_ids))
