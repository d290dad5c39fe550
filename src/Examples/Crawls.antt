-- ===== src/Examples/Crawls.antt =====
-- backend/cs_uk_api/catalog_index.py at concrete inputs: a provider that answers in the second pass, one
-- that answers at once, and one that is unknown.
use ps4_uk_stream.Prelude.{
  ◌≡◌, max, true, false, none, some, [], ◌∷◌, map, ◌==◌, eqb, if◌then◌else◌, nat_eq, string_eq,
}
use ps4_uk_stream.Models.{MediaForm, SearchResult, Section}
use ps4_uk_stream.CatalogCrawl.{World, Page, crawl_index, crawl_provider}
use ps4_uk_stream.CatalogCrawl.Walks.{IsBounded, crawl_provider-IsBounded}
use ps4_uk_stream.CatalogCrawl.Retries.{settled, crawl_index-settled}

abbrev film : SearchResult
film = record {
  id = "uakino:1";
  provider = "uakino";
  form = MediaForm.movie;
  title = "Дюна";
  year = some 2021;
  poster = none;
  url = "u";
  styles = [];
  genres = [];
  imdb_id = none;
}

abbrev films : Section
films = record { id = "films"; title = "Фільми"; form = some MediaForm.movie; styles = none }

abbrev world : World
world = record {
  title_aliases = λ t. t ∷ [];
  title_words = λ t. t ∷ [];
  sections_of = λ p. if p == "ghost" then none else some (films ∷ []);
  browse = λ attempts p section page.
      if p == "uakino"
      then (if eqb attempts 1 then Page.failed else Page.answered (film ∷ []) true)
      else Page.answered (film ∷ film ∷ []) false;
  index_takes = λ attempts p section page. true;
}

crawl_index-settled_example :
    (crawl_index world ("uakino" ∷ "animeon" ∷ "ghost" ∷ []) 2 2).providers
    ≡ map
        (λ p. settled world (max 1 2) 2 1 (crawl_provider world (max 1 2) p 1))
        ("uakino" ∷ "animeon" ∷ "ghost" ∷ [])
crawl_index-settled_example = crawl_index-settled world ("uakino" ∷ "animeon" ∷ "ghost" ∷ []) 2 2

crawl_provider-IsBounded_example : IsBounded 2 (crawl_provider world 2 "uakino" 2)
crawl_provider-IsBounded_example = crawl_provider-IsBounded world 2 "uakino" 2
