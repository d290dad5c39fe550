-- ===== src/CatalogCrawl/Walks.antt =====
-- What one walk over a provider's sections counts: no failure ends it, and its numbers bound each other.
use ps4_uk_stream.Prelude.{
  none, some, ◌&&◌, max, ◌*◌, Option, zero, suc, ◌+◌, ◌≤◌, ℕ, String, ◌≡◌, refl, inl, inr, Bool,
  true, false, List, [], ◌∷◌, ◌++◌, arith, Bool-cases, nat_eq, string_eq, keep, length,
  length-append,
}
use ps4_uk_stream.Prelude.Dict
use ps4_uk_stream.Prelude.Dict.{Dict, length-put}
use ps4_uk_stream.Models.{SearchResult, Section}
use ps4_uk_stream.Filters.{section_matches}
use ps4_uk_stream.CatalogCrawl.{
  max, some, answered, Option, crawl_known, new_walk, CrawlError, World, visit, walk_pages,
  walk_sections, crawl_provider, ProviderCrawlStats, Page, Walk, upsert_rows, upsert_page,
  index_page, is_indexable,
}

-- The rows of all batches
abbrev pub rows_written : List (Dict String SearchResult) → ℕ
rows_written [] = 0
rows_written (batch ∷ batches) = length batch + rows_written batches

rows_written-append :
    (batches : List (Dict String SearchResult)) (batch : Dict String SearchResult)
    → rows_written (batches ++ batch ∷ []) ≡ rows_written batches + length batch
rows_written-append [] batch = omega arith
rows_written-append (b ∷ batches) batch = omega (arith, rows_written-append batches batch)

-- From `w` to `w'` at most `pages` pages were fetched, at most `errors` failures noted, no more rows
-- indexed than items seen, and the rows indexed are those written.
pub record Grows (pages errors : ℕ) (w w' : Walk) : Type 0 where
  pub paged : w'.pages ≤ w.pages + pages
  pub failing : length w'.errors ≤ length w.errors + errors
  pub gained : w'.indexed + w.seen ≤ w'.seen + w.indexed
  pub booked : w'.indexed + rows_written w.written ≡ w.indexed + rows_written w'.written

module _ (title_aliases : String → List String) (title_words : String → List String) where
  length-upsert_rows-le :
      (rows : Dict String SearchResult) (results : List SearchResult)
      → length (upsert_rows title_aliases title_words rows results) ≤ length rows + length results
  unfolding upsert_rows
  length-upsert_rows-le rows [] = omega arith
  length-upsert_rows-le rows (r ∷ results) =
      elim (Bool-cases (is_indexable title_aliases title_words r)) [
        | inl taken ↦ rw taken (
            ground
              (arith, length-upsert_rows-le (Dict.put r.id r rows) results, length-put r.id r rows))
        | inr left_out ↦ rw left_out (omega (arith, length-upsert_rows-le rows results))
      ]

  module _ (browse : String → ℕ → Page) (index_takes : String → ℕ → Bool) where
    abbrev errors_of : Bool → ℕ
    errors_of true = 0
    errors_of false = 1

    index_page-Grows :
        (section : Section) (page : ℕ) (items : List SearchResult) (w : Walk)
        → let r = index_page title_aliases title_words browse index_takes section page items w in
          Grows 0 (errors_of r.1) w r.0
    unfolding index_page upsert_page
    index_page-Grows section page items w =
        let matching = keep (λ item. section_matches item section) items in
        let few = length-upsert_rows-le [] matching in
        by_rows matching (upsert_rows title_aliases title_words [] matching) few
      where
        by_rows :
            (matching : List SearchResult) (rows : Dict String SearchResult)
            → length rows ≤ 0 + length matching
            → let r =
                upsert_page title_aliases title_words browse index_takes section.id page matching
                  rows
                  (record w { seen = w.seen + length matching }) in
              Grows 0 (errors_of r.1) w r.0
        by_rows matching [] h = record {
          paged = omega arith;
          failing = omega arith;
          gained = omega arith;
          booked = refl;
        }
        by_rows matching (row ∷ rows) h = elim (Bool-cases (index_takes section.id page)) [
          | inl taken ↦ rw taken (record {
            paged = omega arith;
            failing = omega arith;
            gained = omega arith;
            booked = omega (arith, rows_written-append w.written (row ∷ rows));
          })
          | inr refused ↦ rw refused (record {
            paged = omega arith;
            failing = omega (arith, length-append w.errors _);
            gained = omega arith;
            booked = refl;
          })
        ]

    visit-Grows :
        (section : Section) (page : ℕ) (answer : Page) (w : Walk)
        → let r = visit title_aliases title_words browse index_takes section page answer w in
          Grows 1 (errors_of r.1) w r.0
    unfolding visit
    visit-Grows section page Page.failed w = record {
      paged = omega arith;
      failing =
          omega (arith, length-append w.errors (CrawlError.browse_error section.id page ∷ []));
      gained = omega arith;
      booked = refl;
    }
    visit-Grows section page (answered [] has_next) w = record {
      paged = omega arith;
      failing = omega arith;
      gained = omega arith;
      booked = refl;
    }
    visit-Grows section page (answered (item ∷ items) has_next) w =
        let w1 = record w { pages = w.pages + 1 } in
        let r =
          index_page title_aliases title_words browse index_takes section page (item ∷ items) w1 in
        let g = index_page-Grows section page (item ∷ items) w1 in
        record {
          paged = omega (arith, g.paged);
          failing = weaker r.1 has_next _ _ g.failing;
          gained = omega (arith, g.gained);
          booked = omega (arith, g.booked);
        }
      where
        weaker :
            (taken has_next : Bool) (a b : ℕ)
            → a ≤ b + errors_of taken
            → a ≤ b + errors_of (taken && has_next)
        weaker true true a b h = h
        weaker true false a b h = omega arith
        weaker false has_next a b h = h

    walk_pages-Grows :
        (left page : ℕ) (section : Section) (w : Walk)
        → Grows left 1 w
            (walk_pages title_aliases title_words browse index_takes left page section w)
    unfolding walk_pages
    walk_pages-Grows zero page section w = record {
      paged = omega arith;
      failing = omega arith;
      gained = omega arith;
      booked = refl;
    }
    walk_pages-Grows (suc left) page section w =
        let r =
          visit title_aliases title_words browse index_takes section page (browse section.id page)
            w in
        let g = visit-Grows section page (browse section.id page) w in
        elim (Bool-cases r.1) [
          | inl go_on ↦
              let h = walk_pages-Grows left (page + 1) section r.0 in
              rw go_on (record {
                paged = omega (arith, g.paged, h.paged);
                failing = omega (arith, rw go_on at (g.failing), h.failing);
                gained = omega (arith, g.gained, h.gained);
                booked = omega (arith, g.booked, h.booked);
              })
          | inr stop ↦ rw stop (record {
            paged = omega (arith, g.paged);
            failing = rw stop at (g.failing);
            gained = g.gained;
            booked = g.booked;
          })
        ]

    pub walk_sections-Grows :
        (page_limit : ℕ) (sections : List Section) (w : Walk)
        → Grows
            (length sections * page_limit)
            (length sections)
            w
            (walk_sections title_aliases title_words browse index_takes page_limit sections w)
    unfolding walk_sections
    walk_sections-Grows page_limit [] w = record {
      paged = omega arith;
      failing = omega arith;
      gained = omega arith;
      booked = refl;
    }
    walk_sections-Grows page_limit (section ∷ sections) w =
        let w1 = walk_pages title_aliases title_words browse index_takes page_limit 1 section w in
        let g = walk_pages-Grows page_limit 1 section w in
        let h = walk_sections-Grows page_limit sections w1 in
        record {
          paged = grind (arith, g.paged, h.paged);
          failing = omega (arith, g.failing, h.failing);
          gained = omega (arith, g.gained, h.gained);
          booked = omega (arith, g.booked, h.booked);
        }

-- The numbers of a provider's stats
pub record IsBounded (page_limit : ℕ) (stat : ProviderCrawlStats) : Type 0 where
  pub paged : stat.pages ≤ stat.sections * page_limit
  pub failing : length stat.errors ≤ max 1 stat.sections
  pub gained : stat.indexed ≤ stat.seen

crawl_known-IsBounded :
    (world : World) (page_limit : ℕ) (provider_id : String) (attempts : ℕ)
    (known : Option (List Section))
    → IsBounded page_limit (crawl_known world page_limit provider_id attempts known)
unfolding crawl_known
crawl_known-IsBounded world page_limit provider_id attempts none = record {
  paged = omega arith;
  failing = omega arith;
  gained = omega arith;
}
crawl_known-IsBounded world page_limit provider_id attempts (some []) = record {
  paged = omega arith;
  failing = omega arith;
  gained = omega arith;
}
crawl_known-IsBounded world page_limit provider_id attempts (some (s ∷ ss)) =
    let g =
      walk_sections-Grows world.title_aliases world.title_words (world.browse attempts provider_id)
        (world.index_takes attempts provider_id) page_limit (s ∷ ss) new_walk in
    record {
      paged = omega (arith, g.paged);
      failing = omega (arith, g.failing);
      gained = omega (arith, g.gained);
    }

-- One walk over a provider, whatever its pages and the index answer: at most `page_limit` pages for
-- each section, at most one failure for each section (or one in all for a provider with no sections),
-- and no more rows indexed than items seen.
pub crawl_provider-IsBounded :
    (world : World) (page_limit : ℕ) (provider_id : String) (attempts : ℕ)
    → IsBounded page_limit (crawl_provider world page_limit provider_id attempts)
unfolding crawl_provider
crawl_provider-IsBounded world page_limit provider_id attempts =
    crawl_known-IsBounded world page_limit provider_id attempts (world.sections_of provider_id)
