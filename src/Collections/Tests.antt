-- ===== src/Collections/Tests.antt =====
-- The theorems on collections at a concrete store and database.
use simplykb.Prelude.{◌≡◌, refl, some}
use simplykb.Text.{runes}
use simplykb.Requests.Names.{resolve_collection}
use simplykb.Requests.Tests.{plain}
use simplykb.Documents.Tests.{store, busy, busy-Stable}
use simplykb.Database.Rows.{Db}
use simplykb.Database.Removed.{CountedAs}
use simplykb.Database.Counts.{IsCounted}
use simplykb.Database.Post.{Ensures}
use simplykb.Database.Calls.{Stable, Untouched}
use simplykb.Collections.{collection_stats}
use simplykb.Collections.Kept.{collection_stats-Ensures}

collection_stats-Ensures_example :
    Ensures
      (collection_stats plain (some store) (runes "docs"))
      busy
      (λ stats w'.
        (d : Db) × IsCounted d
        × Stable IsCounted w'
        × (stats.collection ≡ resolve_collection store.cfg.default_collection (runes "docs"))
        × CountedAs stats.collection d stats.document_count stats.chunk_count)
      (Untouched IsCounted)
collection_stats-Ensures_example =
    collection_stats-Ensures plain store IsCounted (runes "docs") busy refl busy-Stable
