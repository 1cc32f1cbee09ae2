-- ===== src/Search/OneDatabase.antt =====
-- store.go: the results of `SearchDetailed` whose two queries see one database.
use mathlib.Core.List.{Mem, Perm}
use simplykb.Prelude.{
  ℕ, ℤ, pos, pos_part, ◌≡◌, refl, Bool, true, false, List, take, ◌&&◌, arith, All, All-both,
}
use simplykb.Prelude.Membership.{Mem-All}
use simplykb.Prelude.Sorting.{IsSorted}
use simplykb.Text.{Text, text_eq, text_eq_iff}
use simplykb.External.{External}
use simplykb.Errors.{ok}
use simplykb.Database.Rows.{Chunk, Db}
use simplykb.Search.Requests.{SearchRequest}
use simplykb.Search.Hits.{
  SearchEngine, SearchHit, CandidateHit, descending, ascending, keyword_rows, vector_rows,
  read_hits,
}
use simplykb.Search.Fusion.{Merged, ranks_before, results_of, rank_results}
use simplykb.Search.Entries.{merged_of}
use simplykb.Search.Ranking.{FloatLaws}
use simplykb.Search.Determined.{Agrees, rank_results_unique}
use simplykb.Search.Top.{ChunkIds, ChunkNumbers, top, top-ChunkIds, top-Mem}
use simplykb.Search.AtRest.{
  AllMadeOf, Consistent, read_hits-AllMadeOf, AllMadeOf-DistinctIds, AllMadeOf-Unscored,
  AllMadeOf-Agrees,
}

module _ (x : External) (e : SearchEngine x) (laws : FloatLaws x e) (d : Db) (req : SearchRequest x)
    (filter literal : Text) where
  abbrev keyword_condition : Chunk → Bool
  keyword_condition ch =
      text_eq ch.collection req.collection
      && (e.text_matches req.query ch && e.metadata_contains ch.metadata filter)

  abbrev vector_condition : Chunk → Bool
  vector_condition ch =
      text_eq ch.collection req.collection
      && (e.reaches d literal ch && e.metadata_contains ch.metadata filter)

  abbrev keyword_chunks : List Chunk
  keyword_chunks =
      top (descending x e (e.keyword_score d req.query)) keyword_condition
        (pos_part req.candidate_limit) d.chunks

  abbrev vector_chunks : List Chunk
  vector_chunks =
      top (ascending x e (λ ch. e.distance ch.embedding literal)) vector_condition
        (pos_part req.candidate_limit) d.chunks

  keyword_rows-AllMadeOf :
      (ks : List (CandidateHit x e))
      → read_hits x e true (keyword_rows x e req filter d) ≡ ok ks
      → AllMadeOf x e laws keyword_chunks ks
  unfolding keyword_rows
  keyword_rows-AllMadeOf ks read =
      read_hits-AllMadeOf x e laws true _ keyword_chunks ks (λ ch. refl) read

  vector_rows-AllMadeOf :
      (vs : List (CandidateHit x e))
      → read_hits x e false (vector_rows x e req literal filter d) ≡ ok vs
      → AllMadeOf x e laws vector_chunks vs
  unfolding vector_rows
  vector_rows-AllMadeOf vs read =
      read_hits-AllMadeOf x e laws false _ vector_chunks vs (λ ch. refl) read

  keyword_chunk :
      (ch : Chunk) → Mem ch keyword_chunks → Mem ch d.chunks × (ch.collection ≡ req.collection)
  keyword_chunk ch m =
      let (there, holds) = top-Mem _ keyword_condition _ d.chunks ch m in
      (there, (text_eq_iff ch.collection req.collection).0 (ground arith))

  vector_chunk :
      (ch : Chunk) → Mem ch vector_chunks → Mem ch d.chunks × (ch.collection ≡ req.collection)
  vector_chunk ch m =
      let (there, holds) = top-Mem _ vector_condition _ d.chunks ch m in
      (there, (text_eq_iff ch.collection req.collection).0 (ground arith))

  consistent :
      (l r : List Chunk)
      → ((a : Chunk) → Mem a l → Mem a d.chunks × (a.collection ≡ req.collection))
      → ((a : Chunk) → Mem a r → Mem a d.chunks × (a.collection ≡ req.collection))
      → ChunkNumbers req.collection d.chunks
      → Consistent x e laws l r
  consistent l r from_l from_r numbers = Mem-All _ l (λ a ma.
      Mem-All _ r
        (λ b mb. numbers a b (from_l a ma).0 (from_r b mb).0 (from_l a ma).1 (from_r b mb).1))

  agree :
      (l r : List Chunk) (cs ds : List (CandidateHit x e))
      → AllMadeOf x e laws l cs
      → AllMadeOf x e laws r ds
      → ((a : Chunk) → Mem a l → Mem a d.chunks × (a.collection ≡ req.collection))
      → ((a : Chunk) → Mem a r → Mem a d.chunks × (a.collection ≡ req.collection))
      → ChunkNumbers req.collection d.chunks
      → All (Agrees x e laws ds) cs
  agree l r cs ds ml mr from_l from_r numbers =
      AllMadeOf-Agrees x e laws l r cs ds ml mr (consistent l r from_l from_r numbers)

  both :
      (ks vs cs : List (CandidateHit x e))
      → All (Agrees x e laws ks) cs
      → All (Agrees x e laws vs) cs
      → All (λ (a : CandidateHit x e). Agrees x e laws ks a × Agrees x e laws vs a) cs
  both ks vs cs = All-both (Agrees x e laws ks) (Agrees x e laws vs) _ cs (λ a p q. (p, q))

  -- If both queries of a search see one database, which fulfils the primary key and the uniqueness of
  -- chunk numbers, then its results are the first `limit` ones of any sorted arrangement of the hits
  -- that are fused: they do not depend on the order in which Go visits its map, nor on the sort.
  pub search-determined :
      IsSet e.Float64
      → IsSet x.Metadata
      → ChunkIds d.chunks
      → ChunkNumbers req.collection d.chunks
      → (ks vs : List (CandidateHit x e))
      → read_hits x e true (keyword_rows x e req filter d) ≡ ok ks
      → read_hits x e false (vector_rows x e req literal filter d) ≡ ok vs
      → (constant : ℤ) (visit : Merged x e → Merged x e)
      → Perm (visit (merged_of x e constant ks vs)) (merged_of x e constant ks vs)
      → (sorted : List (SearchHit x e))
      → Perm sorted (results_of x e (λ m. m) (merged_of x e constant ks vs))
      → IsSorted (ranks_before x e) sorted
      → (limit : ℕ)
      → rank_results x e (pos limit) (results_of x e visit (merged_of x e constant ks vs))
        ≡ take limit sorted
  unfolding results_of
  search-determined float_set metadata_set ids numbers ks vs read_k read_v constant visit visits
        sorted arranged in_order limit =
      let mk = keyword_rows-AllMadeOf ks read_k in
      let mv = vector_rows-AllMadeOf vs read_v in
      rank_results_unique x e laws constant ks vs float_set metadata_set
        (AllMadeOf-DistinctIds x e laws keyword_chunks ks mk
          (top-ChunkIds _ keyword_condition _ d.chunks ids))
        (AllMadeOf-DistinctIds x e laws vector_chunks vs mv
          (top-ChunkIds _ vector_condition _ d.chunks ids))
        (AllMadeOf-Unscored x e laws keyword_chunks ks mk)
        (AllMadeOf-Unscored x e laws vector_chunks vs mv)
        (
          both ks vs ks (agree _ _ ks ks mk mk keyword_chunk keyword_chunk numbers)
              (agree _ _ ks vs mk mv keyword_chunk vector_chunk numbers),
          both ks vs vs (agree _ _ vs ks mv mk vector_chunk keyword_chunk numbers)
              (agree _ _ vs vs mv mv vector_chunk vector_chunk numbers),
        )
        visit visits sorted arranged in_order limit
