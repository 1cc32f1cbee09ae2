-- ===== src/Search/AtRest.antt =====
-- store.go: the hits of a search whose two queries see one database.
use mathlib.Core.Path.{subst}
use mathlib.Core.List.{Pairwise}
use simplykb.Prelude.{
  ◌≡◌, ◌≢◌, refl, sym, ap, ◌∙◌, Bool, Option, none, some, List, [], ◌∷◌, map, All,
}
use simplykb.Prelude.Membership.{Mem-All}
use simplykb.External.{External}
use simplykb.Errors.{Result, ok, err, decode_metadata}
use simplykb.Database.Rows.{Chunk}
use simplykb.Search.Hits.{
  SearchEngine, CandidateHit, HitRow, read_hit, read_hits, decode_hit_metadata,
}
use simplykb.Search.Top.{ChunkIds}
use simplykb.Search.Fused.{DistinctIds}
use simplykb.Search.Entries.{SameChunk}
use simplykb.Search.Ranking.{FloatLaws}
use simplykb.Search.Determined.{Agrees}

oks_eq : {A : Type 0} {a b : A} → ok a ≡ ok b → a ≡ b
oks_eq {A} {a} eq = ap (λ (r : Result A). elim r as (λ _. A) [ ok c ↦ c | err _ ↦ a ]) eq

module _ (x : External) (e : SearchEngine x) (laws : FloatLaws x e) where
  -- A candidate is made of a chunk, and has no score yet.
  abbrev MadeOf : Chunk → CandidateHit x e → Type 0
  MadeOf ch c =
      (c.internal_id ≡ ch.id)
      × (c.hit.document_id ≡ ch.document_external_id)
      × (c.hit.chunk_number ≡ ch.chunk_no)
      × (c.hit.score ≡ e.zero_score)

  abbrev pub AllMadeOf : List Chunk → List (CandidateHit x e) → Type 0
  AllMadeOf [] [] = Unit
  AllMadeOf (ch ∷ l) (c ∷ cs) = MadeOf ch c × AllMadeOf l cs
  AllMadeOf _ _ = ⊥

  pub read_hits-AllMadeOf :
      (keyword : Bool) (row : Chunk → HitRow x e) (l : List Chunk) (hits : List (CandidateHit x e))
      → ((ch : Chunk) → (row ch).chunk ≡ ch)
      → read_hits x e keyword (map row l) ≡ ok hits
      → AllMadeOf l hits
  unfolding read_hits read_hit
  read_hits-AllMadeOf keyword row [] hits of h = subst (AllMadeOf []) (oks_eq h) tt
  read_hits-AllMadeOf keyword row (ch ∷ l) hits of h =
      by_row (decode_hit_metadata x e (row ch).chunk.metadata) refl
        (read_hits x e keyword (map row l)) refl (λ tail. read_hits-AllMadeOf keyword row l tail of)
    where
      by_row :
          (o : Option x.Metadata)
          → decode_hit_metadata x e (row ch).chunk.metadata ≡ o
          → (r : Result (List (CandidateHit x e))) → read_hits x e keyword (map row l) ≡ r
          → ((tail : List (CandidateHit x e))
              → read_hits x e keyword (map row l) ≡ ok tail
              → AllMadeOf l tail)
          → AllMadeOf (ch ∷ l) hits
      by_row none o_is r r_is rest =
          let stop : err decode_metadata ≡ ok hits = sym (rw (o_is, read_hits) refl) ∙ h in
          absurd (cc)
      by_row (some m) o_is (err problem) r_is rest =
          let stop : err problem ≡ ok hits = sym (rw (o_is, r_is, read_hits) refl) ∙ h in
          absurd (cc)
      by_row (some m) o_is (ok tail) r_is rest =
          let done : ok (read_hit x e keyword (row ch) m ∷ tail) ≡ ok hits =
            sym (rw (o_is, r_is, read_hits) refl) ∙ h in
          subst (AllMadeOf (ch ∷ l)) (oks_eq done) (
            (
              ap (λ (c : Chunk). c.id) (of ch),
              ap (λ (c : Chunk). c.document_external_id) (of ch),
              ap (λ (c : Chunk). c.chunk_no) (of ch),
              refl,
            ),
            rest tail r_is,
          )

  AllMadeOf-All :
      (P : Chunk → Type 0) (Q : CandidateHit x e → Type 0)
      → ((ch : Chunk) (c : CandidateHit x e) → MadeOf ch c → P ch → Q c)
      → (l : List Chunk) (cs : List (CandidateHit x e)) → AllMadeOf l cs
      → All P l
      → All Q cs
  AllMadeOf-All P Q f [] [] m a = tt
  AllMadeOf-All P Q f [] (c ∷ cs) m a = absurd m
  AllMadeOf-All P Q f (ch ∷ l) [] m a = tt
  AllMadeOf-All P Q f (ch ∷ l) (c ∷ cs) m a = (f ch c m.0 a.0, AllMadeOf-All P Q f l cs m.1 a.1)

  pub AllMadeOf-DistinctIds :
      (l : List Chunk) (cs : List (CandidateHit x e))
      → AllMadeOf l cs
      → ChunkIds l
      → DistinctIds x e cs
  AllMadeOf-DistinctIds [] [] m d = tt
  AllMadeOf-DistinctIds [] (c ∷ cs) m d = absurd m
  AllMadeOf-DistinctIds (ch ∷ l) [] m d = tt
  AllMadeOf-DistinctIds (ch ∷ l) (c ∷ cs) m (Pairwise.cons h d) = (
    AllMadeOf-All (λ (k : Chunk). k.id ≢ ch.id)
        (λ (k : CandidateHit x e). k.internal_id ≢ c.internal_id)
        (λ k j made n eq. n (sym made.0 ∙ eq ∙ m.0.0)) l cs m.1 (Mem-All _ l h),
    AllMadeOf-DistinctIds l cs m.1 d,
  )

  pub AllMadeOf-Unscored :
      (l : List Chunk) (cs : List (CandidateHit x e))
      → AllMadeOf l cs
      → All (λ (c : CandidateHit x e). c.hit.score ≡ e.zero_score) cs
  AllMadeOf-Unscored [] [] m = tt
  AllMadeOf-Unscored [] (c ∷ cs) m = absurd m
  AllMadeOf-Unscored (ch ∷ l) [] m = tt
  AllMadeOf-Unscored (ch ∷ l) (c ∷ cs) m = (m.0.3, AllMadeOf-Unscored l cs m.1)

  -- Two lists of chunks in which a chunk's number belongs to one id.
  abbrev pub Consistent : List Chunk → List Chunk → Type 0
  Consistent l r =
      All
        (λ (a : Chunk).
          All
            (λ (b : Chunk).
              a.document_external_id ≡ b.document_external_id
              → a.chunk_no ≡ b.chunk_no
              → a.id ≡ b.id)
            r)
        l

  pub AllMadeOf-Agrees :
      (l r : List Chunk) (cs ds : List (CandidateHit x e))
      → AllMadeOf l cs
      → AllMadeOf r ds
      → Consistent l r
      → All (Agrees x e laws ds) cs
  AllMadeOf-Agrees l r cs ds ml mr h =
      AllMadeOf-All _ (Agrees x e laws ds)
        (λ a c made both.
          AllMadeOf-All _
            (λ (d : CandidateHit x e). SameChunk x e c.hit d.hit → c.internal_id ≡ d.internal_id)
            (λ b d made' one chunk.
              made.0
              ∙ (one (sym made.1 ∙ (chunk.0 ∙ made'.1)) (sym made.2 ∙ (chunk.1 ∙ made'.2))
                  ∙ sym made'.0))
            r ds mr both)
        l cs ml h
