-- ===== src/Documents/Rows.antt =====
-- The row of a document in `kb_documents` after the statements of a write.
use mathlib.Core.Bool.{false≢true}
use mathlib.Core.Option.{some-injective}
use simplykb.Prelude.{
  ℕ, ◌≡◌, refl, sym, ap, ◌∙◌, Bool, true, false, ◌&&◌, some, List, [], ◌∷◌, ◌==◌, map, Bool-cases,
  Option-cases, inl, inr, if◌then◌else◌, ==_iff,
}
use simplykb.Text.{Text, text_eq, text_eq_iff}
use simplykb.Database.Rows.{Document, Db, has_key, find_document}
use simplykb.Database.Counts.{and_true}
use simplykb.Database.Statements.{
  Fields, refresh_document, overwrite_document, insert_or_update_document, count_document,
}

-- The rewrites of rows that keep the key of a document.
pub KeepsKey : Text → Text → (Document → Document) → Type 0
KeepsKey c e f = (r : Document) → has_key c e (f r) ≡ has_key c e r

pub find_document-map :
    (c e : Text) (f : Document → Document) (l : List Document) (r : Document)
    → KeepsKey c e f
    → find_document c e l ≡ some r
    → find_document c e (map f l) ≡ some (f r)
unfolding find_document KeepsKey
find_document-map c e f [] r same h = cc
find_document-map c e f (a ∷ l) r same h = elim (Bool-cases (has_key c e a)) [
  | inl here ↦
      let first : some a ≡ some r = (rw (here, find_document) at h) in
      rw (same a, here, find_document)
        (ap (λ (d : Document). some (f d)) (some-injective a r first))
  | inr other ↦
      rw (same a, other, find_document)
        (find_document-map c e f l r same (rw (other, find_document) at h))
]

pub find_document-has_key :
    (c e : Text) (l : List Document) (r : Document)
    → find_document c e l ≡ some r
    → has_key c e r ≡ true
unfolding find_document
find_document-has_key c e [] r h = cc
find_document-has_key c e (a ∷ l) r h = elim (Bool-cases (has_key c e a)) [
  | inl here ↦
      let first : some a ≡ some r = (rw (here, find_document) at h) in
      ap (has_key c e) (sym (some-injective a r first)) ∙ here
  | inr other ↦ find_document-has_key c e l r (rw (other, find_document) at h)
]

module _ (c e : Text) (now i n : ℕ) (f : Fields) (hash : Text) where
  pub refresh-KeepsKey : KeepsKey c e (refresh_document now c i f)
  unfolding refresh_document KeepsKey
  refresh-KeepsKey r = by (text_eq r.collection c && r.id == i)
    where
      by :
          (b : Bool)
          → has_key c e (
              if b
              then record r {
                title = f.title;
                source_uri = f.source_uri;
                tags = f.tags;
                metadata = f.metadata;
                updated_at = now;
              }
              else r)
            ≡ has_key c e r
      by true = refl
      by false = refl

  pub overwrite-KeepsKey : KeepsKey c e (overwrite_document now c e f hash)
  unfolding overwrite_document KeepsKey
  overwrite-KeepsKey r = by (has_key c e r)
    where
      by :
          (b : Bool)
          → has_key c e (
              if b
              then record r {
                title = f.title;
                source_uri = f.source_uri;
                tags = f.tags;
                metadata = f.metadata;
                content_hash = hash;
                updated_at = now;
              }
              else r)
            ≡ has_key c e r
      by true = refl
      by false = refl

  pub count-KeepsKey : KeepsKey c e (count_document now c i n)
  unfolding count_document KeepsKey
  count-KeepsKey r = by (text_eq r.collection c && r.id == i)
    where
      by :
          (b : Bool)
          → has_key c e (if b then record r { chunk_count = n; updated_at = now } else r)
            ≡ has_key c e r
      by true = refl
      by false = refl

-- The row holds what a write sets.
pub record Holds (c : Text) (f : Fields) (hash : Text) (r : Document) : Type 0 where
  pub in_collection : text_eq r.collection c ≡ true
  pub titled : r.title ≡ f.title
  pub from_source : r.source_uri ≡ f.source_uri
  pub tagged : r.tags ≡ f.tags
  pub described : r.metadata ≡ f.metadata
  pub hashed : r.content_hash ≡ hash

abbrev new_document : ℕ → Text → Text → Fields → Text → Db → Document
new_document now c e f hash db = record {
  id = db.next_document_id;
  collection = c;
  external_id = e;
  title = f.title;
  source_uri = f.source_uri;
  tags = f.tags;
  metadata = f.metadata;
  content_hash = hash;
  chunk_count = 0;
  updated_at = now;
}

-- The upsert of a row leaves one row with the key, whose id it returns.
pub insert_or_update-Holds :
    (now : ℕ) (c e : Text) (f : Fields) (hash : Text) (db : Db)
    → (r : Document) × (find_document c e (insert_or_update_document now c e f hash db).1.documents
        ≡ some r)
      × ((r.id == (insert_or_update_document now c e f hash db).0) ≡ true)
      × Holds c f hash r
unfolding insert_or_update_document
insert_or_update-Holds now c e f hash db = elim (Option-cases (find_document c e db.documents)) [
  | inl missing ↦
      rw (missing, insert_or_update_document)
        (
          new_document now c e f hash db,
          new_first,
          (==_iff db.next_document_id db.next_document_id).1 refl,
          record {
            in_collection = (text_eq_iff c c).1 refl;
            titled = refl;
            from_source = refl;
            tagged = refl;
            described = refl;
            hashed = refl;
          },
        )
  | inr (d, found) ↦
      let (same, held) =
        overwritten d (has_key c e d) refl (find_document-has_key c e db.documents d found) in
      rw (found, insert_or_update_document)
        (
          overwrite_document now c e f hash d,
          find_document-map c e (overwrite_document now c e f hash) db.documents d
              (overwrite-KeepsKey c e now 0 0 f hash) found,
          same,
          held,
        )
]
  where
    new_first :
        find_document c e (new_document now c e f hash db ∷ db.documents)
        ≡ some (new_document now c e f hash db)
    new_first = unfold find_document in rw ((text_eq_iff c c).1 refl, (text_eq_iff e e).1 refl) refl

    overwritten :
        (d : Document) (b : Bool)
        → has_key c e d ≡ b
        → has_key c e d ≡ true
        → (((overwrite_document now c e f hash d).id == d.id) ≡ true)
          × Holds c f hash (overwrite_document now c e f hash d)
    overwritten d false k h = absurd (false≢true (sym k ∙ h))
    overwritten d true k h =
        rw (k, overwrite_document)
          (
            (==_iff d.id d.id).1 refl,
            record {
              in_collection = (and_true (text_eq d.collection c) (text_eq d.external_id e) k).0;
              titled = refl;
              from_source = refl;
              tagged = refl;
              described = refl;
              hashed = refl;
            },
          )

-- The count of a row that holds a write.
pub count-Holds :
    (now i n : ℕ) (c : Text) (f : Fields) (hash : Text) (r : Document)
    → Holds c f hash r
    → (r.id == i) ≡ true
    → Holds c f hash (count_document now c i n r) × ((count_document now c i n r).chunk_count ≡ n)
unfolding count_document
count-Holds now i n c f hash r h same =
    rw (h.in_collection, same, count_document)
      (
        record {
          in_collection = h.in_collection;
          titled = h.titled;
          from_source = h.from_source;
          tagged = h.tagged;
          described = h.described;
          hashed = h.hashed;
        },
        refl,
      )

-- A refresh of a row.
pub refresh-Holds :
    (now : ℕ) (c : Text) (f : Fields) (r : Document)
    → text_eq r.collection c ≡ true
    → Holds c f r.content_hash (refresh_document now c r.id f r)
      × ((refresh_document now c r.id f r).chunk_count ≡ r.chunk_count)
unfolding refresh_document
refresh-Holds now c f r here =
    rw (here, (==_iff r.id r.id).1 refl, refresh_document)
      (
        record {
          in_collection = here;
          titled = refl;
          from_source = refl;
          tagged = refl;
          described = refl;
          hashed = refl;
        },
        refl,
      )
