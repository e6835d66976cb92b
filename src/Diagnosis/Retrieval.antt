-- ===== src/Diagnosis/Retrieval.antt =====
-- application/hybrid_retrieval_service.py and domain/knowledge.py: documents by keywords and by the
-- angle of their vectors. The embedding, the tokens of a text and the order of a set are parameters.
use Prim.Native.String.{◌++◌}
use aiops_control_lab.Base.{
  ℕ, ◌+◌, max, String, Bool, not, ◌&&◌, ◌||◌, ◌==◌, Option, none, some, List, [], ◌∷◌, map, length,
  count, contains, is_empty, take, sorted, nat_eq, Dict, lookup, insert, Result, ok, err,
  value_error, zero_division, Float, FloatOps, float_lt, float_le, float_eq, float_max, float_one,
  if◌then◌else◌,
}
use aiops_control_lab.Results.{◌>>=◌}
use aiops_control_lab.Texts.{joined_by}

pub record KnowledgeDocument : Type 0 where
  pub id : String
  pub title : String
  pub body : String
  pub source : String
  pub tags : List String

pub record RetrievalHit : Type 0 where
  pub document : KnowledgeDocument
  pub score : Float
  pub keyword_score : Float
  pub semantic_score : Float
  pub citation : String

-- `tokens` are the matches of the pattern in the lower-case text, `set_of` the elements of a set in
-- the order in which it is iterated, `sum` is Python's of floats, `log` and `sqrt` are those of `math`.
pub record Library : Type 0 where
  pub floats : FloatOps
  pub sum : List Float → Float
  pub log : Float → Float
  pub sqrt : Float → Float
  pub is_blank : String → Bool
  pub tokens : String → List String
  pub set_of : List String → List String
  pub embed : String → List Float

pub record Retrieval : Type 0 where
  pub documents : List KnowledgeDocument
  pub semantic_weight : Float
  pub document_vectors : Dict (List Float)

-- `_searchable_text`
unfoldable pub searchable_text : KnowledgeDocument → String
unfolding joined_by
searchable_text document = joined_by " " (document.title ∷ document.body ∷ document.tags)

abbrev pub vector_or_empty : Option (List Float) → List Float
vector_or_empty none = []
vector_or_empty (some v) = v

-- `f(a, b) for a, b in zip(left, right, strict=True)`, with an error for other lengths
unfoldable pub products : FloatOps → List Float → List Float → Result (List Float)
products o [] [] = ok []
products o [] (b ∷ right) = err value_error
products o (a ∷ left) [] = err value_error
products o (a ∷ left) (b ∷ right) = products o left right >>= λ rest. ok (o.mul a b ∷ rest)

module _ (l : Library) where
  unfoldable pub vectors : List KnowledgeDocument → Dict (List Float) → Dict (List Float)
  unfolding searchable_text
  vectors [] d = d
  vectors (document ∷ documents) d =
      vectors documents (insert document.id (l.embed (searchable_text document)) d)

  -- `HybridRetrievalService(documents, embedding_provider, semantic_weight)`
  unfoldable pub new_retrieval : List KnowledgeDocument → Float → Result Retrieval
  unfolding vectors
  new_retrieval documents semantic_weight =
      if not (float_le 0 semantic_weight && float_le semantic_weight float_one)
      then err value_error
      else ok (record {
        documents = documents;
        semantic_weight = semantic_weight;
        document_vectors = vectors documents [];
      })

  abbrev pub norm : List Float → Float
  norm v = l.sqrt (l.sum (map (λ value. l.floats.mul value value) v))

  -- `_cosine`; a product of the norms that is rounded to zero raises.
  unfoldable pub cosine : List Float → List Float → Result Float
  unfolding products
  cosine left right =
      if float_eq (norm left) 0 || float_eq (norm right) 0
      then ok 0
      else products l.floats left right >>= λ terms.
          let norms = l.floats.mul (norm left) (norm right) in
          if float_eq norms 0 then err zero_division else ok (l.floats.div (l.sum terms) norms)

  abbrev pub occurrences : String → List String → ℕ
  occurrences token tokens = count (λ t. t == token) tokens

  -- `document_frequencies[token]`
  unfoldable pub document_frequency : List KnowledgeDocument → String → ℕ
  unfolding searchable_text
  document_frequency documents token =
      count (λ document. contains token (l.tokens (searchable_text document))) documents

  -- what one token adds to the raw score; 1.2 is the constant of the saturation.
  unfoldable pub token_score : List KnowledgeDocument → ℕ → String → Float
  unfolding document_frequency
  token_score documents frequency token =
      let o = l.floats in
      let idf = l.log (
        o.add float_one
          (o.quotient (max (length documents) 1) (1 + document_frequency documents token))) in
      o.mul (o.div (o.of_int frequency) (o.add (o.of_int frequency) 0x3ff3_3333_3333_3333)) idf

  -- the loop over the tokens of the query
  unfoldable pub raw_score : List KnowledgeDocument → List String → Float → List String → Float
  unfolding token_score
  raw_score documents document_tokens raw [] = raw
  raw_score documents document_tokens raw (token ∷ tokens) =
      let frequency = occurrences token document_tokens in
      raw_score documents document_tokens
        (if nat_eq frequency 0
          then raw
          else l.floats.add raw (token_score documents frequency token))
        tokens

  -- `_keyword_score`; the divisor at its end is at least 1.
  unfoldable pub keyword_score : List KnowledgeDocument → List String → List String → Float
  unfolding raw_score
  keyword_score documents query_tokens document_tokens =
      if is_empty query_tokens || is_empty document_tokens
      then 0
      else let raw = raw_score documents document_tokens 0 (l.set_of query_tokens) in
        l.floats.div raw (l.floats.add float_one raw)

  abbrev pub combined_score : Retrieval → Float → Float → Float
  combined_score r keyword semantic =
      l.floats.add (l.floats.mul (l.floats.sub float_one r.semantic_weight) keyword)
        (l.floats.mul r.semantic_weight semantic)

  unfoldable pub hit_of : Retrieval → String → KnowledgeDocument → Result RetrievalHit
  unfolding cosine keyword_score searchable_text
  hit_of r query document =
      let keyword =
        keyword_score r.documents (l.tokens query) (l.tokens (searchable_text document)) in
      cosine (l.embed query) (vector_or_empty (lookup document.id r.document_vectors)) >>= λ angle.
      ok (record {
        document = document;
        score = combined_score r keyword (float_max angle 0);
        keyword_score = keyword;
        semantic_score = float_max angle 0;
        citation = "[" ++ (document.title ++ ("](" ++ (document.source ++ ")")));
      })

  -- the loop over the documents
  unfoldable pub hits_of : Retrieval → String → List KnowledgeDocument → Result (List RetrievalHit)
  unfolding hit_of
  hits_of r query [] = ok []
  hits_of r query (document ∷ documents) =
      hit_of r query document >>= λ hit. hits_of r query documents >>= λ hits. ok (hit ∷ hits)

  -- `search`, for scores that are numbers
  unfoldable pub search : Retrieval → String → ℕ → Result (List RetrievalHit)
  unfolding hits_of
  search r query limit =
      if l.is_blank query || nat_eq limit 0
      then ok []
      else hits_of r query r.documents >>= λ hits.
          ok (take limit (sorted (λ a b. float_lt b.score a.score) hits))
