-- ===== src/Helm/Docs.antt =====
-- parseYamlDocs of pkg/helmutil/parse.go: the loop that reads the documents of a YAML file. It gives
-- what the field `yaml_docs` of the files of a chart stands for.
use k8ssandra_client.Common.{
  ℕ, zero, suc, ◌<◌, String, Option, some, none, List, [], ◌∷◌, ◌++◌, append_assoc, append-nil,
  Result, ok, err, Error, ◌≡◌, refl, sym, ap, ◌∙◌, arith,
}

-- What Read of the YAML reader gives: a document, io.EOF, or another error.
pub data Reading : Type 0 where
  document : String → Reading
  end_of_file : Reading
  failed : Error → Reading

module _ {R : Type 0} (read : R → Reading × R) where
  -- The loop with a number of rounds left; `none` means that they ran out.
  unfoldable pub read_docs : ℕ → R → List String → Option (Result (List String))
  read_docs zero reader docs = none
  read_docs (suc n) reader docs = elim (read reader).0 [
    | document d ↦ read_docs n (read reader).1 (docs ++ d ∷ [])
    | end_of_file ↦ some (ok docs)
    | failed e ↦ some (err e)
  ]

  -- `new_reader` is NewYAMLReader over the bytes. A reader gives no more documents than it has bytes
  -- left, so the rounds are one more than those.
  unfoldable pub parse_yaml_docs : (String → R) → (R → ℕ) → String → Option (Result (List String))
  parse_yaml_docs new_reader left b = read_docs (suc (left (new_reader b))) (new_reader b) []

  -- What a reader gives until it ends, in order, and how it ends.
  pub data Reads : R → List String → Result (Unit {0}) → Type 0 where
    ends : {r : R} → (read r).0 ≡ end_of_file → Reads r [] (ok tt)
    fails : {r : R} (e : Error) → (read r).0 ≡ failed e → Reads r [] (err e)
    gives :
        {r : R} {ds : List String} {last : Result (Unit {0})} (d : String)
        → (read r).0 ≡ document d
        → Reads (read r).1 ds last
        → Reads r (d ∷ ds) last

  -- The documents, unless the reader failed.
  abbrev pub all_docs : List String → Result (Unit {0}) → Result (List String)
  all_docs ds (ok u) = ok ds
  all_docs ds (err e) = err e
  all_docs ds Result.panic = Result.panic

  -- Documented behaviour: a document takes at least one byte.
  abbrev pub Consumes : (R → ℕ) → Type 0
  Consumes left = (r : R) (d : String) → (read r).0 ≡ document d → left (read r).1 < left r

  -- What a run that started with `docs` ends with.
  abbrev Ended : R → List String → Option (Result (List String)) → Type 0
  Ended r docs result =
      (ds : List String) × (last : Result (Unit {0})) × Reads r ds last
      × (result ≡ some (all_docs (docs ++ ds) last))

  read_docs_step :
      (n : ℕ) (r : R) (docs : List String) (x : Reading)
      → (read r).0 ≡ x
      → ((d : String)
          → (read r).0 ≡ document d
          → Ended (read r).1 (docs ++ d ∷ []) (read_docs n (read r).1 (docs ++ d ∷ [])))
      → Ended r docs (read_docs (suc n) r docs)
  unfolding read_docs
  read_docs_step n r docs (document d) e more =
      let (ds, last, reads, eq) = more d e in
      (
        d ∷ ds,
        last,
        gives d e reads,
        rw (e, read_docs) (eq ∙ ap (λ l. some (all_docs l last)) (append_assoc docs (d ∷ []) ds)),
      )
  read_docs_step n r docs end_of_file e more =
      ([], ok tt, ends e, rw (e, read_docs) (ap (λ l. some (ok l)) (sym (append-nil docs))))
  read_docs_step n r docs (failed x) e more = ([], err x, fails x e, rw (e, read_docs) refl)

  read_docs-returns :
      (left : R → ℕ) (n : ℕ) (r : R) (docs : List String)
      → Consumes left
      → left r < n
      → Ended r docs (read_docs n r docs)
  read_docs-returns left zero r docs c h = absurd (omega (arith, h))
  read_docs-returns left (suc n) r docs c h =
      read_docs_step n r docs (read r).0 refl
        (λ d e. read_docs-returns left n (read r).1 (docs ++ d ∷ []) c (omega (arith, h, c r d e)))

  -- Where each document takes at least one byte of what the reader has left, parseYamlDocs
  -- returns: it has read the reader to its end, and gives all its documents in their order, or,
  -- where the reader failed, that error.
  pub parse_yaml_docs-returns :
      (new_reader : String → R) (left : R → ℕ) (b : String)
      → Consumes left
      → (ds : List String) × (last : Result (Unit {0})) × Reads (new_reader b) ds last
        × (parse_yaml_docs new_reader left b ≡ some (all_docs ds last))
  unfolding parse_yaml_docs
  parse_yaml_docs-returns new_reader left b c =
      read_docs-returns left (suc (left (new_reader b))) (new_reader b) [] c (omega arith)
