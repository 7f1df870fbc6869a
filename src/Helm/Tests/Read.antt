-- ===== src/Helm/Tests/Read.antt =====
-- Readings of YAML documents at concrete files.
use k8ssandra_client.Common.{
  String, some, List, [], ◌∷◌, length, Result, err, message, ◌≡◌, refl, arith,
}
use k8ssandra_client.Helm.Docs.{
  Reading, document, end_of_file, failed, Reads, all_docs, Consumes, parse_yaml_docs,
  parse_yaml_docs-returns, read_docs,
}

-- A reader whose state is what it will still give.
abbrev read : List Reading → Reading × List Reading
read [] = (end_of_file, [])
read (x ∷ xs) = (x, xs)

-- The file has one document and then a broken one.
abbrev new_reader : String → List Reading
new_reader b = document b ∷ failed (message "broken") ∷ document "lost" ∷ []

consumes : Consumes read length
consumes [] d h = absurd (cc h)
consumes (x ∷ xs) d h = omega arith

parse_yaml_docs-returns_example :
    (ds : List String) × (last : Result (Unit {0})) × Reads read (new_reader "a: 1") ds last
    × (parse_yaml_docs read new_reader length "a: 1" ≡ some (all_docs read ds last))
parse_yaml_docs-returns_example = parse_yaml_docs-returns read new_reader length "a: 1" consumes

fails_at_the_broken_one :
    parse_yaml_docs read new_reader length "a: 1" ≡ some (err (message "broken"))
unfolding parse_yaml_docs read_docs
fails_at_the_broken_one = refl
