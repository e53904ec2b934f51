-- ===== src/DepGraph/ResolveTests.antt =====
-- web/src/lib/depGraph.ts: source references at concrete inputs.
use yafu.Base.{◌≡◌, refl, inl, inr, some, [], ◌∷◌, codes, ◌=t◌, In, arith}
use yafu.ApiTypes.{source_kind_text, Source}
use yafu.DepGraph.Keys.{parse_source_ref-print}
use yafu.DepGraph.Matching.{resolve-plain}
use yafu.DepGraph.Resolves.{resolve-prefers_kind}
use yafu.DepGraph.{parse_source_ref}
use yafu.DepGraph.Index.{resolve, index_from, empty_index}
use yafu.DepGraph.Fixtures.{a1, main, spare}

resolve-plain_example :
    resolve
      (index_from empty_index (spare ∷ main ∷ []))
      a1
      (record { kind = some (codes "GitRepository"); name = codes "main" })
    ≡ some main
unfolding ◌=t◌
resolve-plain_example =
    resolve-plain (spare ∷ main ∷ []) a1 (omega arith) (omega arith)
      (record { kind = some (codes "GitRepository"); name = codes "main" }) (omega arith)

resolve-prefers_kind_example :
    (s : Source) × (resolve
        (index_from empty_index (spare ∷ main ∷ []))
        a1
        (record { kind = some (codes "GitRepository"); name = codes "main" })
      ≡ some s)
    × In s (spare ∷ main ∷ [])
    × (source_kind_text s.kind ≡ codes "GitRepository")
    × (s.ns ≡ codes "default")
    × (s.name ≡ codes "main")
resolve-prefers_kind_example =
    resolve-prefers_kind (spare ∷ main ∷ []) a1 (omega arith) (omega arith) (codes "GitRepository")
      (codes "main") main (omega arith) (inr (inl refl)) refl refl refl

parse_source_ref-print_example :
    parse_source_ref (some (codes "GitRepository/main"))
    ≡ some (record { kind = some (codes "GitRepository"); name = codes "main" })
parse_source_ref-print_example =
    parse_source_ref-print (record { kind = some (codes "GitRepository"); name = codes "main" })
      (omega arith)
