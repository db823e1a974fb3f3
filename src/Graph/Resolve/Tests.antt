-- ===== src/Graph/Resolve/Tests.antt =====
-- Two files, a call across them, and a call that names nothing.
use px.Prelude.{◌≡◌, ◌↔◌, refl, String, List, [], ◌∷◌, ok}
use px.Prelude.Int.{pos}
use px.Prelude.Text.{has_prefix, trim_prefix, has_suffix}
use px.Prelude.Sort.{sort_by}
use px.Prelude.Maps.{contains, lookup, insert, string_eq, int_eq}
use px.Prelude.Paths.{clean, dir, ext}
use px.Graph.Resolve.{
  Symbol, Reference, ResolvedEdge, group, add_to_group, add_alias, add_symbol, index_symbols,
  first_of_each, unique_symbols, candidates_for, confidence_for, edge_to, edge_from,
  resolve_references, resolve, resolve_path, trim_suffix, nine_tenths_f, fifth_f,
}
use px.Graph.Resolve.Targets.{Edges, resolve-Edges}
use px.Graph.Resolve.Accepted.{IsAcceptable, resolve-IsAcceptable_iff}

abbrev main_symbol : Symbol
main_symbol = record {
  id = pos 1;
  path = "cmd/main.ts";
  name = "main";
  kind = "function";
  signature = "";
  start_line = pos 1;
  end_line = pos 9;
}

abbrev load_symbol : Symbol
load_symbol = record {
  id = pos 2;
  path = "lib/load.ts";
  name = "load";
  kind = "function";
  signature = "";
  start_line = pos 1;
  end_line = pos 3;
}

abbrev call : String → String → Reference
call target target_path = record {
  source_symbol_id = pos 1;
  source_path = "cmd/main.ts";
  source_line = pos 4;
  kind = "calls";
  target = target;
  target_path = target_path;
}

abbrev symbols : List Symbol
symbols = main_symbol ∷ load_symbol ∷ []

abbrev calls : List Reference
calls = call "load" "../lib/load" ∷ call "save" "" ∷ []

abbrev edges : List ResolvedEdge
edges =
    edge_to (call "load" "../lib/load") (pos 2) "" nine_tenths_f
    ∷ edge_to (call "save" "") (pos 0) "save" fifth_f
    ∷ []

resolve-calls : resolve symbols calls ≡ ok edges
unfolding resolve index_symbols add_symbol add_alias add_to_group group resolve_references
    candidates_for unique_symbols first_of_each resolve_path confidence_for edge_from clean dir ext
    trim_suffix has_suffix has_prefix trim_prefix contains lookup insert sort_by
resolve-calls = refl

resolve-IsAcceptable_iff_example :
    IsAcceptable symbols calls
    ↔ ((found : List ResolvedEdge) × (resolve symbols calls ≡ ok found) × Edges symbols calls found)
resolve-IsAcceptable_iff_example = resolve-IsAcceptable_iff symbols calls

-- The symbols and the calls are accepted.
symbols-IsAcceptable : IsAcceptable symbols calls
symbols-IsAcceptable =
    (resolve-IsAcceptable_iff symbols calls).1
      (edges, resolve-calls, resolve-Edges symbols calls edges resolve-calls)
