-- ===== src/Graph/Overlay/Tests.antt =====
-- internal/hosted/graph/overlay.go: one file of the base changes, and another uses it.
use px.Prelude.{◌≡◌, refl, String, false, [], ◌∷◌, ok, some, arith, keep_if}
use px.Prelude.Int.{pos, negsuc}
use px.Prelude.Sort.{sort_by}
use px.Prelude.Maps.{contains, add_key, lookup, insert, string_eq}
use px.Graph.Overlay.{
  OverlaySymbol, OverlayEdge, Snapshot, ChangedFile, HeadParser, Overlay, symbol_key, add_symbol,
  map_edge, build_overlay,
}
use px.Graph.Overlay.Laid.{IsLaid, build_overlay-IsLaid}

abbrev quoted_path : String → String
quoted_path s = s

abbrev old_f : OverlaySymbol
old_f = record {
  id = pos 1;
  path = "a";
  kind = "func";
  name = "f";
  signature = "f()";
  start_line = pos 1;
  end_line = pos 2;
}

abbrev old_g : OverlaySymbol
old_g = record {
  id = pos 2;
  path = "a";
  kind = "func";
  name = "g";
  signature = "g()";
  start_line = pos 3;
  end_line = pos 4;
}

abbrev user : OverlaySymbol
user = record {
  id = pos 3;
  path = "b";
  kind = "func";
  name = "u";
  signature = "u()";
  start_line = pos 1;
  end_line = pos 2;
}

abbrev call : OverlayEdge
call = record { source_id = pos 3; target_id = pos 1; target = ""; kind = "calls" }

abbrev lost_call : OverlayEdge
lost_call = record { source_id = pos 3; target_id = pos 2; target = ""; kind = "calls" }

abbrev base_graph : Snapshot
base_graph = record { symbols = old_f ∷ old_g ∷ user ∷ []; edges = call ∷ lost_call ∷ [] }

abbrev change_of_a : ChangedFile
change_of_a = record { path = "a"; blob_sha = "9"; content = "x"; deleted = false }

abbrev new_f : OverlaySymbol
new_f = record {
  id = pos 1;
  path = "a";
  kind = "func";
  name = "f";
  signature = "f(x)";
  start_line = pos 1;
  end_line = pos 2;
}

abbrev new_h : OverlaySymbol
new_h = record {
  id = pos 2;
  path = "a";
  kind = "func";
  name = "h";
  signature = "h()";
  start_line = pos 3;
  end_line = pos 4;
}

abbrev use_of_h : OverlayEdge
use_of_h = record { source_id = pos 1; target_id = pos 2; target = ""; kind = "calls" }

abbrev head_of_a : HeadParser
head_of_a c = ok (new_f ∷ new_h ∷ [], use_of_h ∷ [])

-- f is modified, g removed and h added; the call of f moves to the new f, the call of g goes.
abbrev laid : Overlay
laid = record {
  graph = record {
    symbols = user ∷ record new_f { id = negsuc 0 } ∷ record new_h { id = negsuc 1 } ∷ [];
    edges =
        record use_of_h { source_id = negsuc 0; target_id = negsuc 1 }
        ∷ record call { target_id = negsuc 0 }
        ∷ [];
  };
  delta = record {
    added = record new_h { id = negsuc 1 } ∷ [];
    removed = old_g ∷ [];
    modified = record new_f { id = negsuc 0 } ∷ [];
  };
}

build-laid : build_overlay quoted_path "|" base_graph (change_of_a ∷ []) (some head_of_a) ≡ ok laid
unfolding build_overlay contains add_key lookup insert keep_if symbol_key map_edge sort_by
    add_symbol
build-laid = refl

build_overlay-IsLaid_example : IsLaid "|" base_graph (change_of_a ∷ []) head_of_a laid
build_overlay-IsLaid_example =
    build_overlay-IsLaid "|" base_graph (change_of_a ∷ []) head_of_a quoted_path laid (omega arith)
      build-laid
