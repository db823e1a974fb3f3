-- ===== src/Graph/Overlay.antt =====
-- internal/hosted/graph/overlay.go: the graph of a pull request's head, laid over that of the base.
mod Tests
pub mod Heads
pub mod Built
pub mod Laid
use px.Prelude.{
  ℕ, suc, ◌+◌, String, Bool, true, false, not, ◌&&◌, ◌||◌, Option, none, some, List, [], ◌∷◌, ◌++◌,
  map, Result, ok, err, ◌>>=◌, str_eq, if◌then◌else◌, keep_if,
}
use px.Prelude.Int.{ℤ, pos, negsuc, leb_ℤ, eqb_ℤ}
use px.Prelude.Text.{str_lt}
use px.Prelude.Sort.{sort_by}
use px.Prelude.Maps.{contains, add_key, lookup, insert, int_eq, string_eq}
use Prim.Native.String.{◌++◌ as concat}

pub record OverlaySymbol : Type 0 where
  pub id : ℤ
  pub path : String
  pub kind : String
  pub name : String
  pub signature : String
  pub start_line : ℤ
  pub end_line : ℤ

pub record OverlayEdge : Type 0 where
  pub source_id : ℤ
  pub target_id : ℤ
  pub target : String
  pub kind : String

pub record Snapshot : Type 0 where
  pub symbols : List OverlaySymbol
  pub edges : List OverlayEdge

pub record ChangedFile : Type 0 where
  pub path : String
  pub blob_sha : String
  pub content : String
  pub deleted : Bool

-- `ParseGraph`, which reads one file of the head.
abbrev pub HeadParser : Type 0
HeadParser = ChangedFile → Result (List OverlaySymbol × List OverlayEdge)

pub record SymbolDelta : Type 0 where
  pub added : List OverlaySymbol
  pub removed : List OverlaySymbol
  pub modified : List OverlaySymbol

pub record Overlay : Type 0 where
  pub graph : Snapshot
  pub delta : SymbolDelta

-- What the source writes as "\x00": `nul` is a text of that one character.
module _ (nul : String) where
  unfoldable pub symbol_key : OverlaySymbol → String
  symbol_key s = concat s.path (concat nul (concat s.kind (concat nul s.name)))

  abbrev pub by_key : OverlaySymbol → OverlaySymbol → Bool
  by_key a b = str_lt (symbol_key a) (symbol_key b)

abbrev pub invalid_change : ChangedFile → Bool
invalid_change c = str_eq c.path "" || (not c.deleted && str_eq c.blob_sha "")

-- The first loop: the paths of the changes.
unfoldable pub changed_paths :
    (String → String) → List String → List ChangedFile → Result (List String)
changed_paths quote changed [] = ok changed
changed_paths quote changed (c ∷ cs) =
    let rest = changed_paths quote (add_key c.path changed) cs in
    if invalid_change c
    then err "changed files require path and blob SHA"
    else if contains c.path changed
    then err (concat "duplicate changed path " (quote c.path))
    else rest

-- A missing key of a `map[int64]int64` reads as 0.
abbrev pub id_at : ℤ → List (ℤ × ℤ) → ℤ
id_at k m = elim (lookup k m) [ none ↦ pos 0 | some v ↦ v ]

-- `removedIDs`
unfoldable pub removed_ids : List String → List OverlaySymbol → List ℤ
removed_ids changed [] = []
removed_ids changed (s ∷ ss) =
    let rest = removed_ids changed ss in if contains s.path changed then add_key s.id rest else rest

-- `baseByKey`
unfoldable pub base_by_key :
    String
    → List String
    → List (String × OverlaySymbol)
    → List OverlaySymbol
    → List (String × OverlaySymbol)
base_by_key nul changed m [] = m
base_by_key nul changed m (s ∷ ss) =
    base_by_key nul changed (if contains s.path changed then insert (symbol_key nul s) s m else m)
      ss

-- What the loop over the changes builds. `next` counts the symbols so far: the next ID is -(next + 1).
pub record Build : Type 0 where
  pub next : ℕ
  pub symbols : List OverlaySymbol
  pub edges : List OverlayEdge
  pub added : List OverlaySymbol
  pub modified : List OverlaySymbol
  pub seen_head : List String
  pub replacements : List (ℤ × ℤ)

abbrev pub invalid_symbol : ChangedFile → List (ℤ × ℤ) → OverlaySymbol → Bool
invalid_symbol c ids s =
    leb_ℤ s.id (pos 0)
    || not (str_eq s.path c.path)
    || str_eq s.kind ""
    || str_eq s.name ""
    || not (eqb_ℤ (id_at s.id ids) (pos 0))

abbrev pub differs : OverlaySymbol → OverlaySymbol → Bool
differs old s =
    not (str_eq old.signature s.signature)
    || not (eqb_ℤ old.start_line s.start_line)
    || not (eqb_ℤ old.end_line s.end_line)

module _ (nul : String) (base : List (String × OverlaySymbol)) where
  -- The symbol's entry in the delta.
  unfoldable pub note_delta : OverlaySymbol → Build → Build
  note_delta s b = elim (lookup (symbol_key nul s) base) [
    | none ↦ record b { added = b.added ++ s ∷ [] }
    | some old ↦ record b {
      replacements = insert old.id s.id b.replacements;
      modified = b.modified ++ (if differs old s then s ∷ [] else []);
    }
  ]

  -- One symbol of the head, with its new ID.
  unfoldable pub add_symbol : OverlaySymbol → Build → Build
  unfolding note_delta
  add_symbol s b =
      let renamed = record s { id = negsuc b.next } in
      let noted = note_delta renamed b in
      record noted {
        next = b.next + 1;
        seen_head = add_key (symbol_key nul renamed) b.seen_head;
        symbols = b.symbols ++ renamed ∷ [];
      }

  -- The loop over the symbols of one file; the map of their IDs comes with it.
  unfoldable pub add_symbols :
      ChangedFile → List (ℤ × ℤ) → Build → List OverlaySymbol → Result (Build × List (ℤ × ℤ))
  add_symbols c ids b [] = ok (b, ids)
  add_symbols c ids b (s ∷ ss) =
      let rest = add_symbols c (insert s.id (negsuc b.next) ids) (add_symbol s b) ss in
      if invalid_symbol c ids s
      then err "overlay parser returned an invalid or duplicate symbol"
      else rest

-- An edge of the head, between the new IDs; a target that the file does not have keeps its ID.
unfoldable pub map_edge : List (ℤ × ℤ) → OverlayEdge → OverlayEdge
map_edge ids e = record e {
  source_id = id_at e.source_id ids;
  target_id = if eqb_ℤ (id_at e.target_id ids) (pos 0) then e.target_id else id_at e.target_id ids;
}

unfoldable pub map_edges : List (ℤ × ℤ) → List OverlayEdge → Result (List OverlayEdge)
map_edges ids [] = ok []
map_edges ids (e ∷ es) =
    let mapped = map_edge ids e in
    let rest = map_edges ids es >>= λ others. ok (mapped ∷ others) in
    if eqb_ℤ mapped.source_id (pos 0)
    then err "overlay edge has an unknown source symbol"
    else if eqb_ℤ mapped.target_id (pos 0) && str_eq e.target ""
    then err "overlay edge requires a resolved or unresolved target"
    else rest

module _ (nul : String) (parser : HeadParser) (base : List (String × OverlaySymbol)) where
  abbrev pub add_parsed :
      ChangedFile → Build → Result (List OverlaySymbol × List OverlayEdge) → Result Build
  add_parsed c b (err e) = err (concat "parse graph overlay for " (concat c.path (concat ": " e)))
  add_parsed c b (ok parsed) = add_symbols nul base c [] b parsed.0 >>= λ made.
      map_edges made.1 parsed.1 >>= λ edges.
      ok (record (made.0) { edges = (made.0).edges ++ edges })

  unfoldable pub add_change : ChangedFile → Build → Result Build
  unfolding add_symbols map_edges
  add_change c b = if c.deleted then ok b else add_parsed c b (parser c)

  unfoldable pub add_changes : List ChangedFile → Build → Result Build
  unfolding add_change
  add_changes [] b = ok b
  add_changes (c ∷ cs) b = add_change c b >>= λ b'. add_changes cs b'

-- A base edge, moved from the removed symbols to their replacements, if it still has its ends.
unfoldable pub move_edge : List ℤ → List (ℤ × ℤ) → OverlayEdge → OverlayEdge
move_edge removed replacements e = record e {
  source_id = if contains e.source_id removed then id_at e.source_id replacements else e.source_id;
  target_id = if contains e.target_id removed then id_at e.target_id replacements else e.target_id;
}

abbrev pub has_ends : OverlayEdge → Bool
has_ends e =
    not (eqb_ℤ e.source_id (pos 0)) && (not (eqb_ℤ e.target_id (pos 0)) || not (str_eq e.target ""))

-- `removed` for the keys that the head does not have.
unfoldable pub unseen : List String → List (String × OverlaySymbol) → List OverlaySymbol
unseen seen [] = []
unseen seen ((k, s) ∷ m) =
    let rest = unseen seen m in if not (contains k seen) then s ∷ rest else rest

abbrev pub started : List OverlaySymbol → Build
started kept = record {
  next = 0;
  symbols = kept;
  edges = [];
  added = [];
  modified = [];
  seen_head = [];
  replacements = [];
}

-- What follows the loop over the changes.
unfoldable pub finish :
    String → List ℤ → List (String × OverlaySymbol) → List OverlayEdge → Build → Overlay
unfolding unseen move_edge
finish nul removed base edges b = record {
  graph = record {
    symbols = b.symbols;
    edges = b.edges ++ keep_if has_ends (map (move_edge removed b.replacements) edges);
  };
  delta = record {
    added = sort_by (by_key nul) b.added;
    removed = sort_by (by_key nul) (unseen b.seen_head base);
    modified = sort_by (by_key nul) b.modified;
  };
}

unfoldable pub build_overlay :
    (String → String) → String → Snapshot → List ChangedFile → Option HeadParser → Result Overlay
unfolding changed_paths removed_ids base_by_key add_changes finish
build_overlay quote nul base changes none = err "head graph parser is required"
build_overlay quote nul base changes (some parser) = changed_paths quote [] changes >>= λ changed.
    let by_key_of_base = base_by_key nul changed [] base.symbols in
    add_changes nul parser by_key_of_base changes
      (started (keep_if (λ s. not (contains s.path changed)) base.symbols))
    >>= λ b. ok (finish nul (removed_ids changed base.symbols) by_key_of_base base.edges b)
