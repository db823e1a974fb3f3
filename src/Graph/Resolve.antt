-- ===== src/Graph/Resolve.antt =====
-- internal/hosted/graph/resolve.go: references resolved to the symbols that they name.
pub mod Accepted
pub mod Targets
mod Tests
use Prim.Native.Char.{nul}
use Prim.Native.String.{◌++◌ as concat, len, slice}
use px.Prelude.{
  ℕ, ◌+◌, ◌*◌, ◌-◌, ◌^◌, String, Bool, true, false, not, ◌&&◌, ◌||◌, Option, none, some, List, [],
  ◌∷◌, ◌++◌, str_eq, if◌then◌else◌, Result, ok, err, ◌>>=◌, ◌>>◌, refuse_if, ◌==◌, length,
}
use px.Prelude.Int.{ℤ, pos, ltb_ℤ, leb_ℤ}
use px.Prelude.Float.{Float}
use px.Prelude.Text.{has_prefix, trim_prefix, has_suffix}
use px.Prelude.Sort.{sort_by}
use px.Prelude.Maps.{contains, lookup, insert, string_eq, int_eq}
use px.Prelude.Paths.{clean, dir, ext}

pub record Symbol : Type 0 where
  pub id : ℤ
  pub path : String
  pub name : String
  pub kind : String
  pub signature : String
  pub start_line : ℤ
  pub end_line : ℤ

pub record Reference : Type 0 where
  pub source_symbol_id : ℤ
  pub source_path : String
  pub source_line : ℤ
  pub kind : String
  pub target : String
  pub target_path : String

pub record ResolvedEdge : Type 0 where
  pub source_symbol_id : ℤ
  pub target_symbol_id : ℤ
  pub unresolved : String
  pub kind : String
  pub confidence : Float
  pub source_path : String
  pub source_line : ℤ

-- The float64 values .9, .75 and .2.
unfoldable pub nine_tenths_f : Float
nine_tenths_f = pos (8106479329266893 * 2 ^ 1021)

unfoldable pub three_quarters_f : Float
three_quarters_f = pos (3 * 2 ^ 1072)

unfoldable pub fifth_f : Float
fifth_f = pos (3602879701896397 * 2 ^ 1020)

-- A map from texts to lists of symbols; a missing key reads the empty list.
abbrev pub Groups : Type 0
Groups = List (String × List Symbol)

unfoldable pub group : String → Groups → List Symbol
group key groups = elim (lookup key groups) [ none ↦ [] | some symbols ↦ symbols ]

unfoldable pub add_to_group : String → Symbol → Groups → Groups
add_to_group key symbol groups = insert key (group key groups ++ symbol ∷ []) groups

-- The maps of the resolver; of `byID` only the keys are read.
pub record SymbolIndex : Type 0 where
  pub by_id : List ℤ
  pub by_path_name : Groups
  pub by_name : Groups
  pub file_symbols : Groups

abbrev pub empty_index : SymbolIndex
empty_index = record { by_id = []; by_path_name = []; by_name = []; file_symbols = [] }

abbrev pub path_name : String → String → String
path_name path name = concat path (concat (String.◌∷◌ nul String.[]) name)

-- `strings.TrimSuffix`
unfoldable pub trim_suffix : String → String → String
trim_suffix s suffix =
    let kept = slice s 0 (len s - len suffix) in if has_suffix s suffix then kept else s

-- A path without its extension.
abbrev pub bare : String → String
bare path = trim_suffix path (ext path)

-- The two aliases of a path, one after the other.
unfoldable pub add_alias : String → Symbol → SymbolIndex → SymbolIndex
add_alias alias symbol index = record index {
  by_path_name = add_to_group (path_name alias symbol.name) symbol index.by_path_name;
  file_symbols = add_to_group alias symbol index.file_symbols;
}

unfoldable pub add_symbol : SymbolIndex → Symbol → SymbolIndex
add_symbol index symbol =
    let aliased =
      add_alias (bare (clean symbol.path)) symbol
        (add_alias (clean symbol.path) symbol (record index { by_id = symbol.id ∷ index.by_id })) in
    record aliased { by_name = add_to_group symbol.name symbol aliased.by_name }

abbrev pub invalid_symbol : Symbol → Bool
invalid_symbol s = leb_ℤ s.id (pos 0) || str_eq s.path "" || str_eq s.name ""

-- The loop over the symbols.
unfoldable pub index_symbols : SymbolIndex → List Symbol → Result SymbolIndex
index_symbols index [] = ok index
index_symbols index (symbol ∷ symbols) =
    refuse_if (invalid_symbol symbol) "symbols require ID, path, and name"
    >> refuse_if (contains symbol.id index.by_id) "symbol IDs must be unique"
    >> index_symbols (add_symbol index symbol) symbols

-- `path.Join(dir, path)`, whose parts are not both empty.
abbrev join_path : String → String → String
join_path dir path = if str_eq path "" then clean dir else clean (concat dir (concat "/" path))

-- `resolvePath`
unfoldable pub resolve_path : String → String → String
resolve_path source_path target_path = bare (
    if has_prefix target_path "."
    then clean (join_path (dir source_path) target_path)
    else trim_prefix (clean target_path) "./")

unfoldable pub first_of_each : List ℤ → List Symbol → List Symbol
first_of_each seen [] = []
first_of_each seen (symbol ∷ symbols) =
    let rest = first_of_each (symbol.id ∷ seen) symbols in
    let same_rest = first_of_each seen symbols in
    if contains symbol.id seen then same_rest else symbol ∷ rest

abbrev pub by_id_order : Symbol → Symbol → Bool
by_id_order a b = ltb_ℤ a.id b.id

-- `uniqueSymbols`
unfoldable pub unique_symbols : List Symbol → List Symbol
unique_symbols symbols = sort_by by_id_order (first_of_each [] symbols)

-- The symbols of a file, or those of its index file where it has none.
unfoldable pub file_or_index : SymbolIndex → String → List Symbol
file_or_index index path =
    if length (group path index.file_symbols) == 0
    then group (concat path "/index") index.file_symbols
    else group path index.file_symbols

-- `candidatesFor`
unfoldable pub candidates_for : SymbolIndex → Reference → List Symbol
candidates_for index r =
    if str_eq r.kind "imports"
    then unique_symbols (file_or_index index (resolve_path r.source_path r.target_path))
    else (if not (str_eq r.target_path "")
        then unique_symbols (
            group (path_name (resolve_path r.source_path r.target_path) r.target)
              index.by_path_name)
        else (if length (group (path_name (clean r.source_path) r.target) index.by_path_name) == 1
            then group (path_name (clean r.source_path) r.target) index.by_path_name
            else unique_symbols (group r.target index.by_name)))

-- `confidenceFor`
unfoldable pub confidence_for : Reference → Float
confidence_for r = if not (str_eq r.target_path "") then nine_tenths_f else three_quarters_f

abbrev pub edge_to : Reference → ℤ → String → Float → ResolvedEdge
edge_to r target unresolved confidence = record {
  source_symbol_id = r.source_symbol_id;
  target_symbol_id = target;
  unresolved = unresolved;
  kind = r.kind;
  confidence = confidence;
  source_path = r.source_path;
  source_line = r.source_line;
}

abbrev pub unresolved_name : Reference → String
unresolved_name r =
    if not (str_eq r.target_path "") then concat r.target_path (concat ":" r.target) else r.target

-- One candidate is the target; none, or several, leave the edge unresolved.
unfoldable pub edge_from : Reference → List Symbol → ResolvedEdge
edge_from r (symbol ∷ []) = edge_to r symbol.id "" (confidence_for r)
edge_from r [] = edge_to r (pos 0) (unresolved_name r) fifth_f
edge_from r (first ∷ second ∷ others) = edge_to r (pos 0) (unresolved_name r) fifth_f

abbrev pub invalid_reference : SymbolIndex → Reference → Bool
invalid_reference index r =
    not (contains r.source_symbol_id index.by_id)
    || str_eq r.source_path ""
    || leb_ℤ r.source_line (pos 0)
    || str_eq r.target ""

-- The loop over the references.
unfoldable pub resolve_references : SymbolIndex → List Reference → Result (List ResolvedEdge)
resolve_references index [] = ok []
resolve_references index (r ∷ rs) =
    refuse_if (invalid_reference index r)
      "references require a known source, path, line, and target"
    >> refuse_if (not (str_eq r.kind "calls") && not (str_eq r.kind "imports"))
        "resolver supports calls and imports"
    >> (resolve_references index rs >>= λ edges. ok (edge_from r (candidates_for index r) ∷ edges))

-- `Resolve`
unfoldable pub resolve : List Symbol → List Reference → Result (List ResolvedEdge)
resolve symbols references =
    index_symbols empty_index symbols >>= λ index. resolve_references index references
