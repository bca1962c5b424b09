-- ===== src/Examples/Trees.antt =====
-- JSON values as trees: what serde_json's `Value` is taken to be.
use ra_multiplex.Base.{Text, List, [], ◌∷◌, Bool, ◌≡◌, refl, ap}
use ra_multiplex.Base.Int.{ℤ}
use ra_multiplex.Base.HashMap.{HashMap}
use ra_multiplex.Serde.{Value, Shape}

mutual
  pub data Tree : Type 0 where
    void : Tree
    flag : Bool → Tree
    integer : ℤ → Tree
    decimal : Text → Tree
    quote : Text → Tree
    row : Row → Tree
    table : Table → Tree

  pub data Row : Type 0 where
    stop : Row
    cell : Tree → Row → Row

  pub data Table : Type 0 where
    empty : Table
    entry : Text → Tree → Table → Table

abbrev pub cells : Row → List Tree
cells stop = []
cells (cell v vs) = v ∷ cells vs

abbrev pub row_of : List Tree → Row
row_of [] = stop
row_of (v ∷ vs) = cell v (row_of vs)

abbrev pub entries : Table → HashMap Text Tree
entries empty = []
entries (entry k v es) = (k, v) ∷ entries es

abbrev pub table_of : HashMap Text Tree → Table
table_of [] = empty
table_of ((k, v) ∷ es) = entry k v (table_of es)

abbrev cells-row_of : (vs : List Tree) → cells (row_of vs) ≡ vs
cells-row_of [] = refl
cells-row_of (v ∷ vs) = ap (λ ws. v ∷ ws) (cells-row_of vs)

abbrev entries-table_of : (es : HashMap Text Tree) → entries (table_of es) ≡ es
entries-table_of [] = refl
entries-table_of ((k, v) ∷ es) = ap (λ fs. (k, v) ∷ fs) (entries-table_of es)

abbrev view_tree : Tree → Shape Tree
view_tree void = Shape.null
view_tree (flag b) = Shape.boolean b
view_tree (integer n) = Shape.number n
view_tree (decimal s) = Shape.float s
view_tree (quote s) = Shape.string s
view_tree (row vs) = Shape.array (cells vs)
view_tree (table es) = Shape.object (entries es)

abbrev build_tree : Shape Tree → Tree
build_tree Shape.null = void
build_tree (Shape.boolean b) = flag b
build_tree (Shape.number n) = integer n
build_tree (Shape.float s) = decimal s
build_tree (Shape.string s) = quote s
build_tree (Shape.array vs) = row (row_of vs)
build_tree (Shape.object es) = table (table_of es)

abbrev view_tree-build_tree : (s : Shape Tree) → view_tree (build_tree s) ≡ s
view_tree-build_tree Shape.null = refl
view_tree-build_tree (Shape.boolean b) = refl
view_tree-build_tree (Shape.number n) = refl
view_tree-build_tree (Shape.float s) = refl
view_tree-build_tree (Shape.string s) = refl
view_tree-build_tree (Shape.array vs) = ap Shape.array (cells-row_of vs)
view_tree-build_tree (Shape.object es) = ap Shape.object (entries-table_of es)

instance abbrev pub trees : Value Tree
trees = record { view = view_tree; build = build_tree; view-build = view_tree-build_tree }

abbrev pub texts : List Text → Tree
texts ss = row (quotes ss)
  where
    quotes : List Text → Row
    quotes [] = stop
    quotes (s ∷ rest) = cell (quote s) (quotes rest)
