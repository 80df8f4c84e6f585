-- ===== src/Sfs/Object.antt =====
-- The R objects that src/sfs.c reads and builds, as far as it looks at them, with the type codes of R (the same numbers that
-- `type_name` of src/mem_store.c lists). An object is a tree here: R shares no mutable parts of a
-- value that is serialised.
use osrv.Base.{ℕ, suc, Bool, true, false, List, [], ◌∷◌, ◌==◌, if◌then◌else◌}
use osrv.Base.Bytes.{Bytes}

-- The vectors whose memory is one block.
pub data Atom : Type 0 where
  lgl int real cplx raw : Atom

-- The kinds of cell that a linked list is made of.
pub data Cell : Type 0 where
  list lang : Cell

pub data Env : Type 0 where
  global empty base : Env
  custom : ℕ → Env

mutual
  -- A symbol holds its name, which is empty for R_MissingArg. A vector holds its XLENGTH and its
  -- memory, a character vector the CHAR of each string: NA_STRING is the text NA, and encodings are
  -- not seen. `cells` is a linked list that is not
  -- R_NilValue: the type of its first cell, its first tag and value, and the rest, of whose cells
  -- sfs.c does not look at the types. `other` is any type that sfs.c does not name.
  pub data Sexp : Type 0 where
    nil : Sexp
    sym : Bytes → Sexp
    vec : Atom → Meta → ℕ → Bytes → Sexp
    str : Meta → List Bytes → Sexp
    generic : Meta → Sexps → Sexp
    s4 : Meta → Sexp
    cells : Cell → Meta → Sexp → Sexp → Pairs → Sexp
    clo : Meta → Sexp → Body → Sexp → Sexp
    env : Env → Sexp
    chr : Bytes → Sexp
    other : ℕ → Sexp

  pub data Sexps : Type 0 where
    done : Sexps
    more : Sexp → Sexps → Sexps

  -- Tags and values of the cells of a linked list.
  pub data Pairs : Type 0 where
    end : Pairs
    pair : Sexp → Sexp → Pairs → Pairs

  -- The OBJECT bit and ATTRIB of a header.
  pub data Meta : Type 0 where
    header : Bool → Pairs → Meta

  -- The body of a closure: an expression, or byte code that was compiled from it.
  pub data Body : Type 0 where
    expr : Sexp → Body
    byte_code : Sexp → Body

abbrev pub plain : Meta
plain = header false end

-- TYPEOF of a vector, and the size of its elements.
abbrev pub type_of : Atom → ℕ
type_of lgl = 10
type_of int = 13
type_of real = 14
type_of cplx = 15
type_of raw = 24

abbrev pub elem_size : Atom → ℕ
elem_size lgl = 4
elem_size int = 4
elem_size real = 8
elem_size cplx = 16
elem_size raw = 1

abbrev pub cell_type : Cell → ℕ
cell_type list = 2
cell_type lang = 6

-- The virtual type that precedes an object with attributes.
abbrev pub attrsxp : ℕ
attrsxp = 255

abbrev pub sfs_empty_env : ℕ
sfs_empty_env = 0xf0000000000000

abbrev pub sfs_global_env : ℕ
sfs_global_env = 0xf0000000000001

abbrev pub sfs_base_env : ℕ
sfs_base_env = 0xf0000000000002

abbrev pub count : Sexps → ℕ
count done = 0
count (more x xs) = suc (count xs)

abbrev pub count_pairs : Pairs → ℕ
count_pairs end = 0
count_pairs (pair t v ps) = suc (count_pairs ps)

-- The name of R_ClassSymbol, the text "class".
abbrev pub class_name : Bytes
class_name = b'c' ∷ b'l' ∷ b'a' ∷ b's' ∷ b's' ∷ []

unfoldable pub same_bytes : Bytes → Bytes → Bool
same_bytes [] [] = true
same_bytes (a ∷ as') (b ∷ bs) = let rest = same_bytes as' bs in if a == b then rest else false
same_bytes _ _ = false

unfoldable pub is_class : Sexp → Bool
unfolding same_bytes
is_class (sym s) = same_bytes s class_name
is_class _ = false

-- The search of a list of attributes for R_ClassSymbol.
unfoldable pub has_class : Pairs → Bool
unfolding is_class
has_class end = false
has_class (pair t v ps) = let rest = has_class ps in if is_class t then true else rest
