-- ===== src/Os/Files.antt =====
-- The file system and the stdio streams, as far as the client uses them.
use retriever.Base.{ℕ, ◌+◌, ◌-◌, Bool, true, false, ◌&&◌, List, [], ◌∷◌, ◌++◌, ◌==◌}
use retriever.Base.{Option, some, none, if◌then◌else◌, length, take, drop, bytes_eq}
use retriever.Os.World.{Bytes, Key, Node, regular, special}
use retriever.Os.Program.{M, ok, err, draw, drawn}

abbrev pub named : Bytes → Key → Key
named name rest =
    if bytes_eq name [] then rest else (if bytes_eq name (b'.' ∷ []) then rest else name ∷ rest)

-- How the kernel reads a path: the names between slashes, without empty ones and ".". An absolute
-- path begins at the empty name. The name ".." and links are not followed.
unfoldable pub components : Bytes → Bytes → Key
components name [] = named name []
components name (b ∷ path) =
    let rest = components [] path in
    let more = components (name ++ (b ∷ [])) path in if b == b'/' then named name rest else more

unfoldable pub is_absolute : Bytes → Bool
is_absolute [] = false
is_absolute (b ∷ path) = b == b'/'

unfoldable pub resolve : Bytes → Key
resolve path = let names = components [] path in if is_absolute path then [] ∷ names else names

unfoldable pub key_eq : Key → Key → Bool
key_eq [] [] = true
key_eq [] (y ∷ ys) = false
key_eq (x ∷ xs) [] = false
key_eq (x ∷ xs) (y ∷ ys) = bytes_eq x y && key_eq xs ys

unfoldable pub lookup : Key → List (Key × Node) → Option Node
lookup k [] = none
lookup k ((j, v) ∷ m) = if key_eq k j then some v else lookup k m

unfoldable pub insert : Key → Node → List (Key × Node) → List (Key × Node)
insert k v [] = (k, v) ∷ []
insert k v ((j, w) ∷ m) = if key_eq k j then (k, v) ∷ m else (j, w) ∷ insert k v m

unfoldable pub erase : Key → List (Key × Node) → List (Key × Node)
erase k [] = []
erase k ((j, w) ∷ m) = let rest = erase k m in if key_eq k j then rest else (j, w) ∷ rest

-- `stat`, which fails where there is nothing.
unfoldable pub stat : Bytes → M Node
stat path w =
    let w' = record w { faults = drawn w.faults } in
    if draw w.faults
    then err w'
    else elim (lookup (resolve path) w.files) [ none ↦ err w' | some node ↦ ok node w' ]

abbrev pub node_size : Node → ℕ
node_size (regular bytes) = length bytes
node_size (special size) = size

-- A stream that is read: what is still to be read, and its error flag.
pub record Stream : Type 0 where
  pub rest : Bytes
  pub failed : Bool

-- `fopen(path, "rb")`
unfoldable pub open_read : Bytes → M Stream
open_read path w =
    let w' = record w { faults = drawn w.faults } in
    if draw w.faults then err w' else elim (lookup (resolve path) w.files) [
      | some (regular bytes) ↦
          ok (record { rest = bytes; failed = false }) (record w' { handles = w.handles + 1 })
      | some (special size) ↦ err w'
      | none ↦ err w'
    ]

-- `fread(buf, 1, n, in)`; a read that fails gives nothing and sets the flag.
unfoldable pub fread : ℕ → Stream → M (Bytes × Stream)
fread n s w =
    let w' = record w { faults = drawn w.faults } in
    if draw w.faults
    then ok ([], record s { failed = true }) w'
    else ok (take n s.rest, record s { rest = drop n s.rest }) w'

-- `fseeko(in, offset, SEEK_SET)` on a stream that is just opened.
unfoldable pub seek : ℕ → Stream → M Stream
seek offset s w =
    let w' = record w { faults = drawn w.faults } in
    if draw w.faults then err w' else ok (record s { rest = drop offset s.rest }) w'

-- `fclose` where its result is not looked at, and `closedir` and `freeaddrinfo`.
unfoldable pub release : M (Unit {0})
release w = ok tt (record w { handles = w.handles - 1 })

abbrev pub kept : Option Node → Option Node
kept none = some (regular [])
kept (some (regular bytes)) = some (regular bytes)
kept (some (special size)) = none

abbrev pub emptied : Option Node → Option Node
emptied none = some (regular [])
emptied (some (regular bytes)) = some (regular [])
emptied (some (special size)) = none

-- `fopen(path, append ? "ab" : "wb")`
unfoldable pub open_write : Bytes → Bool → M (Unit {0})
open_write path append w =
    let w' = record w { faults = drawn w.faults } in
    let old = lookup (resolve path) w.files in
    if draw w.faults then err w' else elim (if append then kept old else emptied old) [
      | none ↦ err w'
      | some node ↦
          ok tt (record w' { files = insert (resolve path) node w.files; handles = w.handles + 1 })
    ]

abbrev extended : Option Node → Bytes → Node
extended (some (regular old)) bytes = regular (old ++ bytes)
extended (some (special size)) bytes = special size
extended none bytes = regular bytes

-- `fwrite` at the end of the file; a write that fails stores nothing.
unfoldable pub fwrite : Bytes → Bytes → M (Unit {0})
fwrite path bytes w =
    let w' = record w { faults = drawn w.faults } in
    if draw w.faults
    then err w'
    else ok tt (record w' {
      files = insert (resolve path) (extended (lookup (resolve path) w.files) bytes) w.files;
    })

-- `fclose` of a written file, which may fail to flush; the stream is closed all the same.
unfoldable pub close_written : M (Unit {0})
close_written w =
    let w' = record w { faults = drawn w.faults; handles = w.handles - 1 } in
    if draw w.faults then err w' else ok tt w'

-- `remove`, where its result is not looked at.
unfoldable pub remove : Bytes → M (Unit {0})
remove path w =
    let w' = record w { faults = drawn w.faults } in
    if draw w.faults then ok tt w' else ok tt (record w' { files = erase (resolve path) w.files })

-- `rename`, which replaces what the new name stood for.
unfoldable pub rename : Bytes → Bytes → M (Unit {0})
rename old new w =
    let w' = record w { faults = drawn w.faults } in
    if draw w.faults then err w' else elim (lookup (resolve old) w.files) [
      | none ↦ err w'
      | some node ↦
          ok tt (record w' { files = insert (resolve new) node (erase (resolve old) w.files) })
    ]

-- The name of a place within a directory.
unfoldable pub name_in : Key → Key → Option Bytes
name_in [] [] = none
name_in [] (name ∷ []) = some name
name_in [] (name ∷ more ∷ rest) = none
name_in (d ∷ dir) [] = none
name_in (d ∷ dir) (name ∷ rest) = if bytes_eq d name then name_in dir rest else none

abbrev consed : Option Bytes → List Bytes → List Bytes
consed none names = names
consed (some name) names = name ∷ names

unfoldable pub entries : Key → List (Key × Node) → List Bytes
entries dir [] = []
entries dir ((k, node) ∷ m) = consed (name_in dir k) (entries dir m)

-- `opendir`, with all that `readdir` will give.
unfoldable pub open_dir : Bytes → M (List Bytes)
open_dir path w =
    let w' = record w { faults = drawn w.faults } in
    if draw w.faults
    then err w'
    else ok (entries (resolve path) w.files) (record w' { handles = w.handles + 1 })
