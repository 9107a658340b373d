-- ===== src/FilePath.antt =====
-- What the program uses of path/filepath on Unix: Clean, Dir and Join.
use mathlib.Core.List.{reverse}
use grout_cni.Base.{
  ◌==◌, if◌then◌else◌, Bytes, codes, same, has_prefix, ℕ, Bool, ◌||◌, List, [], ◌∷◌, ◌++◌,
}

abbrev pub slash : ℕ
slash = b'/'

-- The parts between the slashes; there is always one.
unfoldable pub split : Bytes → Bytes → List Bytes
split part [] = part ∷ []
split part (c ∷ s) =
    let rest = split (if c == slash then [] else part ++ (c ∷ [])) s in
    if c == slash then part ∷ rest else rest

-- The parts that Clean keeps, the last one first.
abbrev pub push_part : Bool → List Bytes → Bytes → List Bytes
push_part rooted [] part = if rooted then [] else part ∷ []
push_part rooted (top ∷ kept) part = if same top (codes "..") then part ∷ top ∷ kept else kept

unfoldable pub clean_parts : Bool → List Bytes → List Bytes → List Bytes
clean_parts rooted kept [] = kept
clean_parts rooted kept (part ∷ parts) =
    clean_parts rooted
      (if same part [] || same part (codes ".")
        then kept
        else if same part (codes "..")
        then push_part rooted kept part
        else part ∷ kept)
      parts

unfoldable pub join_parts : List Bytes → Bytes
join_parts [] = []
join_parts (p ∷ []) = p
join_parts (p ∷ q ∷ ps) = p ++ (slash ∷ join_parts (q ∷ ps))

-- filepath.Clean
unfoldable pub clean : Bytes → Bytes
unfolding split clean_parts join_parts
clean path =
    let rooted = has_prefix path (slash ∷ []) in
    let body = join_parts (reverse (clean_parts rooted [] (split [] path))) in
    if rooted then slash ∷ body else if same body [] then codes "." else body

-- The path up to its last slash, the slash included.
unfoldable pub up_to_slash : Bytes → Bytes → Bytes
up_to_slash done [] = []
up_to_slash done (c ∷ s) =
    let done' = done ++ (c ∷ []) in
    let rest = up_to_slash (if c == slash then [] else done') s in
    if c == slash then done' ++ rest else rest

-- filepath.Dir
unfoldable pub dir : Bytes → Bytes
unfolding clean up_to_slash
dir path = clean (up_to_slash [] path)

-- filepath.Join of parts, of which the first is not empty.
unfoldable pub join : List Bytes → Bytes
unfolding clean join_parts
join parts = clean (join_parts parts)
