-- ===== src/Paths.antt =====
-- src/pages/Chat/workspace/paths.ts: workspace paths as texts of UTF-16 code units.
-- `String.prototype.normalize` needs the Unicode tables and is the parameter `nfc`.
pub mod Segments
pub mod Normalize
pub mod Within
pub mod Ancestors
pub mod Bytes
pub mod Tests
use mathlib.Core.List.{tail}
use grafana_pi_app.Prelude.{
  ℕ, zero, suc, ◌+◌, Bool, true, false, ◌&&◌, ◌||◌, Option, none, some, List, [], ◌∷◌, ◌++◌,
  reverse, Text, codes, length, take, drop, any, text_eq, starts_with, includes, lower_unit, leb,
  ltb, ◌==◌, if◌then◌else◌,
}

abbrev pub slash : ℕ
slash = b'/'

-- The messages of `WorkspacePathError`, one constructor for each `throw`.
pub data PathError : Type 0 where
  required nul_byte backslash percent_encoded not_nfc escapes_root segment_too_long : PathError
  path_too_long : PathError

pub data Checked {ℓ} (A : Type ℓ) : Type ℓ where
  ok : A → Checked A
  err : PathError → Checked A

infixl 5 ◌>>=◌
abbrev pub ◌>>=◌ {ℓ κ} : {A : Type ℓ} {B : Type κ} → Checked A → (A → Checked B) → Checked B
ok a >>= f = f a
err e >>= f = err e

abbrev max_path_bytes : ℕ
max_path_bytes = 1024

abbrev max_segment_bytes : ℕ
max_segment_bytes = 255

-- The white space and line terminators that `trim` removes.
unfoldable pub is_space : ℕ → Bool
is_space c =
    leb 9 c && leb c 13
    || c == 32
    || c == 160
    || c == 0xfeff
    || c == 0x1680
    || leb 0x2000 c && leb c 0x200a
    || c == 0x2028
    || c == 0x2029
    || c == 0x202f
    || c == 0x205f
    || c == 0x3000

unfoldable pub trim_start : Text → Text
unfolding is_space
trim_start [] = []
trim_start (c ∷ s) = if is_space c then trim_start s else c ∷ s

unfoldable pub trim : Text → Text
unfolding trim_start
trim s = reverse (trim_start (reverse (trim_start s)))

-- The number of UTF-8 bytes. A leading surrogate takes the next unit with it.
unfoldable pub utf8_byte_length : Text → ℕ
utf8_byte_length [] = 0
utf8_byte_length (c ∷ []) = if ltb c 0x80 then 1 else if ltb c 0x800 then 2 else 3
utf8_byte_length (c ∷ d ∷ s) =
    let next = utf8_byte_length (d ∷ s) in
    let after = utf8_byte_length s in
    if ltb c 0x80
    then 1 + next
    else if ltb c 0x800
    then 2 + next
    else if leb 0xd800 c && leb c 0xdbff
    then 4 + after
    else 3 + next

-- `text.split(separator)` for one code unit.
unfoldable pub split : ℕ → Text → List Text
split c [] = [] ∷ []
split c (x ∷ s) =
    let rest = split c s in
    if x == c then [] ∷ rest else elim rest [ [] ↦ (x ∷ []) ∷ [] | p ∷ ps ↦ (x ∷ p) ∷ ps ]

-- `segments.join('/')`.
unfoldable pub join : List Text → Text
join [] = []
join (p ∷ []) = p
join (p ∷ q ∷ ps) = p ++ slash ∷ join (q ∷ ps)

-- `/${segments.join('/')}`
unfoldable pub render : List Text → Text
unfolding join
render segments = slash ∷ join segments

abbrev dot : Text
dot = codes "."

abbrev dot_dot : Text
dot_dot = codes ".."

-- One round of the loop over the segments; the last segment stands at the head.
push_segment : Bool → List Text → Text → Checked (List Text)
push_segment clamp segments segment =
    if text_eq segment [] || text_eq segment dot
    then ok segments
    else if text_eq segment dot_dot
    then (elim segments [ [] ↦ if clamp then ok [] else err escapes_root | _ ∷ rest ↦ ok rest ])
    else if ltb max_segment_bytes (utf8_byte_length segment)
    then err segment_too_long
    else ok (segment ∷ segments)

unfoldable pub resolve : Bool → List Text → List Text → Checked (List Text)
unfolding push_segment
resolve clamp segments [] = ok (reverse segments)
resolve clamp segments (part ∷ parts) = do
  next ← push_segment clamp segments part
  resolve clamp next parts

-- `/%2f|%5c|%00|%2e/i`
abbrev lower : Text → Text
lower [] = []
lower (c ∷ s) = lower_unit c ∷ lower s

unfoldable pub has_encoded : Text → Bool
unfolding starts_with
has_encoded [] = false
has_encoded (c ∷ s) =
    any (starts_with (lower (c ∷ s))) (codes "%2f" ∷ codes "%5c" ∷ codes "%00" ∷ codes "%2e" ∷ [])
    || has_encoded s

-- `cwd.replace(/\/+$/, '')`
abbrev drop_slashes : Text → Text
drop_slashes [] = []
drop_slashes (c ∷ s) = if c == slash then drop_slashes s else c ∷ s

unfoldable pub strip_slashes : Text → Text
strip_slashes cwd = reverse (drop_slashes (reverse cwd))

module _ (nfc : Text → Text) where
  -- The checks of the trimmed text, in their order.
  unfoldable pub check_raw : Text → Option PathError
  unfolding has_encoded text_eq
  check_raw raw =
      if text_eq raw []
      then some required
      else if includes 0 raw
      then some nul_byte
      else if includes b'\\' raw
      then some backslash
      else if has_encoded raw
      then some percent_encoded
      else if text_eq raw (nfc raw)
      then none
      else some not_nfc

  unfoldable pub absolute : Text → Text → Text
  unfolding strip_slashes starts_with
  absolute cwd raw = if starts_with raw (slash ∷ []) then raw else strip_slashes cwd ++ slash ∷ raw

  finish : List Text → Checked Text
  unfolding render utf8_byte_length
  finish segments =
      if ltb max_path_bytes (utf8_byte_length (render segments))
      then err path_too_long
      else ok (render segments)

  -- `normalizeWorkspacePath`, from its second statement: the path is a string.
  pub normalize_workspace_path : Text → Text → Bool → Checked Text
  unfolding check_raw absolute resolve split finish trim
  normalize_workspace_path path cwd clamp =
      let raw = trim path in
      elim (check_raw raw) [
        | some e ↦ err e
        | none ↦ do segments ← resolve clamp [] (split slash (absolute cwd raw)); finish segments
      ]

unfoldable pub is_within : Text → Text → Bool
unfolding text_eq starts_with
is_within path root =
    if text_eq root (slash ∷ [])
    then true
    else text_eq path root || starts_with path (root ++ slash ∷ [])

-- `lastIndexOf('/')`; `none` for -1.
unfoldable pub last_slash : Text → Option ℕ
last_slash [] = none
last_slash (c ∷ s) = elim (last_slash s) [
  | some i ↦ some (suc i)
  | none ↦ if c == slash then some 0 else none
]

unfoldable pub parent_path : Text → Text
unfolding last_slash text_eq
parent_path path = if text_eq path (slash ∷ []) then slash ∷ [] else elim (last_slash path) [
  | none ↦ slash ∷ []
  | some zero ↦ slash ∷ []
  | some (suc i) ↦ take (suc i) path
]

unfoldable pub base_name : Text → Text
unfolding last_slash
base_name path = elim (last_slash path) [ none ↦ path | some i ↦ drop (suc i) path ]

unfoldable pub join_path : Text → Text → Text
unfolding text_eq
join_path dir name = if text_eq dir (slash ∷ []) then slash ∷ name else dir ++ slash ∷ name

-- The loop of `ancestorDirs`, on fuel: `unshift` puts each parent in front.
unfoldable pub ancestors_from : ℕ → Text → List Text → List Text
ancestors_from zero current dirs = dirs
ancestors_from (suc fuel) current dirs =
    let rest = ancestors_from fuel (parent_path current) (current ∷ dirs) in
    if text_eq current (slash ∷ []) then dirs else rest

unfoldable pub ancestor_dirs : Text → List Text
ancestor_dirs path = ancestors_from (suc (length path)) (parent_path path) []

-- The bytes that the loop of `truncateUtf8` counts for the code unit at hand.
unfoldable pub unit_width : ℕ → ℕ
unit_width c =
    if ltb c 0x80
    then 1
    else if ltb c 0x800
    then 2
    else if leb 0xd800 c && leb c 0xdbff
    then 4
    else 3

-- The loop of `truncateUtf8`: what it keeps of the rest, `bytes` being counted already.
unfoldable pub truncate_from : ℕ → ℕ → Text → Text
unfolding unit_width
truncate_from max bytes [] = []
truncate_from max bytes (c ∷ []) = if ltb max (bytes + unit_width c) then [] else c ∷ []
truncate_from max bytes (c ∷ d ∷ s) =
    let one = truncate_from max (bytes + unit_width c) (d ∷ s) in
    let two = truncate_from max (bytes + unit_width c) s in
    if ltb max (bytes + unit_width c)
    then []
    else if unit_width c == 4
    then c ∷ d ∷ two
    else c ∷ one

unfoldable pub truncate_utf8 : Text → ℕ → Text × Bool
unfolding utf8_byte_length truncate_from
truncate_utf8 value max_bytes =
    if leb (utf8_byte_length value) max_bytes
    then (value, false)
    else (truncate_from max_bytes 0 value, true)
