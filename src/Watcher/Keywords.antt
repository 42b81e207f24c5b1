-- ===== src/Watcher/Keywords.antt =====
-- The keywords and the references that internal/watcher/refiner.go looks for in a raw memory. Lower case
-- is that of ASCII: the keywords are ASCII or without case. The list of the language indicators is a
-- map in the source, here in one of its orders.
use Prim.Native.Char.{code}
use Prim.Native.String.{◌++◌ as str_append}
use vatbrain.Prelude.{
  ℕ, Bool, ◌||◌, nat_eq, String, string_eq, ◌==◌, ◌!=◌, List, [], ◌∷◌, ◌++◌, Option, none, some,
  any, length, take, leb, if◌then◌else◌,
}
use vatbrain.Prelude.Dict.{Dict, lookup}
use vatbrain.Prelude.Format.{starts_with, contains}
use vatbrain.Prelude.Text.{Text, codes, text_eq}
use vatbrain.Models.Common.{TaskType, task_debug, task_feature, task_refactor, task_review}
use vatbrain.Core.Gate.{to_lower, is_alpha_num}

-- The extensions of `entityRe`, in the order in which they are tried.
abbrev pub extensions : List String
extensions = "go" ∷ "proto" ∷ "ts" ∷ "tsx" ∷ "js" ∷ "py" ∷ "java" ∷ "rs" ∷ []

unfoldable pub first_extension : List String → String → Option String
first_extension [] s = none
first_extension (e ∷ es) s =
    let rest = first_extension es s in if starts_with (codes s) (codes e) then some e else rest

-- `\.(go|...)`
unfoldable pub extension : String → Option String
unfolding first_extension
extension String.[] = none
extension (String.◌∷◌ c s) =
    if code c == 46
    then elim (first_extension extensions s) [ none ↦ none | some e ↦ some (str_append "." e) ]
    else none

-- `[\w./-]`
unfoldable pub is_path_char : ℕ → Bool
is_path_char c = is_alpha_num c || c == 95 || c == 46 || c == 47 || c == 45

-- The rest of `[\w./-]+\.(go|...)` after its first character: the longest path that has an extension.
unfoldable pub path_rest : String → Option String
unfolding extension is_path_char
path_rest String.[] = none
path_rest (String.◌∷◌ c s) =
    let longer : Option String = if is_path_char (code c) then path_rest s else none in
    elim longer [ some m ↦ some (String.◌∷◌ c m) | none ↦ extension (String.◌∷◌ c s) ]

unfoldable pub path : String → Option String
unfolding path_rest
path String.[] = none
path (String.◌∷◌ c s) =
    if is_path_char (code c)
    then elim (path_rest s) [ none ↦ none | some m ↦ some (String.◌∷◌ c m) ]
    else none

-- `extractEntityID`: the first reference, without its at sign
unfoldable pub extract_entity_id : String → String
unfolding path
extract_entity_id String.[] = ""
extract_entity_id (String.◌∷◌ c s) =
    let later = extract_entity_id s in
    elim (path s) [ none ↦ later | some m ↦ if code c == 64 then m else later ]

abbrev pub indicators : List (String × String)
indicators =
    ("go", "go")
    ∷ ("golang", "go")
    ∷ ("proto", "proto")
    ∷ ("protobuf", "proto")
    ∷ ("typescript", "typescript")
    ∷ ("ts", "typescript")
    ∷ ("tsx", "typescript")
    ∷ ("python", "python")
    ∷ ("py", "python")
    ∷ ("rust", "rust")
    ∷ ("rs", "rust")
    ∷ ("java", "java")
    ∷ ("javascript", "javascript")
    ∷ ("js", "javascript")
    ∷ []

indicated : List (String × String) → Text → String
indicated [] t = "zh"
indicated ((keyword, lang) ∷ rest) t =
    let later = indicated rest t in if contains t (codes keyword) then lang else later

unfoldable pub infer_language : (project content : String) → String
unfolding indicated
infer_language project content =
    indicated indicators (to_lower (codes project ++ 32 ∷ codes content))

abbrev pub debug_words : List String
debug_words = "bug" ∷ "错误" ∷ "报错" ∷ "error" ∷ "panic" ∷ "debug" ∷ "修复" ∷ "fix" ∷ "crash" ∷ "崩溃" ∷ []

abbrev pub refactor_words : List String
refactor_words = "重构" ∷ "refactor" ∷ "拆分" ∷ "extract" ∷ "rename" ∷ "重命名" ∷ []

abbrev pub review_words : List String
review_words = "review" ∷ "审核" ∷ "检查" ∷ "审计" ∷ "audit" ∷ []

unfoldable pub infer_task_type : String → TaskType
infer_task_type content =
    let lower = to_lower (codes content) in
    if any (λ w. contains lower (codes w)) debug_words
    then task_debug
    else if any (λ w. contains lower (codes w)) refactor_words
    then task_refactor
    else if any (λ w. contains lower (codes w)) review_words
    then task_review
    else task_feature

-- `truncateRunes`, which marks a cut
unfoldable pub cut_runes : ℕ → Text → Text
cut_runes max s = if leb (length s) max then s else take max s ++ codes "..."

-- the value of a key, or the empty string
unfoldable pub value_of : String → Dict String String → String
value_of k m = elim (lookup k m) [ none ↦ "" | some v ↦ v ]

unfoldable pub build_summary : String → Dict String String → Text
unfolding value_of cut_runes
build_summary content fm =
    let name = value_of "name" fm in
    let desc = value_of "description" fm in
    if name != ""
    then if desc != "" then codes name ++ codes ": " ++ codes desc else codes name
    else cut_runes 500 (codes content)

-- the values of the front matter, each followed by a space
unfoldable pub joined_values : List String → String
joined_values [] = ""
joined_values (v ∷ vs) = str_append v (str_append " " (joined_values vs))
