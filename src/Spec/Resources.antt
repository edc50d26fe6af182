-- ===== src/Spec/Resources.antt =====
-- api/config/v1/resources.go: names and patterns of resources. A pattern is matched by the regular
-- expression of wildCardToRegexp. Texts are ASCII.
mod Literals
pub mod Patterns
use volcano_vgpu_device_plug.Prelude.{
  ℕ, Bool, true, false, not, ◌&&◌, ◌||◌, Option, none, some, List, [], ◌∷◌, ◌++◌, if◌then◌else◌,
  ◌==◌, ltb, length, drop, ◌>>=◌,
}
use volcano_vgpu_device_plug.GoText.{Str, codes, has_prefix, split, cut}
use volcano_vgpu_device_plug.GoText.Regexp.{quote_meta, match_string}

abbrev pub resource_name_prefix : Str
resource_name_prefix = codes "volcano.sh"

abbrev pub max_resource_name_length : ℕ
max_resource_name_length = 63

abbrev with_prefix : Str → Str
with_prefix n = if has_prefix n (codes "volcano.sh/") then n else codes "volcano.sh/" ++ n

-- NewResourceName: `none` is an error.
unfoldable pub new_resource_name : Str → Option Str
new_resource_name n =
    if ltb max_resource_name_length (length (with_prefix n)) then none else some (with_prefix n)

pub record Resource : Type 0 where
  pub pattern : Str
  pub name : Str

pub record Resources : Type 0 where
  pub gpus : List Resource
  pub migs : List Resource

-- NewResource
unfoldable pub new_resource : Str → Str → Option Resource
unfolding new_resource_name
new_resource pattern name = do
  resource_name ← new_resource_name name
  some (record { pattern = pattern; name = resource_name })

-- Split
unfoldable pub split_name : Str → Str × Str
split_name r = elim (cut (codes "/") r) [ none ↦ ([], r) | some parts ↦ parts ]

-- AddGPUResource
unfoldable pub add_gpu_resource : Str → Str → Resources → Option Resources
unfolding new_resource
add_gpu_resource pattern name r = do
  resource ← new_resource pattern name
  some (record r { gpus = r.gpus ++ resource ∷ [] })

-- AddMIGResource
unfoldable pub add_mig_resource : Str → Str → Resources → Option Resources
unfolding new_resource
add_mig_resource pattern name r = do
  resource ← new_resource pattern name
  some (record r { migs = r.migs ++ resource ∷ [] })

-- The loop of wildCardToRegexp behind the first literal.
unfoldable pub wild_rest : List Str → Str
unfolding quote_meta
wild_rest [] = []
wild_rest (literal ∷ literals) = codes ".*" ++ (quote_meta literal ++ wild_rest literals)

-- The loop with the test for the first round, which writes no `.*`.
unfoldable pub wild_literals : List Str → Str
unfolding wild_rest
wild_literals [] = []
wild_literals (literal ∷ literals) = quote_meta literal ++ wild_rest literals

-- wildCardToRegexp
unfoldable pub wild_card_to_regexp : Str → Str
unfolding wild_literals
wild_card_to_regexp pattern = wild_literals (split 42 pattern)

-- Matches: an error of MatchString is no match.
unfoldable pub matches : Str → Str → Bool
unfolding wild_card_to_regexp match_string
matches pattern s = elim (match_string (wild_card_to_regexp pattern) s) [
  | none ↦ false
  | some result ↦ result
]
