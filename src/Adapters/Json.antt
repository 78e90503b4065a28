-- ===== src/Adapters/Json.antt =====
-- bridge/adapters/util.go, and `finalize` of bridge/adapters/claude.go.
use relayent.Base.{
  ℕ, ◌+◌, ◌-◌, Text, codes, ◌==ℕ◌, ◌&&◌, Bool, true, false, List, [], ◌∷◌, Option, none, some,
  if◌then◌else◌,
}
use relayent.Api.{Json}
use relayent.Strings.{trim_space}
use relayent.Strings.Search.{contains, split_n, trim_prefix}

-- stripFences: what stands between the first fence and the second, or the end.
abbrev pub fence : Text
fence = codes "```"

abbrev pub second : Text → List Text → Text
second text [] = text
second text (p ∷ []) = text
second text (p ∷ q ∷ ps) = trim_space (trim_prefix (codes "json") q)

unfoldable pub strip_fences : Text → Text
strip_fences text = if contains fence text then second text (split_n 3 fence text) else text

-- The depth of the loop over a text, after one more byte.
abbrev pub depth_after : ℕ → ℕ → ℕ
depth_after depth c = if c ==ℕ b'{' then depth + 1 else if c ==ℕ b'}' then depth - 1 else depth

-- The loop of parseJSON: the text up to the brace that closes the first one. It starts at a brace that
-- opens, so the depth does not fall below 0.
unfoldable pub close_span : ℕ → Text → Option Text
close_span depth [] = none
close_span depth (c ∷ s) =
    let rest = close_span (depth_after depth c) s in
    if c ==ℕ b'}' && depth_after depth c ==ℕ 0
    then some (c ∷ [])
    else elim rest [ none ↦ none | some t ↦ some (c ∷ t) ]

-- The text from the first `{`
unfoldable pub from_brace : Text → Text
from_brace [] = []
from_brace (c ∷ s) = if c ==ℕ b'{' then c ∷ s else from_brace s

unfoldable pub balanced_span : Text → Option Text
unfolding close_span from_brace
balanced_span s = close_span 0 (from_brace s)

-- parseJSON; `unmarshal` is json.Unmarshal into a value of type `any`.
abbrev pub parse_span : (Text → Option Json) → Option Text → Option Json
parse_span unmarshal none = none
parse_span unmarshal (some t) = unmarshal t

abbrev pub parse_or_span : (Text → Option Json) → Text → Option Json → Option Json
parse_or_span unmarshal s none = parse_span unmarshal (balanced_span s)
parse_or_span unmarshal s (some v) = some v

abbrev pub parse_fenceless : (Text → Option Json) → Text → Option Json
parse_fenceless unmarshal s = parse_or_span unmarshal s (unmarshal s)

unfoldable pub parse_json : (Text → Option Json) → Text → Option Json
parse_json unmarshal text = parse_fenceless unmarshal (strip_fences (trim_space text))

-- Result
pub record Result : Type 0 where
  pub is_json : Bool
  pub json : Json
  pub text : Text

abbrev pub text_result : Text → Result
text_result text = record { is_json = false; json = none; text = trim_space text }

abbrev pub json_result : Json → Result
json_result json = record { is_json = true; json = json; text = [] }

abbrev pub text_or_json : Text → Option Json → Result
text_or_json text none = text_result text
text_or_json text (some v) = json_result v

unfoldable pub finalize : (Text → Option Json) → Text → Bool → Result
finalize unmarshal text false = text_result text
finalize unmarshal text true = text_or_json text (parse_json unmarshal text)
