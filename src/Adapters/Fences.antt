-- ===== src/Adapters/Fences.antt =====
-- stripFences and parseJSON on an answer in a code fence, and on one with prose around it.
use relayent.Base.{
  Text, codes, ◌≡◌, refl, ap, ◌∙◌, true, false, [], ◌∷◌, ◌++◌, Option, none, some, arith,
}
use relayent.Api.{Json}
use relayent.Strings.{after_prefix, trim_space}
use relayent.Strings.Search.{cut_at, contains, split_n, trim_prefix, after_prefix-append}
use relayent.Strings.Split.{occurs}
use relayent.Adapters.Json.{fence, strip_fences, parse_json, finalize, json_result}

-- A text without a backquote is cut at the first fence after it.
cut_at-fence : (t s : Text) → occurs b'`' t ≡ false → cut_at fence (t ++ (fence ++ s)) ≡ some (t, s)
unfolding cut_at occurs after_prefix
cut_at-fence [] s h = ground (arith, after_prefix-append fence s)
cut_at-fence (c ∷ t) s h = ground (arith, cut_at-fence t s)

cut_at-none : (t : Text) → occurs b'`' t ≡ false → cut_at fence t ≡ none
unfolding cut_at occurs after_prefix
cut_at-none [] h = refl
cut_at-none (c ∷ t) h = ground (arith, cut_at-none t)

json_head : (body : Text) → occurs b'`' body ≡ false → occurs b'`' (codes "json" ++ body) ≡ false
unfolding occurs
json_head body h = ground arith

strip_fences-cut :
    (text before rest body after : Text)
    → cut_at fence text ≡ some (before, rest)
    → cut_at fence rest ≡ some (body, after)
    → strip_fences text ≡ trim_space (trim_prefix (codes "json") body)
unfolding strip_fences split_n contains
strip_fences-cut text before rest body after e f = ground arith

trim_prefix-append : (p s : Text) → trim_prefix p (p ++ s) ≡ s
unfolding trim_prefix
trim_prefix-append p s = let e = after_prefix-append p s in ground arith

-- A fence after a text without a backquote: what follows it, up to the next fence, is the body.
strip_fences-fenced :
    (before body after : Text)
    → occurs b'`' before ≡ false
    → occurs b'`' body ≡ false
    → strip_fences (before ++ (fence ++ (codes "json" ++ (body ++ (fence ++ after)))))
      ≡ trim_space body
strip_fences-fenced before body after h k =
    strip_fences-cut (before ++ (fence ++ (codes "json" ++ (body ++ (fence ++ after))))) before
      (codes "json" ++ (body ++ (fence ++ after))) (codes "json" ++ body) after
      (cut_at-fence before (codes "json" ++ (body ++ (fence ++ after))) h)
      (cut_at-fence (codes "json" ++ body) after (json_head body k))
    ∙ ap trim_space (trim_prefix-append (codes "json") body)

finalize-found :
    (unmarshal : Text → Option Json) (text s : Text) (v : Json)
    → strip_fences (trim_space text) ≡ s
    → unmarshal s ≡ some v
    → finalize unmarshal text true ≡ json_result v
unfolding finalize parse_json
finalize-found unmarshal text s v e f = ground arith

-- An answer whose JSON stands in a fence marked `json`, with any text after it and any before it that
-- has no backquote, and with white space at neither end, becomes that JSON when JSON was requested.
pub finalize-fenced :
    (unmarshal : Text → Option Json) (before body after : Text) (v : Json)
    → occurs b'`' before ≡ false
    → occurs b'`' body ≡ false
    → trim_space (before ++ (fence ++ (codes "json" ++ (body ++ (fence ++ after)))))
      ≡ before ++ (fence ++ (codes "json" ++ (body ++ (fence ++ after))))
    → unmarshal (trim_space body) ≡ some v
    → finalize unmarshal (before ++ (fence ++ (codes "json" ++ (body ++ (fence ++ after))))) true
      ≡ json_result v
finalize-fenced unmarshal before body after v h k t u =
    finalize-found unmarshal _ (trim_space body) v
      (ap strip_fences t ∙ strip_fences-fenced before body after h k) u
