-- ===== src/Adapters/Outcomes.antt =====
-- What an adapter's result is made from.
use relayent.Base.{
  ℕ, zero, suc, Text, ◌≡◌, ◌≢◌, refl, sym, ap, subst, ◌∙◌, Bool, ◌&&◌, not, true, false, List, [],
  ◌∷◌, ◌++◌, Option, none, some, arith, ◌⊎◌, inl, inr, Bool-cases,
}
use relayent.Api.{Json}
use relayent.Adapters.Json.{
  Result, finalize, parse_json, parse_fenceless, parse_span, parse_or_span, text_or_json,
  balanced_span, strip_fences,
}
use relayent.Strings.{trim_space}
use relayent.Adapters.Defs.{Request, Command, Exit, failed, exited, Tools, answer, failure}
use relayent.Adapters.Run.{
  Adapter, command_of, retry_request, is_some, schema_text, marshalled, Outcome, conclude,
  read_text, read_output, execute_once, refuses, run_once, run,
}

-- JSON was requested.
abbrev pub wants : Json → Bool
wants none = false
wants (some _) = true

-- What the output is decoded to: the text without fences, or else the first block of braces in it.
abbrev pub Decodes : (Text → Option Json) → Text → Json → Type 0
Decodes unmarshal text v =
    (unmarshal text ≡ some v)
    ⊎ ((unmarshal text ≡ none)
        × (t : Text) × (balanced_span text ≡ some t)
        × (unmarshal t ≡ some v))

-- Neither is decoded.
abbrev pub IsProse : (Text → Option Json) → Text → Type 0
IsProse unmarshal text =
    (unmarshal text ≡ none)
    × ((balanced_span text ≡ none)
        ⊎ ((t : Text) × (balanced_span text ≡ some t) × (unmarshal t ≡ none)))

-- The result is the trimmed text.
abbrev pub IsText : Text → Result → Type 0
IsText text res = (res.is_json ≡ false) × (res.text ≡ trim_space text)

-- How a result reads a text, without and with JSON requested.
abbrev pub ReadsText : (Text → Option Json) → Bool → Text → Result → Type 0
ReadsText unmarshal false text res = IsText text res
ReadsText unmarshal true text res =
    ((res.is_json ≡ true) × Decodes unmarshal (strip_fences (trim_space text)) res.json)
    ⊎ (IsText text res × IsProse unmarshal (strip_fences (trim_space text)))

-- A parse comes out as JSON or as prose.
abbrev IsParsed : (Text → Option Json) → Text → Option Json → Type 0
IsParsed unmarshal s none = IsProse unmarshal s
IsParsed unmarshal s (some v) = Decodes unmarshal s v

parse_span-IsParsed :
    (unmarshal : Text → Option Json) (s : Text) (b : Option Text)
    → unmarshal s ≡ none
    → balanced_span s ≡ b
    → IsParsed unmarshal s (parse_span unmarshal b)
parse_span-IsParsed unmarshal s none n b = (n, inl b)
parse_span-IsParsed unmarshal s (some t) n b = decoded_span (unmarshal t) refl
  where
    decoded_span : (o : Option Json) → unmarshal t ≡ o → IsParsed unmarshal s o
    decoded_span none e = (n, inr (t, b, e))
    decoded_span (some v) e = inr (n, t, b, e)

parse_or_span-IsParsed :
    (unmarshal : Text → Option Json) (s : Text) (o : Option Json)
    → unmarshal s ≡ o
    → IsParsed unmarshal s (parse_or_span unmarshal s o)
parse_or_span-IsParsed unmarshal s none e = parse_span-IsParsed unmarshal s (balanced_span s) e refl
parse_or_span-IsParsed unmarshal s (some v) e = inl e

text_or_json-ReadsText :
    (unmarshal : Text → Option Json) (text : Text) (o : Option Json)
    → IsParsed unmarshal (strip_fences (trim_space text)) o
    → ReadsText unmarshal true text (text_or_json text o)
text_or_json-ReadsText unmarshal text none p = inr ((refl, refl), p)
text_or_json-ReadsText unmarshal text (some v) p = inl (refl, p)

finalize-ReadsText :
    (unmarshal : Text → Option Json) (text : Text) (want : Bool)
    → ReadsText unmarshal want text (finalize unmarshal text want)
unfolding finalize parse_json
finalize-ReadsText unmarshal text false = (refl, refl)
finalize-ReadsText unmarshal text true =
    text_or_json-ReadsText unmarshal text
      (parse_fenceless unmarshal (strip_fences (trim_space text)))
      (parse_or_span-IsParsed unmarshal (strip_fences (trim_space text))
        (unmarshal (strip_fences (trim_space text))) refl)

-- The last process ended without an error, and the result reads the text that the adapter takes from
-- its output.
abbrev pub FromLast : Tools → Adapter → Bool → List Command → Result → Type 0
FromLast tools a want log res =
    (before : List Command) × (c : Command) × (stdout : Text) × (text : Text) × (log
      ≡ before ++ c ∷ [])
    × (tools.execute before c ≡ exited stdout)
    × (a.unwrap tools stdout ≡ inr text)
    × ReadsText tools.unmarshal want text res

answer-inj :
    {l m : List Command} {r s : Result}
    → ◌≡◌ {A = Outcome} (some (l, answer r)) (some (m, answer s))
    → (l ≡ m) × (r ≡ s)
answer-inj h = (cc, cc)

failure-ne :
    {l m : List Command} {t : Text} {s : Result}
    → ◌≢◌ {A = Outcome} (some (l, failure t)) (some (m, answer s))
failure-ne h = cc

module _ (again : List Command → Request → Outcome) (tools : Tools) (a : Adapter) (req : Request)
    (end : List Command) (res : Result) (retry : Bool) (want : Bool)
    (second : (log : List Command) (schema text : Text)
      → again log (retry_request a req schema text) ≡ some (end, answer res)
      → FromLast tools a want end res) where
  here :
      (before : List Command) (c : Command) (stdout text : Text) (schema : Option Text)
      → is_some schema ≡ want
      → tools.execute before c ≡ exited stdout
      → a.unwrap tools stdout ≡ inr text
      → ◌≡◌ {A = Outcome}
          (some (before ++ c ∷ [], answer (finalize tools.unmarshal text (is_some schema))))
          (some (end, answer res))
      → FromLast tools a want end res
  here before c stdout text schema w e u h =
      let (p, q) = answer-inj h in
      (
        before,
        c,
        stdout,
        text,
        sym p,
        e,
        u,
        subst (ReadsText tools.unmarshal want text) (ap (finalize tools.unmarshal text) (sym w) ∙ q)
            (finalize-ReadsText tools.unmarshal text want),
      )

  conclude-FromLast :
      (before : List Command) (c : Command) (stdout text : Text) (schema : Option Text)
      → is_some schema ≡ want
      → tools.execute before c ≡ exited stdout
      → a.unwrap tools stdout ≡ inr text
      → conclude again a req schema retry
          (before ++ c ∷ [])
          text
          (finalize tools.unmarshal text (is_some schema))
        ≡ some (end, answer res)
      → FromLast tools a want end res
  conclude-FromLast before c stdout text none w e u h = here before c stdout text none w e u h
  conclude-FromLast before c stdout text (some schema) w e u h =
      elim (Bool-cases (not (finalize tools.unmarshal text true).is_json && not retry)) [
        | inl y ↦ second (before ++ c ∷ []) schema text (ground arith)
        | inr n ↦ here before c stdout text (some schema) w e u (ground arith)
      ]

  read_text-FromLast :
      (before : List Command) (c : Command) (stdout : Text) (schema : Option Text) (t : Text ⊎ Text)
      → is_some schema ≡ want
      → tools.execute before c ≡ exited stdout
      → a.unwrap tools stdout ≡ t
      → read_text again tools a req schema retry (before ++ c ∷ []) t ≡ some (end, answer res)
      → FromLast tools a want end res
  read_text-FromLast before c stdout schema (inl message) w e u h = absurd (failure-ne h)
  read_text-FromLast before c stdout schema (inr text) w e u h =
      conclude-FromLast before c stdout text schema w e u h

  read_output-FromLast :
      (before : List Command) (c : Command) (schema : Option Text) (x : Exit)
      → is_some schema ≡ want
      → tools.execute before c ≡ x
      → read_output again tools a req schema retry (before ++ c ∷ []) x ≡ some (end, answer res)
      → FromLast tools a want end res
  unfolding read_output
  read_output-FromLast before c schema (failed err stderr) w e h = absurd (failure-ne h)
  read_output-FromLast before c schema (exited stdout) w e h =
      read_text-FromLast before c stdout schema (a.unwrap tools stdout) w e refl h

  execute_once-FromLast :
      (log : List Command) (schema : Option Text)
      → is_some schema ≡ want
      → execute_once again tools a req retry log (inr schema) ≡ some (end, answer res)
      → FromLast tools a want end res
  execute_once-FromLast log schema w h =
      let c = command_of a req schema in
      read_output-FromLast log c schema (tools.execute log c) w refl h

  marshalled-FromLast :
      (log : List Command) (m : Text ⊎ Text)
      → true ≡ want
      → execute_once again tools a req retry log (marshalled m) ≡ some (end, answer res)
      → FromLast tools a want end res
  marshalled-FromLast log (inl message) w h = absurd (failure-ne h)
  marshalled-FromLast log (inr encoded) w h = execute_once-FromLast log (some encoded) w h

  schema_text-FromLast :
      (log : List Command) (json : Json)
      → wants json ≡ want
      → execute_once again tools a req retry log (schema_text tools json) ≡ some (end, answer res)
      → FromLast tools a want end res
  schema_text-FromLast log none w h = execute_once-FromLast log none w h
  schema_text-FromLast log (some schema) w h = marshalled-FromLast log (tools.marshal schema) w h

  run_once-FromLast :
      (log : List Command) (r : Option Text)
      → wants req.json_schema ≡ want
      → run_once again tools a req retry log r ≡ some (end, answer res)
      → FromLast tools a want end res
  run_once-FromLast log (some message) w h = absurd (failure-ne h)
  run_once-FromLast log none w h = schema_text-FromLast log req.json_schema w h

-- A result comes from the last process that was started, which ended without an error. Without a schema
-- in the request it is the text that the adapter takes from the output, trimmed. With a schema it is the
-- JSON that the text without its fences is decoded to, or else the first block of braces in it; and the
-- trimmed text if neither is JSON.
pub run-FromLast :
    (fuel : ℕ) (tools : Tools) (a : Adapter) (retry : Bool) (log : List Command) (req : Request)
    (end : List Command) (res : Result)
    → run fuel tools a retry log req ≡ some (end, answer res)
    → FromLast tools a (wants req.json_schema) end res
unfolding run retry_request
run-FromLast zero tools a retry log req end res h = cc
run-FromLast (suc fuel) tools a retry log req end res h =
    run_once-FromLast (run fuel tools a true) tools a req end res retry (wants req.json_schema)
      (λ l schema text k.
        run-FromLast fuel tools a true l (retry_request a req schema text) end res k)
      log (refuses a.no_attachments req.attachment_paths) refl h
