-- ===== src/Executors/Logs/Found.antt =====
-- The result that the job of Livy prints is the one that the executor finds in its log.
use Prim.Native.String.{◌++◌ as ◌+++◌}
use iceberg_rest_catalog.Common.{
  ◌≡◌, String, Option, none, some, List, [], ◌∷◌, ◌++◌, ok, All, refl, ◌∙◌, ap, sym,
}
use mathlib.Core.List.{append-nil, append_assoc}
use iceberg_rest_catalog.Json.{Value, Fields, obj}
use iceberg_rest_catalog.Text.{after_marker}
use iceberg_rest_catalog.Text.Laws.{after_marker-append}
use iceberg_rest_catalog.Executors.Logs.{
  result_marker, backwards, last_result, read_result, decoded_result, result_from_logs, emit_result,
}

-- No result is printed in a line.
abbrev pub Plain : String → Type 0
Plain line = after_marker result_marker line ≡ none

module _ (strip : String → String) (decode : String → Option Value) where
  skips-Plain :
      (ys zs : List String)
      → All Plain ys
      → last_result strip decode (backwards ys ++ zs) ≡ last_result strip decode zs
  unfolding last_result
  skips-Plain [] zs h = refl
  skips-Plain (y ∷ ys) zs (h, hs) =
      ap (last_result strip decode) (append_assoc (backwards ys) (y ∷ []) zs)
      ∙ skips-Plain ys (y ∷ zs) hs
      ∙ rw (last_result, h)

  backwards-append : (xs ys : List String) → backwards (xs ++ ys) ≡ backwards ys ++ backwards xs
  backwards-append [] ys = sym (append-nil (backwards ys))
  backwards-append (x ∷ xs) ys =
      ap (λ zs. zs ++ x ∷ []) (backwards-append xs ys)
      ∙ append_assoc (backwards ys) (backwards xs) (x ∷ [])

  found_last :
      (encoded : String) (lines : List String)
      → last_result strip decode ((result_marker +++ encoded) ∷ lines)
        ≡ read_result strip decode encoded
  unfolding last_result
  found_last encoded lines = rw (last_result, after_marker-append result_marker encoded)

  -- The result that the job printed is read from its log, whatever lines stand before it, when no line
  -- after it has the marker, and when the text that the job encoded it as decodes to it.
  pub result_from_logs-emit_result :
      (encode : Fields → String) (result : Fields) (before after : List String)
      → decode (strip (encode result)) ≡ some (obj result)
      → All Plain after
      → result_from_logs strip decode (before ++ emit_result encode result ∷ after) ≡ ok result
  unfolding result_from_logs emit_result read_result decoded_result
  result_from_logs-emit_result encode result before after decoded plain =
      ap (last_result strip decode)
        (backwards-append before ((result_marker +++ encode result) ∷ after))
      ∙ ap (last_result strip decode) (
          append_assoc (backwards after) ((result_marker +++ encode result) ∷ [])
            (backwards before))
      ∙ skips-Plain after ((result_marker +++ encode result) ∷ backwards before) plain
      ∙ found_last (encode result) (backwards before)
      ∙ rw (read_result, decoded)
