-- ===== src/Executors/Logs/Slices.antt =====
-- The pages of a log, put together, are its first lines.
use iceberg_rest_catalog.Common.{
  ℕ, zero, suc, ◌+◌, ◌≤◌, ◌<◌, ◌≡◌, String, true, false, Option, some, List, [], ◌∷◌, ◌++◌, Outcome,
  ok, refl, ◌∙◌, ap, arith, sym, ltb, length, length-append, take-drop, take, drop, Bool-cases, inl,
  inr,
}
use iceberg_rest_catalog.Common.Effects.{and_then}
use mathlib.Core.List.{append_assoc}
use iceberg_rest_catalog.Json.{Value, Items, text, obj, arr, nil, cons, field, end, get, get_or}
use iceberg_rest_catalog.Executors.{
  ExecutorSettings, Env, ExecutorError, Response, is_error, answered, get_log, request,
}
use iceberg_rest_catalog.Executors.Logs.{
  page_size, texts_of, list_lines, page_lines, log_page, log_pages, logs,
}

take_ahead : (m : ℕ) (xs ys : List String) → m ≤ length xs → take m (xs ++ ys) ≡ take m xs
take_ahead zero xs ys h = refl
take_ahead (suc m) [] ys h = absurd (omega arith)
take_ahead (suc m) (x ∷ xs) ys h = ap (λ r. x ∷ r) (take_ahead m xs ys (omega arith))

-- A page that is not full is all that was left.
take_short : (n : ℕ) (xs : List String) → ltb (length (take n xs)) n ≡ true → take n xs ≡ xs
take_short zero xs h = absurd (ground arith)
take_short (suc n) [] h = refl
take_short (suc n) (x ∷ xs) h = ap (λ r. x ∷ r) (take_short n xs (ground arith))

drop_past : (xs ys : List String) → drop (length xs) (xs ++ ys) ≡ ys
drop_past [] ys = refl
drop_past (x ∷ xs) ys = drop_past xs ys

-- A body that Livy answers a request for a page with.
abbrev pub log_items : List String → Items
log_items [] = nil
log_items (line ∷ lines) = cons (text line) (log_items lines)

abbrev pub log_response : List String → Response
log_response lines = record {
  status_code = 200;
  json = some (obj (field "log" (arr (log_items lines)) end));
  body = "";
}

module _ (str : Value → String) {W : Type 0} (env : Env W) (s : ExecutorSettings)
    (batch_id : String) (log : List String)
    -- Python's `str` of a text is the text.
    (str_text : (line : String) → str (text line) ≡ line)
    -- Livy answers a request for a page with that slice of the log.
    (serves : (from size : ℕ) (w : W)
      → (env.send (get_log batch_id from size) w).0
        ≡ some (log_response (take size (drop from log)))) where
  texts_of-log_items : (lines : List String) → texts_of str (log_items lines) ≡ lines
  unfolding texts_of
  texts_of-log_items [] = refl
  texts_of-log_items (line ∷ lines) = rw (str_text line, texts_of-log_items lines)

  page_lines_log :
      (lines : List String)
      → page_lines str (some (obj (field "log" (arr (log_items lines)) end))) ≡ ok lines
  unfolding page_lines list_lines get_or get
  page_lines_log lines = ap ok (texts_of-log_items lines)

  page_answered :
      (answer : Option Response × W) (lines : List String)
      → answer.0 ≡ some (log_response lines)
      → (and_then
          (answered str "Livy" answer)
          (λ response w. (page_lines str (response.json), w))).0
        ≡ ok lines
  unfolding is_error
  page_answered (o, w) lines h = rw h (page_lines_log lines)

  log_page-take :
      (from : ℕ) (w : W)
      → (log_page str env s batch_id from w).0 ≡ ok (take (page_size s) (drop from log))
  unfolding log_page request
  log_page-take from w =
      page_answered (env.send (get_log batch_id from (page_size s)) w) _
        (serves from (page_size s) w)

  abbrev FirstLines : Outcome ExecutorError (List String) → Type 0
  FirstLines o =
      (lines : List String) × (o ≡ ok lines)
      × (take (s.livy_log_max_lines) lines ≡ take (s.livy_log_max_lines) log)

  -- The round after a page was read.
  after_page :
      (f : ℕ) (lines rest : List String)
      → lines ++ rest ≡ log
      → ((more others : List String) (w : W)
          → more ++ others ≡ log
          → length lines + page_size s ≤ length more
          → FirstLines (log_pages str env s batch_id f more (length more) w).0)
      → (read : Outcome ExecutorError (List String) × W) → read.0 ≡ ok (take (page_size s) rest)
      → FirstLines
          (and_then read (λ page w'. elim (ltb (length page) (page_size s)) [
            | true ↦ (ok (lines ++ page), w')
            | false ↦ log_pages str env s batch_id f (lines ++ page) (length lines + length page) w'
          ])).0
  after_page f lines rest e next (o, w) h =
      rw h (elim (Bool-cases (ltb (length (take (page_size s) rest)) (page_size s))) [
        | inl short ↦
            rw (and_then, short)
              (
                lines ++ take (page_size s) rest,
                refl,
                ap (λ r. take (s.livy_log_max_lines) (lines ++ r))
                      (take_short (page_size s) rest short)
                    ∙ ap (take (s.livy_log_max_lines)) e,
              )
        | inr full ↦
            rw (and_then, full, sym (length-append lines (take (page_size s) rest)))
              (next (lines ++ take (page_size s) rest) (drop (page_size s) rest) w
                (append_assoc lines (take (page_size s) rest) (drop (page_size s) rest)
                  ∙ ap (λ r. lines ++ r) (take-drop (page_size s) rest)
                  ∙ e)
                (ground (arith, length-append lines (take (page_size s) rest), full)))
      ])

  read_enough :
      (lines rest : List String)
      → lines ++ rest ≡ log
      → s.livy_log_max_lines ≤ length lines
      → take (s.livy_log_max_lines) lines ≡ take (s.livy_log_max_lines) log
  read_enough lines rest e h =
      sym (take_ahead (s.livy_log_max_lines) lines rest h) ∙ ap (take (s.livy_log_max_lines)) e

  page_size_pos : (n : ℕ) → ltb n (s.livy_log_max_lines) ≡ true → 0 < page_size s
  unfolding page_size
  page_size_pos n h = ground arith

  log_pages-FirstLines :
      (f : ℕ) (lines rest : List String) (w : W)
      → lines ++ rest ≡ log
      → s.livy_log_max_lines ≤ length lines + f
      → FirstLines (log_pages str env s batch_id f lines (length lines) w).0
  unfolding log_pages
  log_pages-FirstLines zero lines rest w e h = (lines, refl, read_enough lines rest e (omega arith))
  log_pages-FirstLines (suc f) lines rest w e h =
      elim (Bool-cases (ltb (length lines) (s.livy_log_max_lines))) [
        | inl more ↦
            rw (log_pages, more)
              (after_page f lines rest e
                (λ next others w' e' h'.
                  log_pages-FirstLines f next others w' e'
                    (omega (arith, page_size_pos (length lines) more)))
                (log_page str env s batch_id (length lines) w)
                (log_page-take (length lines) w
                  ∙ ap (λ r. ok (take (page_size s) r))
                      (ap (drop (length lines)) (sym e) ∙ drop_past lines rest)))
        | inr enough ↦ rw (log_pages, enough) (lines, refl, read_enough lines rest e (ground arith))
      ]

  first_lines :
      (read : Outcome ExecutorError (List String) × W)
      → FirstLines read.0
      → (and_then read (λ lines w. (ok (take (s.livy_log_max_lines) lines), w))).0
        ≡ ok (take (s.livy_log_max_lines) log)
  first_lines (o, w) (lines, h, e) = rw h (ap ok e)

  -- Where Livy answers each request for a page with that slice of the log, the executor reads the first
  -- `livy_log_max_lines` lines of the log, in order, each once: the pages neither overlap nor leave a gap.
  pub logs-take : (w : W) → (logs str env s batch_id w).0 ≡ ok (take (s.livy_log_max_lines) log)
  unfolding logs
  logs-take w =
      first_lines _ (log_pages-FirstLines (s.livy_log_max_lines) [] log w refl (omega arith))
