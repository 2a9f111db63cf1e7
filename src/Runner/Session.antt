-- ===== src/Runner/Session.antt =====
-- `get_spark` and `clear_stale_spark_session` of playground/spark/app/main.py.
use iceberg_rest_catalog.Common.{
  ◌≡◌, true, false, Option, none, some, Outcome, ok, err, refl, if◌then◌else◌, Bool-cases, inl, inr,
  arith,
}
use iceberg_rest_catalog.Runner.{Runner, SparkApi, RunnerError, context_stopped}

module _ {S W : Type 0} (spark : SparkApi S W) where
  -- The stale session, if there is one, is stopped, and each reference to it is dropped.
  unfoldable pub clear_stale : Runner S W → Runner S W
  clear_stale r = record {
    spark_session = none;
    world = spark.clear_python (elim (r.spark_session) [
      | none ↦ r.world
      | some stale ↦ spark.clear_jvm stale (spark.stop_context stale (r.world))
    ]);
  }

  abbrev pub holding : S → W → Runner S W
  holding session w = record { spark_session = some session; world = w }

  -- What follows the building of a session.
  unfoldable pub keep_built : Outcome RunnerError S × W → Outcome RunnerError S × Runner S W
  keep_built (err e, w) = (err e, record { spark_session = none; world = w })
  keep_built (ok session, w) =
      if spark.is_running session w
      then (ok session, holding session w)
      else (err context_stopped, clear_stale (holding session w))

  unfoldable pub build_new : Runner S W → Outcome RunnerError S × Runner S W
  build_new r = keep_built (spark.build_session (r.world))

  unfoldable pub serve : Option S → Runner S W → Outcome RunnerError S × Runner S W
  serve none r = build_new r
  serve (some session) r =
      if spark.is_running session (r.world) then (ok session, r) else build_new (clear_stale r)

  unfoldable pub get_spark : Runner S W → Outcome RunnerError S × Runner S W
  get_spark r = serve (r.spark_session) r

  -- The world in which a session is built: after a session that is held has been cleared away.
  abbrev pub cleared : Option S → Runner S W → W
  cleared none r = r.world
  cleared (some stale) r =
      spark.clear_python (spark.clear_jvm stale (spark.stop_context stale (r.world)))

  -- What a request for the session may come to: the session that is held is running and is given out, and
  -- nothing changes; or a session is built once, after the one that was held has been stopped, and it is
  -- running and held; or the request fails, and no session is held.
  pub data Serves (r : Runner S W) : Outcome RunnerError S → Runner S W → Type 0 where
    reused :
        {session : S}
        → r.spark_session ≡ some session
        → spark.is_running session (r.world) ≡ true
        → Serves r (ok session) r
    built :
        {session : S} {w : W}
        → ((held : S) → r.spark_session ≡ some held → spark.is_running held (r.world) ≡ false)
        → spark.build_session (cleared (r.spark_session) r) ≡ (ok session, w)
        → spark.is_running session w ≡ true
        → Serves r (ok session) (holding session w)
    refused :
        {e : RunnerError} {w : W}
        → ((held : S) → r.spark_session ≡ some held → spark.is_running held (r.world) ≡ false)
        → Serves r (err e) (record { spark_session = none; world = w })

  keep_built-Serves :
      (r : Runner S W) (b : Outcome RunnerError S × W)
      → ((held : S) → r.spark_session ≡ some held → spark.is_running held (r.world) ≡ false)
      → spark.build_session (cleared (r.spark_session) r) ≡ b
      → Serves r (keep_built b).0 (keep_built b).1
  unfolding keep_built clear_stale
  keep_built-Serves r (err e, w) stale h = refused stale
  keep_built-Serves r (ok session, w) stale h = elim (Bool-cases (spark.is_running session w)) [
    | inl runs ↦ rw (keep_built, runs) (built stale h runs)
    | inr stopped ↦ rw (keep_built, stopped) (refused stale)
  ]

  serve-Serves :
      (r : Runner S W) (o : Option S) → r.spark_session ≡ o → Serves r (serve o r).0 (serve o r).1
  unfolding serve build_new clear_stale
  serve-Serves r none e =
      keep_built-Serves r (spark.build_session (r.world)) (λ held h. cc) (rw e refl)
  serve-Serves r (some session) e = elim (Bool-cases (spark.is_running session (r.world))) [
    | inl runs ↦ rw (serve, runs) (reused e runs)
    | inr stopped ↦
        rw (serve, stopped)
          (keep_built-Serves r _ (λ held h. ground (arith, stopped, e, h)) (rw e refl))
  ]

  -- `get_spark` does what `Serves` allows, whatever Spark does: it never gives out a session whose context
  -- has stopped, never builds one while the one that is held runs, and holds none after a failure.
  pub get_spark-Serves : (r : Runner S W) → Serves r (get_spark r).0 (get_spark r).1
  unfolding get_spark
  get_spark-Serves r = serve-Serves r (r.spark_session) refl
