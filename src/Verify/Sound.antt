-- ===== src/Verify/Sound.antt =====
-- What an accepted result has been checked for.
use iceberg_rest_catalog.Common.{
  String, ◌≡◌, refl, ◌≢◌, ◌⊎◌, inl, inr, Bool, true, false, not, ◌&&◌, Option, none, some, List, [],
  ◌∷◌, ok, arith, All, ◌>>=◌, raise_if, or_raise, >>=-eq-ok, Bool-cases,
}
use iceberg_rest_catalog.Common.Int.{ℤ, pos, negsuc, eq_ℤ, ltb_ℤ}
use iceberg_rest_catalog.Json.{
  Value, Fields, null, bool, int, real, text, arr, obj, get_null, get_or, is_null, as_fields,
}
use iceberg_rest_catalog.Json.Equality.{eq_value, greater}
use iceberg_rest_catalog.Params.{Command, expire_snapshots, rollback}
use iceberg_rest_catalog.Verify.{
  WorkerError, no_table_state, invariant_keys, metric_keys, snapshots_increased, verify_states,
  type_error, negative_metric, wrong_snapshot, is_rollback, is_expire, to_int, drifted,
  keep_invariants, metric_ok, metrics_ok, expire_ok, rollback_ok, verify_result,
}

is_null-null : (v : Value) → is_null v ≡ true → v ≡ null
unfolding is_null
is_null-null null h = refl
is_null-null (bool b) h = cc
is_null-null (int z) h = cc
is_null-null (real r) h = cc
is_null-null (text t) h = cc
is_null-null (arr xs) h = cc
is_null-null (obj fs) h = cc

-- A number was read, and it has passed its test.
number_read :
    (o : Option ℤ) (e : WorkerError)
    → (or_raise o type_error >>= λ n. raise_if (ltb_ℤ n (pos 0)) e) ≡ ok tt
    → (z : ℤ) × (o ≡ some z) × (ltb_ℤ z (pos 0) ≡ false)
number_read none e h = cc
number_read (some z) e h = (z, refl, ground arith)

eq_ℤ→eq : (a b : ℤ) → eq_ℤ a b ≡ true → a ≡ b
eq_ℤ→eq (pos a) (pos b) h = ground arith
eq_ℤ→eq (negsuc a) (negsuc b) h = ground arith
eq_ℤ→eq (pos a) (negsuc b) h = cc
eq_ℤ→eq (negsuc a) (pos b) h = cc

same_read :
    (o p : Option ℤ)
    → (or_raise o type_error >>= λ a.
        or_raise p type_error >>= λ b. raise_if (not (eq_ℤ a b)) wrong_snapshot)
      ≡ ok tt
    → (z : ℤ) × (o ≡ some z) × (p ≡ some z)
same_read none p h = cc
same_read (some a) none h = cc
same_read (some a) (some b) h = (a, refl, ground (arith, eq_ℤ→eq a b))

more_read :
    (o : Option Bool)
    → (or_raise o type_error >>= λ more. raise_if more snapshots_increased) ≡ ok tt
    → o ≡ some false
more_read none h = cc
more_read (some b) h = ground arith

module _ (int_of_text int_of_real : String → Option ℤ) where
  -- A part of the table's identity that was known before is the same after.
  abbrev pub Kept : Fields → Fields → String → Type 0
  Kept before after key =
      get_null key before ≢ null → eq_value (get_null key after) (get_null key before) ≡ true

  -- A count is missing, or a number that is not negative.
  abbrev pub Counted : Fields → String → Type 0
  Counted after key =
      (get_null key after ≡ null)
      ⊎ ((z : ℤ) × (to_int int_of_text int_of_real (get_null key after) ≡ some z)
          × (ltb_ℤ z (pos 0) ≡ false))

  pub record IsVerified (command : Command) (before after parameters : Fields) : Type 0 where
    pub records_kept :
        command ≢ rollback
        → eq_value (get_null "total_records" before) (get_null "total_records" after) ≡ true
    pub has_snapshot : get_null "snapshot_id" after ≢ null
    pub identity_kept : All (Kept before after) invariant_keys
    pub counts : All (Counted after) metric_keys
    pub no_more_snapshots :
        command ≡ expire_snapshots
        → greater
            (get_or "snapshot_count" (int (pos 0)) after)
            (get_or "snapshot_count" (int (pos 0)) before)
          ≡ some false
    pub target_selected :
        command ≡ rollback
        → get_null "snapshotId" parameters ≢ null
        → (z : ℤ) × (to_int int_of_text int_of_real (get_null "snapshot_id" after) ≡ some z)
          × (to_int int_of_text int_of_real (get_null "snapshotId" parameters) ≡ some z)

  kept :
      (before after : Fields) (keys : List String)
      → keep_invariants int_of_text int_of_real before after keys ≡ ok tt
      → All (Kept before after) keys
  unfolding keep_invariants drifted is_null
  kept before after [] h = tt
  kept before after (k ∷ ks) h = ground (arith, kept before after ks)

  counted_one :
      (after : Fields) (key : String)
      → metric_ok int_of_text int_of_real after key ≡ ok tt
      → Counted after key
  unfolding metric_ok
  counted_one after key h = elim (Bool-cases (is_null (get_null key after))) [
    | inl missing ↦ inl (is_null-null _ missing)
    | inr there ↦ inr (number_read _ (negative_metric key) (rw (there, metric_ok) at h))
  ]

  counted :
      (after : Fields) (keys : List String)
      → metrics_ok int_of_text int_of_real after keys ≡ ok tt
      → All (Counted after) keys
  unfolding metrics_ok
  counted after [] h = tt
  counted after (k ∷ ks) h = (counted_one after k (ground arith), counted after ks (ground arith))

  selected :
      (after parameters : Fields)
      → rollback_ok int_of_text int_of_real rollback after parameters ≡ ok tt
      → get_null "snapshotId" parameters ≢ null
      → (z : ℤ) × (to_int int_of_text int_of_real (get_null "snapshot_id" after) ≡ some z)
        × (to_int int_of_text int_of_real (get_null "snapshotId" parameters) ≡ some z)
  unfolding rollback_ok is_rollback
  selected after parameters h present =
      elim (Bool-cases (is_null (get_null "snapshotId" parameters))) [
        | inl missing ↦ absurd (present (is_null-null _ missing))
        | inr there ↦ same_read _ _ (rw (there, rollback_ok) at h)
      ]

  not_more :
      (before after : Fields)
      → expire_ok int_of_text int_of_real expire_snapshots before after ≡ ok tt
      → greater
          (get_or "snapshot_count" (int (pos 0)) after)
          (get_or "snapshot_count" (int (pos 0)) before)
        ≡ some false
  unfolding expire_ok is_expire
  not_more before after h = more_read _ h

  records :
      (command : Command) (b : Bool) (e : WorkerError)
      → raise_if (not (is_rollback command) && not b) e ≡ ok tt
      → command ≢ rollback
      → b ≡ true
  unfolding is_rollback
  records command b e h c = ground arith

  verify_states-IsVerified :
      (command : Command) (before after parameters : Fields)
      → verify_states int_of_text int_of_real command before after parameters ≡ ok tt
      → IsVerified command before after parameters
  unfolding verify_states is_null
  verify_states-IsVerified command before after parameters h = record {
    records_kept = λ c. ground arith;
    has_snapshot = λ e. ground arith;
    identity_kept = kept before after invariant_keys (ground arith);
    counts = counted after metric_keys (ground arith);
    no_more_snapshots = λ c. not_more before after (ground arith);
    target_selected = λ c. selected after parameters (ground arith);
  }

  -- A result that `verify_result` accepts has both table states, and they meet each condition.
  pub verify-IsVerified :
      (command : Command) (result parameters : Fields)
      → verify_result int_of_text int_of_real command result parameters ≡ ok tt
      → (before after : Fields) × (as_fields (get_null "before" result) ≡ some before)
        × (as_fields (get_null "after" result) ≡ some after)
        × IsVerified command before after parameters
  unfolding verify_result
  verify-IsVerified command result parameters h =
      let (before, b, h') =
        >>=-eq-ok (or_raise (as_fields (get_null "before" result)) no_table_state) _ h in
      let (after, a, h'') =
        >>=-eq-ok (or_raise (as_fields (get_null "after" result)) no_table_state) _ h' in
      (
        before,
        after,
        ground arith,
        ground arith,
        verify_states-IsVerified command before after parameters h'',
      )
