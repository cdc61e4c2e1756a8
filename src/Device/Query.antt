-- ===== src/Device/Query.antt =====
-- The count of the rows in `content_query_with`, and the cached features.
use rsadb.Base.{
  ℕ, suc, ◌≡◌, refl, sym, ◌∙◌, ap, Bytes, ascii, ◌==◌, ==_iff, if_cases, inl, inr, Option, none,
  some, length, List, [], ◌∷◌,
}
use rsadb.Error.{Result, ok, err}
use rsadb.Text.TextMap.{TextMap}
use rsadb.Services.Content.{command, parse_rows, count_rows}
use rsadb.Services.ShellV2.{ShellOutput}
use rsadb.Device.{
  Connection, Device, features, cached, keep_features, bind_run, shell_checked, check_count,
  query_rows, content_query_with, stdout_text, lift,
}

bind_run_ok :
    {A B : Type 0} (f : A → Device → Result B × Device) (m : Result A × Device) (b : B) (e : Device)
    → bind_run f m ≡ (ok b, e)
    → (a : A) × (d : Device) × ((m ≡ (ok a, d)) × (f a d ≡ (ok b, e)))
bind_run_ok f (ok a, d) b e h = (a, d, (refl, h))
bind_run_ok f (err x, d) b e h = cc

kept_read :
    (d e : Device) (fs : List Bytes) (r : Result (List Bytes))
    → keep_features d r ≡ (ok fs, e)
    → e.features ≡ some fs
unfolding keep_features
kept_read d e fs (ok gs) h =
    let read : gs ≡ fs = cc in
    let moved : record { features = some gs; turn = suc d.turn } ≡ e = cc in
    ap (λ x. x.features) (sym moved) ∙ ap some read
kept_read d e fs (err x) h = cc

lift_ok :
    {A : Type 0} (r : Result A) (a : A) (d e : Device) → lift r d ≡ (ok a, e) → (r ≡ ok a) × (d ≡ e)
lift_ok r a d e h = (cc, cc)

check_count_ok :
    (n : ℕ) (rows counted : List TextMap)
    → check_count n rows ≡ ok counted
    → (n ≡ length counted) × (rows ≡ counted)
unfolding check_count
check_count_ok n rows counted h = elim (if_cases (n == length rows) h) [
  | inl (same, taken) ↦
      (let e : rows ≡ counted = cc in ((==_iff n (length rows)).0 same ∙ ap length e, e))
  | inr (_, failed) ↦ cc
]

module _ (C : Connection) where
  kept :
      (o : Option (List Bytes)) (d e : Device) (fs : List Bytes)
      → d.features ≡ o
      → cached C o d ≡ (ok fs, e)
      → e.features ≡ some fs
  unfolding cached keep_features
  kept (some gs) d e fs same h =
      let moved : d ≡ e = cc in let read : gs ≡ fs = cc in rw (← moved, same, read)
  kept none d e fs same h = kept_read d e fs (C.features d.turn) h

  -- What the features are once they have been read: they are not asked for again.
  pub features-cached :
      (d e : Device) (fs : List Bytes) → features C d ≡ (ok fs, e) → features C e ≡ (ok fs, e)
  unfolding features cached
  features-cached d e fs h = rw (kept d.features d e fs refl h)

  module _ (shown : Bytes → Bytes) where
    -- A query that succeeds has run two commands, one after the other: the query itself, of which its
    -- rows are read, and the one for the `_id` column alone, which lists as many rows.
    pub content_query_with-counted :
        (uri : Bytes) (projection extra : List Bytes) (rows : List TextMap) (d e : Device)
        → content_query_with C shown uri projection extra d ≡ (ok rows, e)
        → (out : ShellOutput) × (between : Device) × (check : ShellOutput) × ((shell_checked C shown
                (command uri projection extra)
                d
              ≡ (ok out, between))
            × ((shell_checked C shown (command uri (ascii "_id" ∷ []) extra) between
                  ≡ (ok check, e))
                × ((parse_rows (stdout_text out) projection ≡ ok rows)
                    × (count_rows (stdout_text check) ≡ length rows))))
    unfolding content_query_with query_rows
    content_query_with-counted uri [] extra rows d e h = cc
    content_query_with-counted uri (c ∷ cs) extra rows d e h =
        let (out, d1, (ran, h1)) = bind_run_ok _ _ rows e h in
        let (read, d2, (lifted, h2)) = bind_run_ok _ _ rows e h1 in
        let (check, d3, (ran2, h3)) = bind_run_ok _ _ rows e h2 in
        let (parsed, same) = lift_ok (parse_rows (stdout_text out) (c ∷ cs)) read d1 d2 lifted in
        let (counted, last) =
          lift_ok (check_count (count_rows (stdout_text check)) read) rows d3 e h3 in
        let (number, all) = check_count_ok (count_rows (stdout_text check)) read rows counted in
        (
          out,
          d1,
          check,
          (
            ran,
            (
              ap (λ x. shell_checked C shown (command uri (ascii "_id" ∷ []) extra) x) same
                  ∙ (ran2 ∙ ap (λ x. (ok check, x)) last),
              (parsed ∙ ap ok all, number),
            ),
          ),
        )
