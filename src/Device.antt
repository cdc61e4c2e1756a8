-- ===== src/Device.antt =====
-- src/device/mod.rs: the typed view of one device, over any connection to it.
-- A connection is an interface: what its `features` and its `open` give at the turn of the call. The
-- `{:?}` of a string, which the standard library writes, is a parameter too.
pub mod Files
pub mod Query
use rsadb.Base.{
  ℕ, suc, Bytes, ascii, bytes_eq, Bool, true, false, ◌||◌, not, ◌==◌, ltb, min, if◌then◌else◌,
  Option, none, some, length, take, List, [], ◌∷◌, ◌++◌,
}
use rsadb.Error.{
  Result, ok, err, Error, unsupported, lacks_shell_v2, remote_failure, parse, not_png, row_count,
  invalid_argument, no_projection,
}
use rsadb.Text.{any_eq, trim_end}
use rsadb.Text.Decimal.{decimal}
use rsadb.Text.Lossy.{from_utf8_lossy}
use rsadb.Text.TextMap.{TextMap}
use rsadb.Text.White.{trim}
use rsadb.Channel.{Channel, ChannelReader, drain}
use rsadb.Services.{RebootTarget, reboot_service}
use rsadb.Services.Content.{command, parse_rows, count_rows}
use rsadb.Services.Props.{validate_name, parse_all}
use rsadb.Services.Shell.{Served, shell_v2_feature, shell_v1, exec, shell_v2, shell}
use rsadb.Services.ShellV2.{ShellOutput, success}

abbrev pub png_magic : Bytes
png_magic = 0x89 ∷ b'P' ∷ b'N' ∷ b'G' ∷ b'\r' ∷ b'\n' ∷ 0x1A ∷ b'\n' ∷ []

-- The trait `Connection`, by the number of the call.
pub record Connection : Type 0 where
  pub features : ℕ → Result (List Bytes)
  pub open_service : ℕ → Bytes → Result Channel

-- The cache of the features, and the calls that the connection has had.
pub record Device : Type 0 where
  pub features : Option (List Bytes)
  pub turn : ℕ

abbrev pub new : Device
new = record { features = none; turn = 0 }

abbrev pub Run : Type 0 → Type 0
Run A = Device → Result A × Device

abbrev pub pure : {A : Type 0} → A → Run A
pure a d = (ok a, d)

abbrev pub lift : {A : Type 0} → Result A → Run A
lift x d = (x, d)

abbrev pub bind_run : {A B : Type 0} → (A → Run B) → Result A × Device → Result B × Device
bind_run f (ok a, d) = f a d
bind_run f (err e, d) = (err e, d)

infixl 5 ◌>>=◌ ◌>>◌
abbrev pub ◌>>=◌ : {A B : Type 0} → Run A → (A → Run B) → Run B
◌>>=◌ m f d = bind_run f (m d)

abbrev pub ◌>>◌ : {B : Type 0} → Run (Unit {0}) → Run B → Run B
m >> k = m >>= λ _. k

-- The result of a service that has been run on its own channel.
abbrev pub served : {A : Type 0} → Served A → Result A
served (ok (result, r)) = result
served (err e) = err e

-- `stdout_text` and `stderr_text`
abbrev pub stdout_text : ShellOutput → Bytes
stdout_text out = from_utf8_lossy out.stdout

abbrev pub stderr_text : ShellOutput → Bytes
stderr_text out = from_utf8_lossy out.stderr

exit_text : Option ℕ → Bytes
exit_text none = decimal 0
exit_text (some code) = decimal code

keep_features : Device → Result (List Bytes) → Result (List Bytes) × Device
keep_features d (ok fs) = (ok fs, record { features = some fs; turn = suc d.turn })
keep_features d (err e) = (err e, record d { turn = suc d.turn })

unfoldable pub check_png : Bytes → Result Bytes
check_png png =
    if ltb (length png) (length png_magic) || not (bytes_eq (take (length png_magic) png) png_magic)
    then err (parse (not_png (length png) (from_utf8_lossy (take (min (length png) 64) png))))
    else ok png

unfoldable pub check_count : ℕ → List TextMap → Result (List TextMap)
check_count expected rows =
    if expected == length rows then ok rows else err (parse (row_count (length rows) expected))

module _ (C : Connection) where
  cached : Option (List Bytes) → Run (List Bytes)
  unfolding keep_features
  cached (some fs) d = (ok fs, d)
  cached none d = keep_features d (C.features d.turn)

  unfoldable pub features : Run (List Bytes)
  unfolding cached
  features d = cached d.features d

  unfoldable pub has_feature : Bytes → Run Bool
  has_feature name = do fs ← features; pure (any_eq fs name)

  -- A call of a service, which opens at the present turn.
  unfoldable pub call : {A : Type 0} → ((Bytes → Result Channel) → Result A) → Run A
  call service d = (service (C.open_service d.turn), record d { turn = suc d.turn })

  unfoldable pub run_shell : Bytes → Run ShellOutput
  run_shell text = do fs ← features; call (λ connect. served (shell connect fs text))

  stdin_run : Bytes → Bytes → Bool → Run ShellOutput
  stdin_run text stdin true = call (λ connect. served (shell_v2 connect text stdin))
  stdin_run text stdin false = lift (err (unsupported lacks_shell_v2))

  unfoldable pub shell_with_stdin : Bytes → Bytes → Run ShellOutput
  unfolding stdin_run
  shell_with_stdin text stdin = has_feature shell_v2_feature >>= stdin_run text stdin

  unfoldable pub run_shell_v1 : Bytes → Run Bytes
  run_shell_v1 text = call (λ connect. served (shell_v1 connect text))

  unfoldable pub run_exec : Bytes → Run Bytes
  run_exec text = call (λ connect. served (exec connect text))

  unfoldable pub screencap : Run Bytes
  screencap = do png ← run_exec (ascii "screencap -p"); lift (check_png png)

  unfoldable pub reboot : RebootTarget → Run (Unit {0})
  reboot target = call (λ connect. reboot_service connect target)

  module _ (shown : Bytes → Bytes) where
    unfoldable pub check_exit : Bytes → ShellOutput → Result ShellOutput
    unfolding exit_text
    check_exit text out =
        if success out
        then ok out
        else err (
            remote_failure (
              shown text
              ++ (ascii " exited "
                  ++ (exit_text out.exit_code ++ (ascii ": " ++ trim (stderr_text out))))))

    unfoldable pub shell_checked : Bytes → Run ShellOutput
    shell_checked text = do out ← run_shell text; lift (check_exit text out)

    unfoldable pub getprop : Bytes → Run Bytes
    getprop name = do
      lift (validate_name name)
      out ← shell_checked (ascii "getprop " ++ name)
      pure (trim_end (λ c. c == b'\r' || c == b'\n') (stdout_text out))

    unfoldable pub getprops : Run TextMap
    getprops = do out ← shell_checked (ascii "getprop"); pure (parse_all (stdout_text out))

    query_rows : Bytes → List Bytes → List Bytes → Run (List TextMap)
    query_rows uri projection extra = do
      out ← shell_checked (command uri projection extra)
      rows ← lift (parse_rows (stdout_text out) projection)
      check ← shell_checked (command uri (ascii "_id" ∷ []) extra)
      lift (check_count (count_rows (stdout_text check)) rows)

    unfoldable pub content_query_with : Bytes → List Bytes → List Bytes → Run (List TextMap)
    unfolding query_rows
    content_query_with uri [] extra = lift (err (invalid_argument no_projection))
    content_query_with uri (column ∷ columns) extra = query_rows uri (column ∷ columns) extra

    unfoldable pub content_query : Bytes → List Bytes → Run (List TextMap)
    content_query uri projection = content_query_with uri projection []
