-- ===== src/Transport/Io.antt =====
-- What src/transport/framed.rs relies on of tokio's byte streams. The streams are not part of the
-- repository: they are parameters, with the documented behaviour of `read`, `read_exact`,
-- `write_all` and `flush` as laws.
use rsadb.Base.{ℕ, ◌≤◌, ◌<◌, ◌≡◌, Bytes, length, take, drop, [], ◌++◌}
use rsadb.Error.{Reason}

-- A result of an I/O call. `eof` is the error kind `UnexpectedEof`.
pub data IoResult {ℓ} (A : Type ℓ) : Type ℓ where
  done : A → IoResult A
  eof : IoResult A
  failed : Reason → IoResult A

-- `pending` is what the stream will deliver up to its end, and a healthy stream is one that raises
-- no I/O error.
pub record AsyncRead : Type 1 where
  pub State : Type 0
  pub read : ℕ → State → IoResult (Bytes × State)
  pub read_exact : ℕ → State → IoResult (Bytes × State)
  pub pending : State → Bytes
  pub IsHealthy : State → Type 0
  -- One `read` delivers a prefix of what is pending, and nothing only at the end of the stream.
  pub read_lem :
      (n : ℕ) (s : State)
      → IsHealthy s
      → 0 < n
      → (bs : Bytes) × (t : State) × (read n s ≡ done (bs, t))
        × (bs ++ pending t ≡ pending s)
        × (length bs ≤ n)
        × (bs ≡ [] → pending s ≡ [])
        × IsHealthy t
  -- `read_exact` delivers the next bytes if there are as many.
  pub read_exact_lem :
      (n : ℕ) (s : State)
      → IsHealthy s
      → n ≤ length (pending s)
      → (t : State) × (read_exact n s ≡ done (take n (pending s), t))
        × (pending t ≡ drop n (pending s))
        × IsHealthy t
  pub read_exact_eof :
      (n : ℕ) (s : State) → IsHealthy s → length (pending s) < n → read_exact n s ≡ eof

-- `written` is what the peer has been sent.
pub record AsyncWrite : Type 1 where
  pub State : Type 0
  pub write_all : Bytes → State → IoResult State
  pub flush : State → IoResult State
  pub written : State → Bytes
  pub IsHealthy : State → Type 0
  pub write_all_lem :
      (bs : Bytes) (s : State)
      → IsHealthy s
      → (t : State) × (write_all bs s ≡ done t) × (written t ≡ written s ++ bs) × IsHealthy t
  pub flush_lem :
      (s : State)
      → IsHealthy s
      → (t : State) × (flush s ≡ done t) × (written t ≡ written s) × IsHealthy t
